-- ===== src/Spec/Strings.antt =====
-- What `hasString` answers, as membership.
use mkdeb.Prelude.{
  ◌≡◌, refl, ◌↔◌, ◌⊎◌, inl, inr, Bool, true, false, List, [], ◌∷◌, ◌++◌, Bytes, bytes_eq_iff, arith,
  if◌then◌else◌,
}
use mkdeb.Spec.{has_string}

-- The text stands in the list.
abbrev pub Member : Bytes → List Bytes → Type 0
Member s [] = ⊥
Member s (x ∷ xs) = (x ≡ s) ⊎ Member s xs

pub has_string→Member : (xs : List Bytes) (s : Bytes) → has_string xs s ≡ true → Member s xs
unfolding has_string
has_string→Member [] s h = cc
has_string→Member (x ∷ xs) s h = ground (arith, bytes_eq_iff x s, has_string→Member xs s)

pub Member→has_string : (xs : List Bytes) (s : Bytes) → Member s xs → has_string xs s ≡ true
unfolding has_string
Member→has_string [] s m = absurd m
Member→has_string (x ∷ xs) s (inl e) = ground (arith, bytes_eq_iff x s)
Member→has_string (x ∷ xs) s (inr m) = ground (arith, Member→has_string xs s m)

pub has_string_iff : (xs : List Bytes) (s : Bytes) → (has_string xs s ≡ true) ↔ Member s xs
has_string_iff xs s = (has_string→Member xs s, Member→has_string xs s)

pub has_string-append :
    (xs ys : List Bytes) (s : Bytes)
    → has_string (xs ++ ys) s ≡ (if has_string xs s then true else has_string ys s)
unfolding has_string
has_string-append [] ys s = refl
has_string-append (x ∷ xs) ys s = ground (arith, has_string-append xs ys s)

pub Member-append :
    (s : Bytes) (xs ys : List Bytes) → Member s (xs ++ ys) ↔ (Member s xs ⊎ Member s ys)
Member-append s xs ys = (to xs, from xs)
  where
    to : (xs : List Bytes) → Member s (xs ++ ys) → Member s xs ⊎ Member s ys
    to [] m = inr m
    to (x ∷ xs) (inl e) = inl (inl e)
    to (x ∷ xs) (inr m) = elim (to xs m) [ inl a ↦ inl (inr a) | inr b ↦ inr b ]

    from : (xs : List Bytes) → Member s xs ⊎ Member s ys → Member s (xs ++ ys)
    from [] (inl a) = absurd a
    from [] (inr b) = b
    from (x ∷ xs) (inl (inl e)) = inl e
    from (x ∷ xs) (inl (inr m)) = inr (from xs (inl m))
    from (x ∷ xs) (inr b) = inr (from xs (inr b))

pub Member-if :
    (b : Bool) (e x : Bytes) (xs : List Bytes)
    → Member e (if b then x ∷ xs else xs) ↔ (((b ≡ true) × (x ≡ e)) ⊎ Member e xs)
Member-if true e x xs =
    (elim [ inl q ↦ inl (refl, q) | inr m ↦ inr m ], elim [ inl (_, q) ↦ inl q | inr m ↦ inr m ])
Member-if false e x xs = (λ m. inr m, elim [ inl (q, _) ↦ cc | inr m ↦ m ])
