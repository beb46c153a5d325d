-- ===== src/FilePath/Clean.antt =====
-- The form of the paths that `Clean` answers.
use mathlib.Core.List.{reverse, reverse-cons, reverse-reverse}
use mkdeb.Prelude.{
  ◌≡◌, refl, ◌⊎◌, inl, inr, Bool, true, false, List, [], ◌∷◌, ◌++◌, append-nil, append_assoc, Bytes,
  bytes_eq, bytes_eq_iff, arith, All, All-append, Bool-cases, ◌≢◌,
}
use mkdeb.FilePath.{
  dot, dot_dot, split, is_rooted, go_up, clean_step, clean_elements, render, clean, path_join,
}
use mkdeb.FilePath.Elements.{IsPart, split-IsPart, split-join, split-slash}

-- An element that is a name.
abbrev pub IsPlain : Bytes → Type 0
IsPlain e =
    IsPart e × (bytes_eq e [] ≡ false) × (bytes_eq e dot ≡ false) × (bytes_eq e dot_dot ≡ false)

-- The elements of a clean path, the last one first: names, behind them `..` only, and no `..` at
-- all from the root.
abbrev pub IsStack : Bool → List Bytes → Type 0
IsStack rooted [] = Unit {0}
IsStack rooted (e ∷ out) =
    (IsPlain e × IsStack rooted out)
    ⊎ ((rooted ≡ false) × (e ≡ dot_dot) × All (λ d. d ≡ dot_dot) out)

All→IsStack :
    (rooted : Bool) (out : List Bytes)
    → rooted ≡ false
    → All (λ d. d ≡ dot_dot) out
    → IsStack rooted out
All→IsStack rooted [] r h = tt
All→IsStack rooted (d ∷ out) r (h, hs) = inr (r, h, hs)

go_up-IsStack :
    (rooted : Bool) (out : List Bytes) → IsStack rooted out → IsStack rooted (go_up rooted out)
go_up-IsStack true [] h = tt
go_up-IsStack false [] h = inr (refl, refl, tt)
go_up-IsStack rooted (e ∷ out) (inl (p, h)) = rw p.3 h
go_up-IsStack rooted (e ∷ out) (inr (r, q, h)) =
    rw ((bytes_eq_iff e dot_dot).1 q) (inr (r, refl, (q, h)))

clean_step-IsStack :
    (rooted : Bool) (out : List Bytes) (e : Bytes)
    → IsPart e
    → IsStack rooted out
    → IsStack rooted (clean_step rooted out e)
unfolding clean_step
clean_step-IsStack rooted out e p h = elim (Bool-cases (bytes_eq e [])) [
  | inl a ↦ rw a h
  | inr a ↦ elim (Bool-cases (bytes_eq e dot)) [
    | inl b ↦ rw (a, b) h
    | inr b ↦ elim (Bool-cases (bytes_eq e dot_dot)) [
      | inl c ↦ rw (a, b, c) (go_up-IsStack rooted out h)
      | inr c ↦ rw (a, b, c) (inl ((p, a, b, c), h))
    ]
  ]
]

clean_elements-IsStack :
    (rooted : Bool) (out es : List Bytes)
    → All IsPart es
    → IsStack rooted out
    → IsStack rooted (clean_elements rooted out es)
unfolding clean_elements
clean_elements-IsStack rooted out [] p h = h
clean_elements-IsStack rooted out (e ∷ es) (p, ps) h =
    clean_elements-IsStack rooted (clean_step rooted out e) es ps
      (clean_step-IsStack rooted out e p h)

clean_elements-append :
    (rooted : Bool) (out xs ys : List Bytes)
    → clean_elements rooted out (xs ++ ys) ≡ clean_elements rooted (clean_elements rooted out xs) ys
unfolding clean_elements
clean_elements-append rooted out [] ys = refl
clean_elements-append rooted out (x ∷ xs) ys =
    clean_elements-append rooted (clean_step rooted out x) xs ys

-- A name goes on top; `..` goes on top of nothing and of `..`, if the path is not rooted.
clean_step_plain :
    (rooted : Bool) (out : List Bytes) (e : Bytes) → IsPlain e → clean_step rooted out e ≡ e ∷ out
unfolding clean_step
clean_step_plain rooted out e (p, a, b, c) = rw (a, b, c)

clean_step_up :
    (rooted : Bool) (out : List Bytes)
    → rooted ≡ false
    → All (λ d. d ≡ dot_dot) out
    → clean_step rooted out dot_dot ≡ dot_dot ∷ out
unfolding clean_step
clean_step_up rooted [] r h = rw r
clean_step_up rooted (d ∷ out) r (h, hs) = rw h

clean_step_stack :
    (rooted : Bool) (out : List Bytes) (e : Bytes)
    → IsStack rooted (e ∷ out)
    → clean_step rooted out e ≡ e ∷ out
clean_step_stack rooted out e (inl (p, h)) = clean_step_plain rooted out e p
clean_step_stack rooted out e (inr (r, q, h)) = rw q (clean_step_up rooted out r h)

IsStack-tail :
    (rooted : Bool) (e : Bytes) (out : List Bytes) → IsStack rooted (e ∷ out) → IsStack rooted out
IsStack-tail rooted e out (inl (p, h)) = h
IsStack-tail rooted e out (inr (r, q, h)) = All→IsStack rooted out r h

-- The elements of a clean path are left as they are.
pub clean_elements-reverse :
    (rooted : Bool) (out : List Bytes)
    → IsStack rooted out
    → clean_elements rooted [] (reverse out) ≡ out
clean_elements-reverse rooted [] h = unfold clean_elements in refl
clean_elements-reverse rooted (e ∷ out) h =
    rw
      (
        reverse-cons,
        clean_elements-append rooted [] (reverse out) (e ∷ []),
        clean_elements-reverse rooted out (IsStack-tail rooted e out h),
      )
      (unfold clean_elements in clean_step_stack rooted out e h)

IsStack→IsPart :
    (rooted : Bool) (out : List Bytes) → IsStack rooted out → All (λ e. IsPart e × (e ≢ [])) out
IsStack→IsPart rooted [] h = tt
IsStack→IsPart rooted (e ∷ out) (inl ((p, a, b, c), h)) =
    ((p, λ q. cc (a, (bytes_eq_iff e []).1 q)), IsStack→IsPart rooted out h)
IsStack→IsPart rooted (e ∷ out) (inr (r, q, h)) =
    ((rw q refl, λ q'. cc), IsStack→IsPart rooted out (All→IsStack rooted out r h))

reverse-All : (P : Bytes → Type 0) (xs : List Bytes) → All P xs → All P (reverse xs)
reverse-All P [] h = tt
reverse-All P (x ∷ xs) (h, hs) =
    rw reverse-cons (All-append P (reverse xs) (x ∷ []) (reverse-All P xs hs) (h, tt))

All-IsPart : (es : List Bytes) → All (λ e. IsPart e × (e ≢ [])) es → All IsPart es
All-IsPart [] h = tt
All-IsPart (e ∷ es) ((p, _), h) = (p, All-IsPart es h)

-- A rendered path starts at the root as it was told to.
pub render-is_rooted :
    (rooted : Bool) (es : List Bytes)
    → All (λ e. IsPart e × (e ≢ [])) es
    → is_rooted (render rooted es) ≡ rooted
render-is_rooted true es h = refl
render-is_rooted false [] h = refl
render-is_rooted false ([] ∷ es) ((p, n), h) = absurd (n refl)
render-is_rooted false ((c ∷ e) ∷ es) ((p, n), h) = ground arith

clean_elements_empty :
    (rooted : Bool) (out es : List Bytes)
    → clean_elements rooted out ([] ∷ es) ≡ clean_elements rooted out es
unfolding clean_elements
clean_elements_empty rooted out es = refl

-- Cutting a rendered path brings its elements back, up to elements that `Clean` drops.
pub clean_elements-render :
    (b rooted : Bool) (es : List Bytes)
    → All IsPart es
    → clean_elements b [] (split (render rooted es)) ≡ clean_elements b [] es
clean_elements-render b true [] h = unfold clean_elements split in refl
clean_elements-render b true (e ∷ es) h = rw (split-slash, split-join e es h, clean_elements_empty)
clean_elements-render b false [] h = unfold clean_elements split in refl
clean_elements-render b false (e ∷ es) h = rw (split-join e es h)

clean-render :
    (rooted : Bool) (out : List Bytes)
    → IsStack rooted out
    → clean (render rooted (reverse out)) ≡ render rooted (reverse out)
unfolding clean
clean-render rooted out h =
    let solid = reverse-All _ out (IsStack→IsPart rooted out h) in
    rw (
      render-is_rooted rooted (reverse out) solid,
      clean_elements-render rooted rooted (reverse out) (All-IsPart (reverse out) solid),
      clean_elements-reverse rooted out h,
    )

pub clean-clean : (s : Bytes) → clean (clean s) ≡ clean s
unfolding clean
clean-clean s =
    clean-render (is_rooted s) (clean_elements (is_rooted s) [] (split s))
      (clean_elements-IsStack (is_rooted s) [] (split s) (split-IsPart s) tt)

pub is_rooted-clean : (s : Bytes) → is_rooted (clean s) ≡ is_rooted s
unfolding clean
is_rooted-clean s = render-is_rooted (is_rooted s) _ (
    reverse-All _ _ (
      IsStack→IsPart (is_rooted s) _
        (clean_elements-IsStack (is_rooted s) [] (split s) (split-IsPart s) tt)))

-- A path of names is clean.
pub clean_elements_plain :
    (rooted : Bool) (out es : List Bytes)
    → All IsPlain es
    → clean_elements rooted out es ≡ reverse es ++ out
unfolding clean_elements
clean_elements_plain rooted out [] h = refl
clean_elements_plain rooted out (e ∷ es) (p, h) = rw (
  clean_step_plain rooted out e p,
  clean_elements_plain rooted (e ∷ out) es h,
  reverse-cons,
  append_assoc,
)

pub All-plain-IsPart : (es : List Bytes) → All IsPlain es → All IsPart es
All-plain-IsPart [] h = tt
All-plain-IsPart (e ∷ es) (p, h) = (p.0, All-plain-IsPart es h)

pub All-plain-solid : (es : List Bytes) → All IsPlain es → All (λ e. IsPart e × (e ≢ [])) es
All-plain-solid [] h = tt
All-plain-solid (e ∷ es) ((p, a, b, c), h) =
    ((p, λ q. cc (a, (bytes_eq_iff e []).1 q)), All-plain-solid es h)

pub clean_plain :
    (rooted : Bool) (es : List Bytes) → All IsPlain es → clean (render rooted es) ≡ render rooted es
unfolding clean
clean_plain rooted es h = rw (
  render-is_rooted rooted es (All-plain-solid es h),
  clean_elements-render rooted rooted es (All-plain-IsPart es h),
  clean_elements_plain rooted [] es h,
  append-nil,
  reverse-reverse,
)

clean_dot :
    (s : Bytes) → clean (46 ∷ 47 ∷ s) ≡ render false (reverse (clean_elements false [] (split s)))
unfolding clean
clean_dot s = refl

-- `.` joined with a path of names, rooted or not, is the path without its root.
pub path_join-dot :
    (rooted : Bool) (es : List Bytes)
    → All IsPlain es
    → path_join (dot ∷ render rooted es ∷ []) ≡ render false es
unfolding path_join
path_join-dot rooted es h = rw (
  append-nil,
  clean_dot (render rooted es),
  clean_elements-render false rooted es (All-plain-IsPart es h),
  clean_elements_plain false [] es h,
  append-nil,
  reverse-reverse,
)
