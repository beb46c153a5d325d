-- ===== src/Regex/Decides.antt =====
-- The matcher and the language of an expression.
use mkdeb.Prelude.{
  ℕ, ◌≡◌, refl, sym, ap, ◌∙◌, ◌↔◌, ◌⊎◌, inl, inr, Bool, true, false, [], ◌∷◌, ◌++◌, Bytes, arith,
  if◌then◌else◌, Bool-cases, &&_iff,
}
use mathlib.Core.List.{append-eq-nil_iff}
use mkdeb.Regex.{
  Regex, none, eps, cls, cat, alt, star, done, more, Matches, nullable, deriv, match_string,
}

nullable→Matches : (r : Regex) → nullable r ≡ true → Matches r []
unfolding nullable
nullable→Matches none h = cc
nullable→Matches eps h = refl
nullable→Matches (cls p) h = cc
nullable→Matches (cat r q) h =
    ([], [], refl, nullable→Matches r (ground arith), nullable→Matches q (ground arith))
nullable→Matches (alt r q) h = elim (Bool-cases (nullable r)) [
  | inl e ↦ inl (nullable→Matches r e)
  | inr e ↦ inr (nullable→Matches q (ground arith))
]
nullable→Matches (star r) h = done refl

Matches→nullable : (r : Regex) {s : Bytes} → Matches r s → s ≡ [] → nullable r ≡ true
unfolding nullable
Matches→nullable none m e = absurd m
Matches→nullable eps m e = refl
Matches→nullable (cls p) m e = cc
Matches→nullable (cat r q) (u, t, e', mu, mt) e =
    let (eu, et) = append-eq-nil_iff.0 (sym e' ∙ e) in
    (&&_iff _ _).1 (Matches→nullable r mu eu, Matches→nullable q mt et)
Matches→nullable (alt r q) (inl m) e = ground (arith, Matches→nullable r m e)
Matches→nullable (alt r q) (inr m) e = ground (arith, Matches→nullable q m e)
Matches→nullable (star r) m e = refl

-- How the two tests inside `deriv` read, and how they are met.
cls_inv : (b : Bool) (s : Bytes) → Matches (if b then eps else none) s → (b ≡ true) × (s ≡ [])
cls_inv true s m = (refl, m)
cls_inv false s m = absurd m

cls_intro : (b : Bool) (s : Bytes) → b ≡ true → s ≡ [] → Matches (if b then eps else none) s
cls_intro true s e e' = e'
cls_intro false s e e' = cc

cat_inv :
    (b : Bool) (f g : Regex) (s : Bytes)
    → Matches (if b then alt f g else f) s
    → Matches f s ⊎ ((b ≡ true) × Matches g s)
cat_inv true f g s (inl m) = inl m
cat_inv true f g s (inr m) = inr (refl, m)
cat_inv false f g s m = inl m

cat_front :
    (b : Bool) (f g : Regex) (s : Bytes) → Matches f s → Matches (if b then alt f g else f) s
cat_front true f g s m = inl m
cat_front false f g s m = m

cat_back :
    (b : Bool) (f g : Regex) (s : Bytes)
    → b ≡ true
    → Matches g s
    → Matches (if b then alt f g else f) s
cat_back true f g s e m = inr m
cat_back false f g s e m = cc

deriv→Matches : (c : ℕ) (r : Regex) (s : Bytes) → Matches (deriv c r) s → Matches r (c ∷ s)
unfolding deriv
deriv→Matches c none s m = absurd m
deriv→Matches c eps s m = absurd m
deriv→Matches c (cls p) s m =
    let (e, e') = cls_inv (p c) s m in (c, ap (λ (x : Bytes). c ∷ x) e', e)
deriv→Matches c (cat r q) s m = elim (cat_inv (nullable r) _ _ s m) [
  | inl (u, t, e, mu, mt) ↦ (c ∷ u, t, ap (λ (x : Bytes). c ∷ x) e, deriv→Matches c r u mu, mt)
  | inr (e, m') ↦ ([], c ∷ s, refl, nullable→Matches r e, deriv→Matches c q s m')
]
deriv→Matches c (alt r q) s (inl m) = inl (deriv→Matches c r s m)
deriv→Matches c (alt r q) s (inr m) = inr (deriv→Matches c q s m)
deriv→Matches c (star r) s (u, t, e, mu, mt) =
    more c u t (ap (λ (x : Bytes). c ∷ x) e) (deriv→Matches c r u mu) mt

-- A text with a first byte is cut either in front of that byte or behind it.
cons_of_append :
    (c : ℕ) (s u t : Bytes)
    → c ∷ s ≡ u ++ t
    → ((u ≡ []) × (t ≡ c ∷ s)) ⊎ ((v : Bytes) × (u ≡ c ∷ v) × (s ≡ v ++ t))
cons_of_append c s [] t e = inl (refl, sym e)
cons_of_append c s (d ∷ u) t e = inr (u, ground arith, ground arith)

Matches→deriv :
    (c : ℕ) (r : Regex) (s s' : Bytes) → s' ≡ c ∷ s → Matches r s' → Matches (deriv c r) s
unfolding deriv
Matches→deriv c none s s' e m = absurd m
Matches→deriv c eps s s' e m = cc
Matches→deriv c (cls p) s s' e (d, ed, pd) = cls_intro (p c) s (ground arith) (ground arith)
Matches→deriv c (cat r q) s s' e (u, t, e', mu, mt) = elim (cons_of_append c s u t (sym e ∙ e')) [
  | inl (eu, et) ↦
      cat_back (nullable r) _ _ s (Matches→nullable r mu eu) (Matches→deriv c q s t et mt)
  | inr (v, eu, es) ↦ cat_front (nullable r) _ _ s (v, t, es, Matches→deriv c r v u eu mu, mt)
]
Matches→deriv c (alt r q) s s' e (inl m) = inl (Matches→deriv c r s s' e m)
Matches→deriv c (alt r q) s s' e (inr m) = inr (Matches→deriv c q s s' e m)
Matches→deriv c (star r) s s' e (done e') = cc
Matches→deriv c (star r) s s' e (more d u t e' mu mt) =
    (u, t, ground arith, Matches→deriv c r u (d ∷ u) (ground arith) mu, mt)

-- `MatchString` of an anchored expression answers true exactly on the texts of its language.
pub match_string-Matches : (r : Regex) (s : Bytes) → (match_string r s ≡ true) ↔ Matches r s
unfolding match_string
match_string-Matches r [] = (nullable→Matches r, λ m. Matches→nullable r m refl)
match_string-Matches r (c ∷ s) =
    let (f, g) = match_string-Matches (deriv c r) s in
    (λ h. deriv→Matches c r s (f h), λ m. g (Matches→deriv c r s (c ∷ s) refl m))
