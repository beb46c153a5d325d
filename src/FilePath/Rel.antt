-- ===== src/FilePath/Rel.antt =====
-- `Rel` on a path below a directory.
use mathlib.Core.Bool.{xor}
use mkdeb.Prelude.{
  ◌≡◌, ◌≢◌, refl, sym, ap, ◌∙◌, Bool, true, false, List, [], ◌∷◌, ◌++◌, some, length, length-append,
  Bytes, codes, bytes_eq, bytes_eq_iff, bytes_eq_refl, arith, join, All, All-append, Bool-cases,
  inl, inr,
}
use mkdeb.FilePath.{dot, split, render, rel_elements, rel_from, rel_base, join_elements, rel}
use mkdeb.FilePath.Elements.{split-slash, split-join}
use mkdeb.FilePath.Clean.{IsPlain, render-is_rooted, All-plain-IsPart, All-plain-solid, clean_plain}

abbrev with_root : Bool → List Bytes → List Bytes
with_root true es = [] ∷ es
with_root false es = es

split-render :
    (rooted : Bool) (e : Bytes) (es : List Bytes)
    → All IsPlain (e ∷ es)
    → split (render rooted (e ∷ es)) ≡ with_root rooted (e ∷ es)
split-render true e es h = rw (split-slash, split-join e es (All-plain-IsPart (e ∷ es) h))
split-render false e es h = split-join e es (All-plain-IsPart (e ∷ es) h)

-- Two paths of names are told apart by their elements.
render-ne :
    (rooted : Bool) (e : Bytes) (es : List Bytes) (s : Bytes)
    → All IsPlain (e ∷ es)
    → split s ≢ with_root rooted (e ∷ es)
    → bytes_eq (render rooted (e ∷ es)) s ≡ false
render-ne rooted e es s h n = elim (Bool-cases (bytes_eq (render rooted (e ∷ es)) s)) [
  | inr q ↦ q
  | inl q ↦ absurd (n (ap split (sym ((bytes_eq_iff _ s).0 q)) ∙ split-render rooted e es h))
]

rel_elements_of_ne :
    (s : Bytes) → s ≢ [] → bytes_eq s (codes "/") ≡ false → rel_elements s ≡ split s
rel_elements_of_ne [] n h = absurd (n refl)
rel_elements_of_ne (c ∷ s) n h = rw h

rel_from-append : (xs ys : List Bytes) → rel_from xs (xs ++ ys) ≡ some ys
unfolding rel_from
rel_from-append [] ys = refl
rel_from-append (x ∷ xs) ys = rw (bytes_eq_refl x) (rel_from-append xs ys)

root_parts-ne :
    (rooted : Bool) (e : Bytes) (es : List Bytes)
    → IsPlain e
    → split (codes "/") ≢ with_root rooted (e ∷ es)
unfolding split
root_parts-ne true e es (p, a, b, c) q =
    let k : e ≡ [] = ground arith in cc (a, (bytes_eq_iff e []).1 k)
root_parts-ne false e es (p, a, b, c) q =
    let k : e ≡ [] = ground arith in cc (a, (bytes_eq_iff e []).1 k)

dot_parts-ne :
    (rooted : Bool) (e : Bytes) (es : List Bytes)
    → IsPlain e
    → split dot ≢ with_root rooted (e ∷ es)
unfolding split
dot_parts-ne true e es (p, a, b, c) q = cc
dot_parts-ne false e es (p, a, b, c) q =
    let k : e ≡ dot = ground arith in cc (b, (bytes_eq_iff e dot).1 k)

pub render-ne-nil :
    (rooted : Bool) (e : Bytes) (es : List Bytes) → IsPlain e → render rooted (e ∷ es) ≢ []
render-ne-nil true e es p q = cc
render-ne-nil false [] es (p, a, b, c) q = cc
render-ne-nil false (x ∷ e) es p q = cc

rel_elements-render :
    (rooted : Bool) (e : Bytes) (es : List Bytes)
    → All IsPlain (e ∷ es)
    → rel_elements (render rooted (e ∷ es)) ≡ with_root rooted (e ∷ es)
rel_elements-render rooted e es (p, h) =
    rel_elements_of_ne (render rooted (e ∷ es)) (render-ne-nil rooted e es p)
      (render-ne rooted e es (codes "/") (p, h) (root_parts-ne rooted e es p))
    ∙ split-render rooted e es (p, h)

rel_base-render :
    (rooted : Bool) (e : Bytes) (es : List Bytes)
    → All IsPlain (e ∷ es)
    → rel_base (render rooted (e ∷ es)) ≡ render rooted (e ∷ es)
rel_base-render rooted e es (p, h) =
    rw (render-ne rooted e es dot (p, h) (dot_parts-ne rooted e es p))

with_root-append :
    (rooted : Bool) (xs ys : List Bytes) → with_root rooted (xs ++ ys) ≡ with_root rooted xs ++ ys
with_root-append true xs ys = refl
with_root-append false xs ys = refl

longer-ne :
    (rooted : Bool) (xs : List Bytes) (y : Bytes) (ys : List Bytes)
    → with_root rooted xs ≢ with_root rooted (xs ++ y ∷ ys)
longer-ne true xs y ys q = omega (arith, ap length q, length-append xs (y ∷ ys))
longer-ne false xs y ys q = omega (arith, ap length q, length-append xs (y ∷ ys))

xor_self : (b : Bool) → xor b b ≡ false
unfolding xor
xor_self true = refl
xor_self false = refl

-- Below a directory of names, rooted or not, `Rel` answers what stands behind the directory.
pub rel_below :
    (rooted : Bool) (a : Bytes) (as' : List Bytes) (b : Bytes) (bs : List Bytes)
    → All IsPlain (a ∷ as')
    → All IsPlain (b ∷ bs)
    → rel (render rooted (a ∷ as')) (render rooted (a ∷ (as' ++ b ∷ bs)))
      ≡ some (join (b ∷ bs) (codes "/"))
unfolding rel
rel_below rooted a as' b bs ha hb =
    let hab = All-append IsPlain (a ∷ as') (b ∷ bs) ha hb in
    rw
      (
        clean_plain rooted (a ∷ as') ha,
        clean_plain rooted (a ∷ (as' ++ b ∷ bs)) hab,
        render-ne rooted a (as' ++ b ∷ bs) (render rooted (a ∷ as')) hab
            (λ q. longer-ne rooted (a ∷ as') b bs (sym (split-render rooted a as' ha) ∙ q)),
        rel_base-render rooted a as' ha,
        render-is_rooted rooted (a ∷ as') (All-plain-solid (a ∷ as') ha),
        render-is_rooted rooted (a ∷ (as' ++ b ∷ bs)) (All-plain-solid (a ∷ (as' ++ b ∷ bs)) hab),
        xor_self rooted,
        rel_elements-render rooted a as' ha,
        rel_elements-render rooted a (as' ++ b ∷ bs) hab,
        with_root-append rooted (a ∷ as') (b ∷ bs),
        rel_from-append (with_root rooted (a ∷ as')) (b ∷ bs),
      )
      (unfold join_elements in refl)
