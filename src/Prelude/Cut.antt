-- ===== src/Prelude/Cut.antt =====
-- `strings.Split` at a separator of one byte, and the lines of a text.
use mathlib.Core.List.{List, [], ◌∷◌, ◌++◌, append-nil}
use mathlib.Core.Path.{◌≡◌, refl, ◌∙◌, ap}
use mathlib.Core.Logic.{inl, inr}
use mathlib.Core.Bool.{false}
use Prim.Native.Nat.{ℕ}
use native.Mathlib.Omega.{arith}
use mkdeb.Prelude.Tests.{◌==◌, if◌then◌else◌, Bool-cases}
use mkdeb.Prelude.Lists.{All}
use mkdeb.Prelude.Text.{Bytes, has_byte, join}

-- The byte goes in front of the first part.
abbrev pub onto_first : ℕ → List Bytes → List Bytes
onto_first c [] = (c ∷ []) ∷ []
onto_first c (p ∷ ps) = (c ∷ p) ∷ ps

-- The parts between the separators; one at least.
unfoldable pub cut : ℕ → Bytes → List Bytes
cut sep [] = [] ∷ []
cut sep (c ∷ s) = let rest = cut sep s in if c == sep then [] ∷ rest else onto_first c rest

abbrev pub Lacks : ℕ → Bytes → Type 0
Lacks sep e = has_byte sep e ≡ false

-- A part with no separator in front of a text joins the first part of the text.
abbrev onto : Bytes → List Bytes → List Bytes
onto [] ps = ps
onto (c ∷ w) ps = onto_first c (onto w ps)

onto_cons : (w p : Bytes) (ps : List Bytes) → onto w (p ∷ ps) ≡ (w ++ p) ∷ ps
onto_cons [] p ps = refl
onto_cons (c ∷ w) p ps = rw (onto_cons w p ps)

module _ (sep : ℕ) where
  onto_first-Lacks :
      (c : ℕ) (ps : List Bytes)
      → (c == sep) ≡ false
      → All (Lacks sep) ps
      → All (Lacks sep) (onto_first c ps)
  onto_first-Lacks c [] h k = ground arith
  onto_first-Lacks c (p ∷ ps) h k = ground arith

  -- No part holds the separator.
  pub cut-Lacks : (s : Bytes) → All (Lacks sep) (cut sep s)
  unfolding cut
  cut-Lacks [] = (refl, tt)
  cut-Lacks (c ∷ s) = elim (Bool-cases (c == sep)) [
    | inl e ↦ rw e (refl, cut-Lacks s)
    | inr e ↦ rw e (onto_first-Lacks c (cut sep s) e (cut-Lacks s))
  ]

  cut-append : (w s : Bytes) → Lacks sep w → cut sep (w ++ s) ≡ onto w (cut sep s)
  unfolding cut
  cut-append [] s h = refl
  cut-append (c ∷ w) s h = ground (arith, cut-append w s)

  pub cut-sep : (s : Bytes) → cut sep (sep ∷ s) ≡ [] ∷ cut sep s
  unfolding cut
  cut-sep s = ground arith

  -- Parts with no separator, at least one, are what their join is cut into.
  pub cut-join :
      (w : Bytes) (ws : List Bytes)
      → All (Lacks sep) (w ∷ ws)
      → cut sep (join (w ∷ ws) (sep ∷ [])) ≡ w ∷ ws
  cut-join w [] (h, hs) = cut-append w [] h ∙ unfold cut in onto_cons w [] [] ∙ rw append-nil
  cut-join w (v ∷ ws) (h, hs) =
      cut-append w _ h ∙ rw (cut-sep, cut-join v ws hs) (onto_cons w [] (v ∷ ws) ∙ rw append-nil)

-- Each line with a newline behind it.
abbrev pub unlines : List Bytes → Bytes
unlines [] = []
unlines (l ∷ ls) = l ++ b'\n' ∷ unlines ls

abbrev all_but_last : List Bytes → List Bytes
all_but_last [] = []
all_but_last (l ∷ []) = []
all_but_last (l ∷ m ∷ ls) = l ∷ all_but_last (m ∷ ls)

-- The lines of a text that ends with a newline.
unfoldable pub text_lines : Bytes → List Bytes
unfolding cut
text_lines s = all_but_last (cut b'\n' s)

cut-unlines : (ls : List Bytes) → All (Lacks b'\n') ls → cut b'\n' (unlines ls) ≡ ls ++ [] ∷ []
cut-unlines [] h = unfold cut in refl
cut-unlines (l ∷ ls) (h, hs) =
    cut-append b'\n' l _ h
    ∙ rw (cut-sep, cut-unlines ls hs) (onto_cons l [] (ls ++ [] ∷ []) ∙ rw append-nil)

all_but_last-concat : (ls : List Bytes) → all_but_last (ls ++ [] ∷ []) ≡ ls
all_but_last-concat [] = refl
all_but_last-concat (l ∷ []) = refl
all_but_last-concat (l ∷ m ∷ ls) = ap (λ (x : List Bytes). l ∷ x) (all_but_last-concat (m ∷ ls))

pub text_lines-unlines : (ls : List Bytes) → All (Lacks b'\n') ls → text_lines (unlines ls) ≡ ls
unfolding text_lines
text_lines-unlines ls h = rw (cut-unlines ls h) (all_but_last-concat ls)
