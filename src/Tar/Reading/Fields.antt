-- ===== src/Tar/Reading/Fields.antt =====
-- deb/tar/format.go: the fields of a block that are read back.
use mkdeb.Prelude.{
  ℕ, zero, suc, ◌+◌, ◌^◌, ◌≤◌, ◌<◌, true, ◌≡◌, ◌≢◌, refl, sym, ◌∙◌, ap, List, [], ◌∷◌, ◌++◌, Bytes,
  length, take, drop, ok, pos, arith,
}
use mkdeb.Tar.Strconv.{parse_string, parse_numeric}
use mkdeb.Tar.Strconv.Octal.{
  Octal, padded, padded-Octal, length-padded, parse_octal-padded, nul-IsTail,
}
use mkdeb.Tar.Block.{Field, at, slice, zero_block}
use mkdeb.Tar.Block.Fields.{
  puts, Fitting, all_apart, slice-puts_self, parse_string-puts_self, IsText, text_field,
}
use mkdeb.Tar.Writer.Plain.{octal_field, length-octal_field}
use mkdeb.Tar.Reading.{flag_of, text_of}

-- A number that was written to an octal field is read back.
parse_numeric-digits :
    (n x : ℕ) (s : Bytes)
    → padded n x ≡ s
    → Octal s
    → s ≢ []
    → x < 2 ^ 63
    → parse_numeric (s ++ 0 ∷ []) ≡ ok (pos x)
unfolding parse_numeric
parse_numeric-digits n x [] e o q k = absurd (q refl)
parse_numeric-digits n x (c ∷ s) e (h, hs) q k =
    ground (arith, parse_octal-padded n x (c ∷ s) (0 ∷ []) e k nul-IsTail q)

pub parse_numeric-octal_field :
    (k x : ℕ)
    → x < 8 ^ suc k
    → x < 2 ^ 63
    → parse_numeric (octal_field (suc (suc k)) x) ≡ ok (pos x)
parse_numeric-octal_field k x h b =
    parse_numeric-digits (suc (suc k)) x (padded (suc (suc k)) x) refl
      (padded-Octal (suc (suc k)) x) (λ e. omega (arith, length-padded k x h, ap length e)) b

Fitting-take : (k : ℕ) (ws : List (Field × Bytes)) → Fitting ws → Fitting (take k ws)
Fitting-take zero ws h = tt
Fitting-take (suc k) [] h = tt
Fitting-take (suc k) (w ∷ ws) (h, hs) = (h, Fitting-take k ws hs)

-- The fields `ws` were written, each of them fits, and the one at index `k` is apart from those
-- written after it.
module _ (ws : List (Field × Bytes)) (fits : Fitting ws) (k : ℕ) where
  slice-at :
      (f : Field) (s : Bytes)
      → ws ≡ take k ws ++ (f, s) ∷ drop (suc k) ws
      → all_apart f (take k ws) ≡ true
      → length s ≡ f.size
      → f.offset + f.size ≤ 512
      → slice f (puts ws zero_block) ≡ s
  slice-at f s e a l b =
      ap (λ (x : List (Field × Bytes)). slice f (puts x zero_block)) e
      ∙ slice-puts_self f s (take k ws) (drop (suc k) ws) zero_block (Fitting-take k ws fits) a l b

  pub text_at :
      (f : Field) (s : Bytes)
      → ws ≡ take k ws ++ (f, text_field f.size s) ∷ drop (suc k) ws
      → all_apart f (take k ws) ≡ true
      → IsText f.size s
      → f.offset + f.size ≤ 512
      → text_of f (puts ws zero_block) ≡ s
  text_at f s e a h b =
      ap (λ (x : List (Field × Bytes)). parse_string (slice f (puts x zero_block))) e
      ∙ parse_string-puts_self f s (take k ws) (drop (suc k) ws) zero_block (Fitting-take k ws fits)
          a h b

  pub number_at :
      (o n x : ℕ)
      → ws ≡ take k ws ++ (at o (suc (suc n)), octal_field (suc (suc n)) x) ∷ drop (suc k) ws
      → all_apart (at o (suc (suc n))) (take k ws) ≡ true
      → x < 8 ^ suc n
      → x < 2 ^ 63
      → o + suc (suc n) ≤ 512
      → parse_numeric (slice (at o (suc (suc n))) (puts ws zero_block)) ≡ ok (pos x)
  number_at o n x e a h c b =
      ap parse_numeric (
        slice-at (at o (suc (suc n))) (octal_field (suc (suc n)) x) e a (length-octal_field n x h)
          b)
      ∙ parse_numeric-octal_field n x h c

  pub flag_at :
      (f : Field) (c : ℕ)
      → ws ≡ take k ws ++ (f, c ∷ []) ∷ drop (suc k) ws
      → all_apart f (take k ws) ≡ true
      → f.size ≡ 1
      → f.offset + f.size ≤ 512
      → flag_of (slice f (puts ws zero_block)) ≡ c
  flag_at f c e a l b = ap flag_of (slice-at f (c ∷ []) e a (sym l) b)
