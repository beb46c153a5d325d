-- ===== src/Tar/Strconv/Octal.antt =====
-- deb/tar/strconv.go: `formatOctal` and `parseOctal`.
use mathlib.Core.Path.{subst}
use mkdeb.Prelude.{
  ℕ, zero, suc, ◌+◌, ◌-◌, ◌*◌, ◌^◌, ◌≤◌, ◌<◌, ◌≡◌, ◌≢◌, refl, sym, ap, ◌∙◌, [], ◌∷◌, ◌++◌, Bytes,
  arith, All, All-append, length, length-append, length-replicate, replicate, lt→ltb, ok, pos,
  IsDigit, value_onto, format_uint, value-format_uint, format_uint-IsDigit, length-format_uint,
}
use mkdeb.Tar.Strconv.{
  to_ascii, parse_string, format_string, format_octal, trim_left, trim_right, parse_uint8_from,
  parse_uint8, parse_octal,
}

abbrev pub Octal : Bytes → Type 0
Octal = All (IsDigit 8)

to_ascii-Octal : (s : Bytes) → Octal s → to_ascii s ≡ s
unfolding to_ascii
to_ascii-Octal [] h = refl
to_ascii-Octal (c ∷ s) (h, hs) = ground (arith, to_ascii-Octal s hs)

parse_string-Octal : (s : Bytes) → Octal s → parse_string s ≡ s
unfolding parse_string
parse_string-Octal [] h = refl
parse_string-Octal (c ∷ s) (h, hs) = ground (arith, parse_string-Octal s hs)

trim_left-octal : (c : ℕ) (s : Bytes) → IsDigit 8 c → trim_left (c ∷ s) ≡ c ∷ s
unfolding trim_left
trim_left-octal c s h = ground arith

-- What stands behind the digits of a field and is trimmed.
abbrev pub IsTail : Bytes → Type 0
IsTail tail = trim_right tail ≡ []

trim_right-Octal : (s tail : Bytes) → Octal s → IsTail tail → trim_right (s ++ tail) ≡ s
unfolding trim_right
trim_right-Octal [] tail h e = e
trim_right-Octal (c ∷ []) tail (h, hs) e = rw e (ground arith)
trim_right-Octal (c ∷ d ∷ s) tail (h, hs) e = rw (trim_right-Octal (d ∷ s) tail hs e)

pub nul-IsTail : IsTail (0 ∷ [])
unfolding trim_right
nul-IsTail = refl

pub nul_space-IsTail : IsTail (0 ∷ 32 ∷ [])
unfolding trim_right
nul_space-IsTail = refl

le-value_onto : (n : ℕ) (s : Bytes) → n ≤ value_onto 8 n s
le-value_onto n [] = omega arith
le-value_onto n (c ∷ s) = omega (arith, le-value_onto (n * 8 + (c - b'0')) s)

parse_uint8_from-Octal :
    (n : ℕ) (s : Bytes)
    → Octal s
    → value_onto 8 n s < 2 ^ 64
    → parse_uint8_from n s ≡ ok (value_onto 8 n s)
unfolding parse_uint8_from
parse_uint8_from-Octal n [] h k = refl
parse_uint8_from-Octal n (c ∷ s) (h, hs) k =
    let m = n * 8 + (c - b'0') in ground (arith, parse_uint8_from-Octal m s hs k, le-value_onto m s)

parse_octal-Octal :
    (c : ℕ) (s tail : Bytes)
    → Octal (c ∷ s)
    → IsTail tail
    → value_onto 8 0 (c ∷ s) < 2 ^ 63
    → parse_octal (c ∷ (s ++ tail)) ≡ ok (pos (value_onto 8 0 (c ∷ s)))
unfolding parse_octal
parse_octal-Octal c s tail h e k =
    rw
      (
        trim_left-octal c (s ++ tail) h.0,
        trim_right-Octal (c ∷ s) tail h e,
        parse_string-Octal (c ∷ s) h,
      )
      (unfold parse_uint8 in
        rw (parse_uint8_from-Octal 0 (c ∷ s) h (omega arith)) (rw (lt→ltb _ (2 ^ 63) k)))

zeros-Octal : (k : ℕ) → Octal (replicate k b'0')
zeros-Octal zero = tt
zeros-Octal (suc k) = (omega arith, zeros-Octal k)

value-zeros : (k : ℕ) (s : Bytes) → value_onto 8 0 (replicate k b'0' ++ s) ≡ value_onto 8 0 s
value-zeros zero s = refl
value-zeros (suc k) s = value-zeros k s

-- Digits that leave room for one byte are written with a NUL behind them.
format_string-Octal :
    (n : ℕ) (s : Bytes) → Octal s → length s + 1 ≡ n → format_string n s ≡ ok (s ++ 0 ∷ [])
unfolding format_string
format_string-Octal n s h e = rw (to_ascii-Octal s h) (ground arith)

pub padded : ℕ → ℕ → Bytes
padded n x = replicate (n - length (format_uint 8 x) - 1) b'0' ++ format_uint 8 x

pub padded-Octal : (n x : ℕ) → Octal (padded n x)
unfolding padded
padded-Octal n x =
    All-append _ (replicate _ b'0') _ (zeros-Octal _) (format_uint-IsDigit 8 (omega arith) x)

pub length-padded : (k x : ℕ) → x < 8 ^ suc k → length (padded (suc (suc k)) x) ≡ suc k
unfolding padded
length-padded k x h = omega (
  arith,
  length-append (replicate (suc (suc k) - length (format_uint 8 x) - 1) b'0') (format_uint 8 x),
  length-replicate {A = ℕ} (suc (suc k) - length (format_uint 8 x) - 1) b'0',
  length-format_uint 8 (omega arith) k x h,
)

pub format_octal-padded :
    (k x : ℕ)
    → x < 8 ^ suc k
    → format_octal (suc (suc k)) (pos x) ≡ ok (padded (suc (suc k)) x ++ 0 ∷ [])
unfolding format_octal padded
format_octal-padded k x h =
    format_string-Octal (suc (suc k)) (padded (suc (suc k)) x) (padded-Octal (suc (suc k)) x)
      (omega (arith, length-padded k x h))

value-padded : (n x : ℕ) → value_onto 8 0 (padded n x) ≡ x
unfolding padded
value-padded n x =
    value-zeros (n - length (format_uint 8 x) - 1) (format_uint 8 x)
    ∙ value-format_uint 8 (omega arith) x

pub parse_octal-padded :
    (n x : ℕ) (s tail : Bytes)
    → padded n x ≡ s
    → x < 2 ^ 63
    → IsTail tail
    → s ≢ []
    → parse_octal (s ++ tail) ≡ ok (pos x)
parse_octal-padded n x [] tail e k r q = absurd (q refl)
parse_octal-padded n x (c ∷ s) tail e k r q =
    let v : value_onto 8 0 (c ∷ s) ≡ x =
      ap (λ (l : Bytes). value_onto 8 0 l) (sym e) ∙ value-padded n x in
    parse_octal-Octal c s tail (subst Octal e (padded-Octal n x)) r (omega arith)
    ∙ ap (λ (m : ℕ). ok (pos m)) v

-- A number below 8 ^ (n - 1) and 2 ^ 63 fills an octal field of `n` bytes, at least two, with `n - 1`
-- octal digits and a NUL behind them, and is read back as it was.
pub parse_octal-format_octal :
    (k x : ℕ)
    → x < 8 ^ suc k
    → x < 2 ^ 63
    → (digits : Bytes) × All (IsDigit 8) digits
      × (length digits ≡ suc k)
      × (format_octal (suc (suc k)) (pos x) ≡ ok (digits ++ 0 ∷ []))
      × (parse_octal (digits ++ 0 ∷ []) ≡ ok (pos x))
parse_octal-format_octal k x h b =
    let l = length-padded k x h in
    (
      padded (suc (suc k)) x,
      padded-Octal (suc (suc k)) x,
      l,
      format_octal-padded k x h,
      parse_octal-padded (suc (suc k)) x _ (0 ∷ []) refl b nul-IsTail
          (λ e. omega (arith, l, ap length e)),
    )
