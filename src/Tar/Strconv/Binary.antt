-- ===== src/Tar/Strconv/Binary.antt =====
-- deb/tar/strconv.go: `formatNumeric` and `parseNumeric` in base 256.
use mkdeb.Prelude.{
  ℕ, zero, suc, ◌+◌, ◌-◌, ◌*◌, ◌/◌, ◌%◌, ◌^◌, ◌<◌, ◌≡◌, refl, ap, ◌∙◌, Bool, true, false, [], ◌∷◌,
  Bytes, arith, ltb, leb, lt→ltb, ltb→lt, leb→le, Bool-cases, inl, inr, ◌||◌, if◌then◌else◌, ok,
  ◌>>=◌, ℤ, pos, negsuc, IsInt64,
}
use native.Mathlib.Nat.{pow-suc, pow-le-pow_right}
use native.Mathlib.Numerals.{towards_suc}
use mkdeb.Tar.Strconv.{fits_in_base256, base256_onto, format_numeric, binary_from, parse_numeric}

-- The magnitude: the number itself, or the number that its bytes spell inverted.
abbrev magnitude : ℤ → ℕ
magnitude (pos n) = n
magnitude (negsuc n) = n

abbrev is_negative : ℤ → Bool
is_negative (pos n) = false
is_negative (negsuc n) = true

shift_bound : (n m : ℕ) → m < 256 ^ suc n → m / 256 < 256 ^ n
shift_bound n m h = omega (arith, pow-suc 256 n)

-- The bytes of the field, the first one apart.
base256_head :
    (n : ℕ) (x : ℤ) (out : Bytes)
    → magnitude x < 256 ^ n
    → base256_onto (suc n) x out ≡ (if is_negative x then 255 else 0) ∷ base256_onto n x out
unfolding base256_onto
base256_head zero (pos m) out h = ap (λ (k : ℕ). k ∷ out) (omega arith)
base256_head zero (negsuc m) out h = ap (λ (k : ℕ). k ∷ out) (omega arith)
base256_head (suc n) (pos m) out h =
    base256_head n (pos (m / 256)) ((m % 256) ∷ out) (shift_bound n m h)
base256_head (suc n) (negsuc m) out h =
    base256_head n (negsuc (m / 256)) ((255 - m % 256) ∷ out) (shift_bound n m h)

-- One byte more.
byte_step :
    (inv : Bool) (acc b m : ℕ) (out : Bytes)
    → (if inv then 255 - b else b) ≡ m % 256
    → acc * 256 + m % 256 < 2 ^ 63
    → binary_from inv acc (b ∷ out) ≡ binary_from inv (acc * 256 + m % 256) out
unfolding binary_from
byte_step inv acc b m out e h = rw (e, lt→ltb acc (2 ^ 56) (omega arith))

regroup_bytes : (acc n m : ℕ) → (acc * 256 ^ n + m / 256) * 256 + m % 256 ≡ acc * 256 ^ suc n + m
regroup_bytes acc n m = omega (arith, ap (λ (k : ℕ). acc * k) (pow-suc 256 n))

-- Reading the bytes of a number behind `acc`.
binary_from-base256_onto :
    (n : ℕ) (x : ℤ) (acc : ℕ) (out : Bytes)
    → magnitude x < 256 ^ n
    → acc * 256 ^ n + magnitude x < 2 ^ 63
    → binary_from (is_negative x) acc (base256_onto n x out)
      ≡ binary_from (is_negative x) (acc * 256 ^ n + magnitude x) out
unfolding base256_onto
binary_from-base256_onto zero x acc out h k =
    ap (λ (a : ℕ). binary_from (is_negative x) a out) (omega arith)
binary_from-base256_onto (suc n) (pos m) acc out h k =
    binary_from-base256_onto n (pos (m / 256)) acc ((m % 256) ∷ out) (shift_bound n m h)
      (omega (arith, regroup_bytes acc n m))
    ∙ byte_step false _ (m % 256) m out refl (omega (arith, regroup_bytes acc n m))
    ∙ ap (λ (a : ℕ). binary_from false a out) (regroup_bytes acc n m)
binary_from-base256_onto (suc n) (negsuc m) acc out h k =
    binary_from-base256_onto n (negsuc (m / 256)) acc ((255 - m % 256) ∷ out) (shift_bound n m h)
      (omega (arith, regroup_bytes acc n m))
    ∙ byte_step true _ (255 - m % 256) m out (omega arith) (omega (arith, regroup_bytes acc n m))
    ∙ ap (λ (a : ℕ). binary_from true a out) (regroup_bytes acc n m)

binary_end : (inv : Bool) (x : ℕ) → x < 2 ^ 63 → binary_from inv x [] ≡ ok x
unfolding binary_from
binary_end inv x h = rw (lt→ltb x (2 ^ 63) h)

pow_bytes : (n : ℕ) → 2 ^ (n * 8) ≡ 256 ^ n
pow_bytes zero = refl
pow_bytes (suc n) =
    ap (λ (k : ℕ). 2 ^ k) (omega arith)
    ∙ pow_eight (n * 8)
    ∙ omega (arith, pow_bytes n, pow-suc 256 n)
  where
    pow_eight : (k : ℕ) → 2 ^ (k + 8) ≡ 256 * 2 ^ k
    pow_eight k = simp towards_suc (omega arith)

fits_below :
    (n m : ℕ) → m < 2 ^ 63 → (leb 9 (suc n) || ltb m (2 ^ ((suc n - 1) * 8))) ≡ true → m < 256 ^ n
fits_below n m h e = elim (Bool-cases (leb 9 (suc n))) [
  | inl k ↦ omega (
    arith,
    leb→le 9 (suc n) k,
    pow-le-pow_right {n = 256} (omega arith) {i = 8} {j = n} (omega (arith, leb→le 9 (suc n) k)),
  )
  | inr k ↦
      let l : ltb m (2 ^ ((suc n - 1) * 8)) ≡ true = ground arith in
      let q : (suc n - 1) * 8 ≡ n * 8 = omega arith in
      omega (arith, ltb→lt m _ l, ap (λ (j : ℕ). 2 ^ j) q, pow_bytes n)
]

fits_magnitude :
    (n : ℕ) (x : ℤ) → IsInt64 x → fits_in_base256 (suc n) x ≡ true → magnitude x < 256 ^ n
unfolding fits_in_base256
fits_magnitude n (pos m) h e = fits_below n m h e
fits_magnitude n (negsuc m) h e = fits_below n m h e

-- A number that the formatter takes in base 256 is read back as it was, negative or not, from a field
-- of any length above one byte.
pub parse_numeric-format_numeric :
    (n : ℕ) (x : ℤ)
    → 0 < n
    → IsInt64 x
    → fits_in_base256 n x ≡ true
    → (format_numeric n x >>= parse_numeric) ≡ ok x
unfolding format_numeric parse_numeric
parse_numeric-format_numeric zero x p h e = absurd (omega arith)
parse_numeric-format_numeric (suc n) (pos m) p h e =
    let b = fits_magnitude n (pos m) h e in
    rw
      (
        e,
        base256_head n (pos m) [] b,
        binary_from-base256_onto n (pos m) 0 [] b (omega arith),
        binary_end false (0 * 256 ^ n + m) (omega arith),
      )
      (ap (λ (k : ℕ). ok (pos k)) (omega arith))
parse_numeric-format_numeric (suc n) (negsuc m) p h e =
    let b = fits_magnitude n (negsuc m) h e in
    rw
      (
        e,
        base256_head n (negsuc m) [] b,
        binary_from-base256_onto n (negsuc m) 0 [] b (omega arith),
        binary_end true (0 * 256 ^ n + m) (omega arith),
      )
      (ap (λ (k : ℕ). ok (negsuc k)) (omega arith))
