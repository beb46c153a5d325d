-- ===== src/Prelude/Decimal.antt =====
-- `strconv.FormatInt` of a number that is not negative, in a base of at most ten, and reading it
-- back.
use Prim.Native.Nat.{ℕ, zero, suc, ◌+◌, ◌-◌, ◌*◌, ◌/◌, ◌%◌, ◌≤◌, ◌<◌, ◌^◌}
use mathlib.Core.List.{[], ◌∷◌}
use mathlib.Core.Path.{◌≡◌, ◌∙◌, ap}
use mathlib.Core.Logic.{inl, inr}
use native.Mathlib.Nat.{div-add-mod, mod-lt, div-lt_iff_lt-mul, pow-suc, pow-zero}
use native.Mathlib.Omega.{arith}
use mkdeb.Prelude.Tests.{ltb, if◌then◌else◌, Bool-cases, ltb→lt, lt→ltb}
use mkdeb.Prelude.Lists.{All, length}
use mkdeb.Prelude.Text.{Bytes}

-- The digits of `n` in front of `out`; each round divides by the base, so `n` rounds are enough.
unfoldable pub digits_onto : ℕ → ℕ → ℕ → Bytes → Bytes
digits_onto base zero n out = (b'0' + n) ∷ out
digits_onto base (suc fuel) n out =
    let rest = digits_onto base fuel (n / base) ((b'0' + n % base) ∷ out) in
    if ltb n base then (b'0' + n) ∷ out else rest

unfoldable pub format_uint : ℕ → ℕ → Bytes
unfolding digits_onto
format_uint base n = digits_onto base n n []

-- The number that digits spell behind `n`.
abbrev pub value_onto : ℕ → ℕ → Bytes → ℕ
value_onto base n [] = n
value_onto base n (c ∷ s) = value_onto base (n * base + (c - b'0')) s

-- A digit of the base.
abbrev pub IsDigit : ℕ → ℕ → Type 0
IsDigit base c = (b'0' ≤ c) × (c < b'0' + base)

pub pow_one : (b : ℕ) → b ^ 1 ≡ b
pow_one b = pow-suc b 0 ∙ rw pow-zero (omega arith)

module _ (base : ℕ) (two : 2 ≤ base) where
  twice_le : (q : ℕ) → q * 2 ≤ q * base
  twice_le q = grind arith

  -- A round leaves a smaller number.
  digits_smaller : (f n : ℕ) → n ≤ suc f → n / base ≤ f
  digits_smaller f n h = omega (arith, twice_le (n / base), div-add-mod n base)

  -- Enough fuel: the loop ends by its test.
  value-digits_onto :
      (fuel n : ℕ) (out : Bytes)
      → n ≤ fuel
      → value_onto base 0 (digits_onto base fuel n out) ≡ value_onto base n out
  unfolding digits_onto
  value-digits_onto zero n out h = ap (λ (k : ℕ). value_onto base k out) (omega arith)
  value-digits_onto (suc fuel) n out h = elim (Bool-cases (ltb n base)) [
    | inl k ↦ rw k (ap (λ (k : ℕ). value_onto base k out) (omega arith))
    | inr k ↦ rw k (
        value-digits_onto fuel (n / base) ((b'0' + n % base) ∷ out) (digits_smaller fuel n h)
        ∙ ap (λ (k : ℕ). value_onto base k out) (omega (arith, div-add-mod n base)))
  ]

  digits_onto-IsDigit :
      (fuel n : ℕ) (out : Bytes)
      → n ≤ fuel
      → All (IsDigit base) out
      → All (IsDigit base) (digits_onto base fuel n out)
  unfolding digits_onto
  digits_onto-IsDigit zero n out h ho = (omega arith, ho)
  digits_onto-IsDigit (suc fuel) n out h ho = elim (Bool-cases (ltb n base)) [
    | inl k ↦ rw k ((omega arith, omega (arith, ltb→lt n base k)), ho)
    | inr k ↦ rw k (
        digits_onto-IsDigit fuel (n / base) ((b'0' + n % base) ∷ out) (digits_smaller fuel n h)
          ((omega arith, omega (arith, mod-lt n {m = base} (omega arith))), ho))
  ]

  -- The digits of a number spell it.
  pub value-format_uint : (n : ℕ) → value_onto base 0 (format_uint base n) ≡ n
  unfolding format_uint
  value-format_uint n = value-digits_onto n n [] (omega arith)

  pub format_uint-IsDigit : (n : ℕ) → All (IsDigit base) (format_uint base n)
  unfolding format_uint
  format_uint-IsDigit n = digits_onto-IsDigit n n [] (omega arith) tt

  below : (k n : ℕ) → n < base ^ suc (suc k) → n / base < base ^ suc k
  below k n h = (div-lt_iff_lt-mul {k = base} (omega arith)).1 (omega (arith, pow-suc base (suc k)))

  -- A number below a power of the base has at most so many digits.
  length-digits_onto :
      (k fuel n : ℕ) (out : Bytes)
      → n < base ^ suc k
      → length (digits_onto base fuel n out) ≤ suc k + length out
  unfolding digits_onto
  length-digits_onto k zero n out h = omega arith
  length-digits_onto zero (suc fuel) n out h =
      rw (lt→ltb n base (omega (arith, pow_one base))) (omega arith)
  length-digits_onto (suc k) (suc fuel) n out h = elim (Bool-cases (ltb n base)) [
    | inl t ↦ rw t (omega arith)
    | inr t ↦ rw t (
        omega (arith, length-digits_onto k fuel (n / base) ((b'0' + n % base) ∷ out) (below k n h)))
  ]

  pub length-format_uint : (k n : ℕ) → n < base ^ suc k → length (format_uint base n) ≤ suc k
  unfolding format_uint
  length-format_uint k n h = omega (arith, length-digits_onto k n n [] h)
