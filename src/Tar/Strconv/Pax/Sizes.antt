-- ===== src/Tar/Strconv/Pax/Sizes.antt =====
-- deb/tar/strconv.go: the size in front of a PAX record counts its own digits.
use mkdeb.Prelude.{
  ℕ, zero, suc, ◌+◌, ◌-◌, ◌*◌, ◌^◌, ◌≤◌, ◌<◌, false, ◌≡◌, ◌≢◌, ◌⊎◌, refl, ◌∙◌, ap, [], ◌∷◌, ◌++◌,
  Bytes, All, length, length-append, ◌==◌, ==_iff, Bool-cases, inl, inr, arith, format_uint,
  value_onto, IsDigit, value-format_uint, format_uint-IsDigit, length-format_uint,
}
use native.Mathlib.Nat.{pow-suc, pow-zero}
use mkdeb.Tar.Strconv.Pax.{record_of, bare_size, first_size, format_pax_record}

-- The number of decimal digits.
abbrev pub digits : ℕ → ℕ
digits n = length (format_uint 10 n)

value-lt :
    (n k : ℕ) (s : Bytes) → All (IsDigit 10) s → n < k → value_onto 10 n s < k * 10 ^ length s
value-lt n k [] h l = rw pow-zero (omega (arith, l))
value-lt n k (c ∷ s) ((a, b), hs) l =
    let ih = value-lt (n * 10 + (c - b'0')) (k * 10) s hs (omega (arith, a, b, l)) in
    let e : k * 10 ^ suc (length s) ≡ k * 10 * 10 ^ length s =
      rw (pow-suc 10 (length s)) (grind arith) in
    omega (arith, ih, e)

pub lt-digits : (n : ℕ) → n < 10 ^ digits n
lt-digits n = omega (
  arith,
  value-lt 0 1 (format_uint 10 n) (format_uint-IsDigit 10 (omega arith) n) (omega arith),
  value-format_uint 10 (omega arith) n,
)

lt-power : (a : ℕ) → a < 10 ^ a
lt-power zero = rw pow-zero (omega arith)
lt-power (suc a) = omega (arith, lt-power a, pow-suc 10 a)

pub digits-le : (n k : ℕ) → n < 10 ^ suc k → digits n ≤ suc k
digits-le n k h = length-format_uint 10 (omega arith) k n h

pub digits-le_one : (n : ℕ) → 1 ≤ n → 1 ≤ digits n
digits-le_one n z = some_digit (digits n) refl
  where
    some_digit : (d : ℕ) → digits n ≡ d → 1 ≤ d
    some_digit zero e =
        absurd (omega (arith, lt-digits n, ap (λ (x : ℕ). 10 ^ x) e, pow-zero 10, z))
    some_digit (suc d) e = omega arith

digits_mono : (m n : ℕ) → 1 ≤ n → m ≤ n → digits m ≤ digits n
digits_mono m n z h = under (digits n) refl
  where
    under : (d : ℕ) → digits n ≡ d → digits m ≤ d
    under zero e = absurd (omega (arith, lt-digits n, ap (λ (x : ℕ). 10 ^ x) e, pow-zero 10, z))
    under (suc d) e = digits-le m d (omega (arith, lt-digits n, ap (λ (x : ℕ). 10 ^ x) e, h))

-- The digits of a size that counts its own digits are one more at most.
size_step :
    (l : ℕ)
    → 1 ≤ l
    → (digits (l + digits l) ≡ digits l)
      ⊎ ((digits (l + digits l) ≡ digits l + 1) × (digits (l + digits l + 1) ≡ digits l + 1))
size_step l z =
    let a = digits l in
    let p : 10 ^ suc a ≡ 10 ^ a * 10 = pow-suc 10 a in
    let u : digits (l + a) ≤ suc a =
      digits-le (l + a) a (omega (arith, lt-digits l, lt-power a, p)) in
    let v : digits (l + a + 1) ≤ suc a =
      digits-le (l + a + 1) a (omega (arith, lt-digits l, lt-power a, p)) in
    let m = digits_mono l (l + a) (omega (arith, z)) (omega arith) in
    let m' = digits_mono (l + a) (l + a + 1) (omega arith) (omega arith) in
    elim (Bool-cases (digits (l + a) == a)) [
      | inl e ↦ inl ((==_iff (digits (l + a)) a).0 e)
      | inr e ↦
          let q : digits (l + a) ≢ a = λ x. cc (e, (==_iff (digits (l + a)) a).1 x) in
          inr (omega (arith, u, m, q), omega (arith, u, m, v, m', q))
    ]

pub length-record_of : (n : ℕ) (k v : Bytes) → length (record_of n k v) ≡ digits n + bare_size k v
length-record_of n k v = omega (
  arith,
  length-append (format_uint 10 n) (b' ' ∷ (k ++ (b'=' ∷ (v ++ (b'\n' ∷ []))))),
  length-append k (b'=' ∷ (v ++ (b'\n' ∷ []))),
  length-append v (b'\n' ∷ []),
)

next_lem : (m n : ℕ) → m ≡ n + 1 → (m == n) ≡ false
next_lem m n h = ground arith

-- A record starts with its own length.
pub format_pax_record-length :
    (k v : Bytes)
    → (n : ℕ) × (format_pax_record k v ≡ record_of n k v) × (length (record_of n k v) ≡ n)
unfolding format_pax_record
format_pax_record-length k v =
    let l = bare_size k v in
    let n = first_size k v in
    elim (size_step l (omega arith)) [
      | inl e ↦
          let q : length (record_of n k v) ≡ n = omega (arith, length-record_of n k v, e) in
          (n, rw ((==_iff (length (record_of n k v)) n).1 q) refl, q)
      | inr (e, f) ↦
          let m = length (record_of n k v) in
          let q : m ≡ n + 1 = omega (arith, length-record_of n k v, e) in
          let t : (m == n) ≡ false = next_lem m n q in
          (m, rw t refl, omega (arith, length-record_of m k v, ap digits q ∙ f, q))
    ]
