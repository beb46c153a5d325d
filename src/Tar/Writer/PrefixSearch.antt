-- ===== src/Tar/Writer/PrefixSearch.antt =====
-- deb/tar/writer.go: the slash that `splitUSTARPath` looks for.
use mathlib.Core.Path.{subst}
use mkdeb.Prelude.{
  ℕ, zero, suc, ◌-◌, ◌≤◌, ◌<◌, Bool, true, false, ◌==◌, ==_iff, ◌≡◌, ◌≢◌, refl, ◌∙◌, ap, [], ◌∷◌,
  ◌++◌, Option, none, some, Bytes, codes, bytes_eq, take, drop, length, length-take, length-drop,
  drop-append, bytes_eq_iff, ltb→lt, ltb, Bool-cases, inl, inr, arith,
}
use mkdeb.Tar.Writer.Prefix.{index_onto, last_index, searched}

-- What is found at index `i` is the byte `c` of the text, within its first `m` bytes.
abbrev pub IsFound : ℕ → ℕ → Bytes → ℕ → Type 0
IsFound c m s i = (s ≡ take i s ++ c ∷ drop (suc i) s) × (i < m) × (i < length s)

some_inj : {i j : ℕ} → some i ≡ some j → i ≡ j
some_inj h = cc

pub last_index-IsFound :
    (c m : ℕ) (s : Bytes) (i : ℕ) → last_index c (take m s) ≡ some i → IsFound c m s i
unfolding last_index
last_index-IsFound c zero s i h = cc
last_index-IsFound c (suc m) [] i h = cc
last_index-IsFound c (suc m) (d ∷ s) i h =
    found (last_index-IsFound c m s) (d == c) (last_index c (take m s)) refl refl h
  where
    found :
        ((j : ℕ) → last_index c (take m s) ≡ some j → IsFound c m s j)
        → (b : Bool) (o : Option ℕ) → (d == c) ≡ b
        → last_index c (take m s) ≡ o
        → index_onto b o ≡ some i
        → IsFound c (suc m) (d ∷ s) i
    found ih true none f e k =
        subst (IsFound c (suc m) (d ∷ s)) (some_inj k)
          (ap (λ (x : ℕ). x ∷ s) ((==_iff d c).0 f), omega arith, omega arith)
    found ih false none f e k = cc
    found ih b (some j) f e k =
        let (q, l, t) = ih j e in
        subst (IsFound c (suc m) (d ∷ s)) (some_inj k)
          (ap (λ (x : Bytes). d ∷ x) q, omega (arith, l), omega (arith, t))

-- Any such byte in the part that is searched is not behind what is found.
pub last_index_max :
    (c m : ℕ) (p q : Bytes)
    → length p < m
    → (i : ℕ) × (last_index c (take m (p ++ c ∷ q)) ≡ some i) × (length p ≤ i)
unfolding last_index
last_index_max c zero p q h = absurd (omega (arith, h))
last_index_max c (suc m) [] q h = at_least (last_index c (take m q)) ((==_iff c c).1 refl)
  where
    at_least :
        (o : Option ℕ) → (c == c) ≡ true → (i : ℕ) × (index_onto (c == c) o ≡ some i) × (0 ≤ i)
    at_least none e = (0, ap (λ (b : Bool). index_onto b none) e, omega arith)
    at_least (some j) e = (suc j, ap (λ (b : Bool). index_onto b (some j)) e, omega arith)
last_index_max c (suc m) (d ∷ p) q h =
    let (i, e, l) = last_index_max c m p q (omega (arith, h)) in
    (suc i, ap (index_onto (d == c)) e, omega (arith, l))

small_lem : (n : ℕ) → ltb 156 n ≡ false → n ≤ 156
small_lem n h = ground arith

empty_lem : (b : Bytes) → length b ≡ 0 → b ≡ []
empty_lem [] h = refl
empty_lem (c ∷ b) h = absurd (omega (arith, h))

-- The bytes from the place that was found.
drop-IsFound : (c m : ℕ) (s : Bytes) (i : ℕ) → IsFound c m s i → drop i s ≡ c ∷ drop (suc i) s
drop-IsFound c m s i (q, l, t) =
    ap (drop i) q
    ∙ drop-append i (take i s) (c ∷ drop (suc i) s) (omega (arith, length-take i s, t))

-- Where a slash lies that is found: behind it there is a byte.
pub searched-IsFound :
    (name : Bytes) (i : ℕ) → IsFound b'/' (searched name) name i → (i ≤ 155) × (suc i < length name)
searched-IsFound name i f = elim (Bool-cases (ltb 156 (length name))) [
  | inl a ↦
      let (_, l, _) = f in
      let k : i < 156 = subst (λ (m : ℕ). i < m) (rw a refl) l in
      let t = ltb→lt 156 (length name) a in (omega (arith, k), omega (arith, k, t))
  | inr a ↦
      let (_, l, t) = f in
      let n = small_lem (length name) a in
      elim (Bool-cases (bytes_eq (drop (length name - 1) name) (codes "/"))) [
        | inl b ↦
            let k : i < length name - 1 = subst (λ (m : ℕ). i < m) (rw (a, b) refl) l in
            (omega (arith, k, n), omega (arith, k))
        | inr b ↦
            let k : i < length name = t in
            let last : suc i ≢ length name = λ e.
              let z : drop (suc i) name ≡ [] =
                empty_lem (drop (suc i) name) (omega (arith, length-drop (suc i) name, e)) in
              let d : drop i name ≡ codes "/" =
                drop-IsFound b'/' (searched name) name i f ∙ ap (λ (x : Bytes). b'/' ∷ x) z in
              let d' : drop (length name - 1) name ≡ codes "/" =
                ap (λ (x : ℕ). drop x name) (omega (arith, e)) ∙ d in
              cc (b, (bytes_eq_iff (drop (length name - 1) name) (codes "/")).1 d') in
            (omega (arith, k, n), omega (arith, k, last))
      ]
]

pub searched-lt : (name : Bytes) (i : ℕ) → i ≤ 155 → suc i < length name → i < searched name
searched-lt name i h k = elim (Bool-cases (ltb 156 (length name))) [
  | inl a ↦ rw a (omega (arith, h))
  | inr a ↦ elim (Bool-cases (bytes_eq (drop (length name - 1) name) (codes "/"))) [
    | inl b ↦ rw (a, b) (omega (arith, k))
    | inr b ↦ rw (a, b) (omega (arith, k))
  ]
]
