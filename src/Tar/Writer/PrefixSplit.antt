-- ===== src/Tar/Writer/PrefixSplit.antt =====
-- deb/tar/writer.go: what `splitUSTARPath` finds, and when there is nothing to find.
use mathlib.Core.Path.{subst}
use mkdeb.Prelude.{
  ℕ, suc, ◌+◌, ◌-◌, ◌≤◌, ◌<◌, Bool, true, false, not, ◌||◌, ◌==◌, ◌≡◌, ◌≢◌, refl, sym, ◌∙◌, ap, ◌∷◌,
  ◌++◌, Option, none, some, Bytes, take, drop, length, length-append, length-take, length-drop, ltb,
  leb, Bool-cases, inl, inr, arith,
}
use mkdeb.Tar.Strconv.{is_ascii}
use mkdeb.Tar.Writer.Prefix.{last_index, searched, split_there, split_ustar_path}
use mkdeb.Tar.Writer.PrefixSearch.{
  last_index-IsFound, last_index_max, searched-IsFound, searched-lt,
}

-- A prefix and a suffix that the fields of a USTAR header hold, with a slash between them.
abbrev pub IsSplit : Bytes → Bytes → Bytes → Type 0
IsSplit name prefix suffix =
    (name ≡ prefix ++ b'/' ∷ suffix)
    × (1 ≤ length prefix)
    × (length prefix ≤ 155)
    × (1 ≤ length suffix)
    × (length suffix ≤ 100)

some_pair : {a b : Bytes × Bytes} → some a ≡ some b → a ≡ b
some_pair h = cc

-- The tests on the place of the slash.
abbrev misplaced : Bytes → ℕ → Bool
misplaced name i = i == 0 || ltb 100 (length name - i - 1) || length name - i - 1 == 0 || ltb 155 i

misplaced_false :
    (i n : ℕ)
    → (i == 0 || ltb 100 n || n == 0 || ltb 155 i) ≡ false
    → (1 ≤ i) × (n ≤ 100) × (1 ≤ n) × (i ≤ 155)
misplaced_false i n h = ground arith

misplaced_lem :
    (i n : ℕ)
    → 1 ≤ i
    → n ≤ 100
    → 1 ≤ n
    → i ≤ 155
    → (i == 0 || ltb 100 n || n == 0 || ltb 155 i) ≡ false
misplaced_lem i n a b c d = ground arith

-- What is split is long and ASCII.
abbrev pub IsLong : Bytes → Type 0
IsLong name = (100 < length name) × (is_ascii name ≡ true)

long_lem :
    (n : ℕ) (ascii : Bool)
    → ((leb n 100 || not ascii) ≡ false → (100 < n) × (ascii ≡ true))
      × ((100 < n) × (ascii ≡ true) → (leb n 100 || not ascii) ≡ false)
long_lem n true = (λ h. (ground arith, refl), λ (a, b). ground arith)
long_lem n false = (λ h. (ground arith, ground arith), λ (a, b). cc)

module _ (name : Bytes) where
  split_there-IsSplit :
      (prefix suffix : Bytes) (o : Option ℕ)
      → last_index b'/' (take (searched name) name) ≡ o
      → split_there name o ≡ some (prefix, suffix)
      → IsSplit name prefix suffix
  split_there-IsSplit prefix suffix none e h = cc
  split_there-IsSplit prefix suffix (some i) e h =
      let (q, l, t) = last_index-IsFound b'/' (searched name) name i e in
      elim (Bool-cases (misplaced name i)) [
        | inl a ↦ cc (rw a at h)
        | inr a ↦
            let (a1, a2, a3, a4) = misplaced_false i (length name - i - 1) a in
            let plus : suc i ≡ i + 1 = omega arith in
            let same : (take i name, drop (i + 1) name) ≡ (prefix, suffix) =
              some_pair (rw a at h) in
            subst (λ (x : Bytes × Bytes). IsSplit name x.0 x.1) same
              (
                q ∙ ap (λ (k : ℕ). take i name ++ b'/' ∷ drop k name) plus,
                omega (arith, length-take i name, t, a1),
                omega (arith, length-take i name, t, a4),
                omega (arith, length-drop (i + 1) name, a3),
                omega (arith, length-drop (i + 1) name, a2),
              )
      ]

  split_there_whole :
      (prefix suffix : Bytes)
      → IsSplit name prefix suffix
      → split_there name (last_index b'/' (take (searched name) name)) ≢ none
  split_there_whole prefix suffix (q, p1, p2, s1, s2) h =
      let n = length-append prefix (b'/' ∷ suffix) in
      let k : length name ≡ length prefix + suc (length suffix) = ap length q ∙ n in
      let m = searched name in
      let (i, e, l) =
        last_index_max b'/' m prefix suffix
          (searched-lt name (length prefix) p2 (omega (arith, k, s1))) in
      let e' : last_index b'/' (take m name) ≡ some i =
        ap (λ (x : Bytes). last_index b'/' (take m x)) q ∙ e in
      let (a, b) = searched-IsFound name i (last_index-IsFound b'/' m name i e') in
      let here : misplaced name i ≡ false =
        misplaced_lem i (length name - i - 1) (omega (arith, l, p1)) (omega (arith, l, k, s2))
          (omega (arith, b)) a in
      let two : Bytes × Bytes = (take i name, drop (i + 1) name) in
      let found : split_there name (some i) ≡ some two = rw here refl in
      some_none (sym found ∙ ap (split_there name) (sym e') ∙ h)
    where
      some_none : {x : Bytes × Bytes} → some x ≢ none
      some_none h = cc

  -- `splitUSTARPath` finds a prefix and a suffix only of an ASCII name of more than 100 bytes, with
  -- a slash between them and of the sizes of their fields: 1 to 155 and 1 to 100. When it finds none in
  -- such a name, there are none.
  pub split_ustar_path-IsSplit :
      ((prefix suffix : Bytes)
        → split_ustar_path name ≡ some (prefix, suffix)
        → IsLong name × IsSplit name prefix suffix)
      × (split_ustar_path name ≡ none
          → IsLong name
          → (prefix suffix : Bytes) → ¬ IsSplit name prefix suffix)
  unfolding split_ustar_path
  split_ustar_path-IsSplit = (
    λ prefix suffix h. elim (Bool-cases (leb (length name) 100 || not (is_ascii name))) [
      | inl a ↦ cc (rw a at h)
      | inr a ↦ (
        (long_lem (length name) (is_ascii name)).0 a,
        split_there-IsSplit prefix suffix (last_index b'/' (take (searched name) name)) refl
            (rw a at h),
      )
    ],
    λ h v prefix suffix x.
        split_there_whole prefix suffix x (rw ((long_lem (length name) (is_ascii name)).1 v) at h),
  )
