-- ===== src/Tar/Writer/Prefix.antt =====
-- deb/tar/writer.go: `splitUSTARPath`.
use mkdeb.Prelude.{
  ℕ, suc, ◌+◌, ◌-◌, Bool, true, false, not, ◌||◌, ◌==◌, [], ◌∷◌, Option, none, some, Bytes, codes,
  bytes_eq, take, drop, length, ltb, leb, if◌then◌else◌,
}
use mkdeb.Tar.Strconv.{is_ascii}

-- The sizes of the fields for the suffix and for the prefix.
abbrev pub name_size : ℕ
name_size = 100

abbrev pub prefix_size : ℕ
prefix_size = 155

-- `strings.LastIndex` of one byte.
abbrev pub index_onto : Bool → Option ℕ → Option ℕ
index_onto found (some i) = some (suc i)
index_onto true none = some 0
index_onto false none = none

unfoldable pub last_index : ℕ → Bytes → Option ℕ
last_index c [] = none
last_index c (d ∷ s) = index_onto (d == c) (last_index c s)

-- How much of the name is searched for a slash.
abbrev pub searched : Bytes → ℕ
searched name =
    if ltb (prefix_size + 1) (length name)
    then prefix_size + 1
    else if bytes_eq (drop (length name - 1) name) (codes "/")
    then length name - 1
    else length name

abbrev pub split_there : Bytes → Option ℕ → Option (Bytes × Bytes)
split_there name none = none
split_there name (some i) =
    let nlen = length name - i - 1 in
    if i == 0 || ltb name_size nlen || nlen == 0 || ltb prefix_size i
    then none
    else some (take i name, drop (i + 1) name)

-- `splitUSTARPath`: the prefix and the suffix.
unfoldable pub split_ustar_path : Bytes → Option (Bytes × Bytes)
unfolding last_index
split_ustar_path name =
    if leb (length name) name_size || not (is_ascii name)
    then none
    else split_there name (last_index b'/' (take (searched name) name))
