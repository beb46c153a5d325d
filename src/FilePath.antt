-- ===== src/FilePath.antt =====
-- What deb/package.go uses of Go's `path` and `path/filepath` (on Unix the two agree): `Clean`,
-- `Join`, `Base`, `Split` and `Rel`, over the elements between the slashes.
pub mod Tests
pub mod Elements
pub mod Clean
pub mod Rel
use mathlib.Core.Bool.{xor}
use mathlib.Core.List.{reverse}
use mkdeb.Prelude.{
  ℕ, Bool, true, false, ◌&&◌, ◌||◌, not, List, [], ◌∷◌, ◌++◌, Option, none, some, Bytes, codes,
  ◌==◌, has_byte, bytes_eq, join, if◌then◌else◌, cut,
}

abbrev pub slash : ℕ
slash = b'/'

abbrev pub dot : Bytes
dot = codes "."

abbrev pub dot_dot : Bytes
dot_dot = codes ".."

-- The parts between the slashes; one at least.
unfoldable pub split : Bytes → List Bytes
unfolding cut
split s = cut slash s

abbrev pub is_rooted : Bytes → Bool
is_rooted [] = false
is_rooted (c ∷ s) = c == slash

-- `..` against the elements so far, the last one first.
abbrev pub go_up : Bool → List Bytes → List Bytes
go_up rooted [] = if rooted then [] else dot_dot ∷ []
go_up rooted (top ∷ below) = if bytes_eq top dot_dot then dot_dot ∷ top ∷ below else below

-- One element of `Clean`.
unfoldable pub clean_step : Bool → List Bytes → Bytes → List Bytes
clean_step rooted out e =
    if bytes_eq e [] || bytes_eq e dot
    then out
    else if bytes_eq e dot_dot
    then go_up rooted out
    else e ∷ out

unfoldable pub clean_elements : Bool → List Bytes → List Bytes → List Bytes
unfolding clean_step
clean_elements rooted out [] = out
clean_elements rooted out (e ∷ es) = clean_elements rooted (clean_step rooted out e) es

abbrev pub render : Bool → List Bytes → Bytes
render true es = slash ∷ join es (codes "/")
render false [] = dot
render false (e ∷ es) = join (e ∷ es) (codes "/")

-- `path.Clean`, `filepath.Clean`.
unfoldable pub clean : Bytes → Bytes
unfolding clean_elements split
clean s = render (is_rooted s) (reverse (clean_elements (is_rooted s) [] (split s)))

-- `path.Join`, `filepath.Join`: leading empty arguments are dropped.
unfoldable pub path_join : List Bytes → Bytes
unfolding clean
path_join [] = []
path_join ([] ∷ es) = path_join es
path_join ((c ∷ e) ∷ es) = clean (join ((c ∷ e) ∷ es) (codes "/"))

-- `path.Base`: the last element that is not empty.
abbrev pub last_or : Bytes → List Bytes → Bytes
last_or d [] = d
last_or d (e ∷ es) = last_or (if bytes_eq e [] then d else e) es

unfoldable pub base : Bytes → Bytes
unfolding split
base [] = dot
base (c ∷ s) = last_or (codes "/") (split (c ∷ s))

-- The directory of `path.Split` and `filepath.Split`: all up to the last slash, that included.
unfoldable pub dir_part : Bytes → Bytes
dir_part [] = []
dir_part (c ∷ s) =
    let rest = dir_part s in
    if c == b'/' then c ∷ rest else if has_byte b'/' s then c ∷ rest else []

-- The elements that `Rel` compares: those of `/` are one empty element, those of `""` are none.
abbrev pub rel_elements : Bytes → List Bytes
rel_elements [] = []
rel_elements (c ∷ s) = if bytes_eq (c ∷ s) (codes "/") then [] ∷ [] else split (c ∷ s)

abbrev up_all : List Bytes → List Bytes → List Bytes
up_all [] target = target
up_all (b ∷ bs) target = dot_dot ∷ up_all bs target

-- Behind the common elements: `..` for each element of the base that is left. An element `..` there
-- cannot be undone, which the code sees only if the target has an element to compare it with.
unfoldable pub rel_from : List Bytes → List Bytes → Option (List Bytes)
rel_from [] ts = some ts
rel_from (b ∷ bs) [] = some (up_all (b ∷ bs) [])
rel_from (b ∷ bs) (t ∷ ts) =
    let rest = rel_from bs ts in
    if bytes_eq b t
    then rest
    else if bytes_eq b dot_dot
    then none
    else some (up_all (b ∷ bs) (t ∷ ts))

abbrev rel_base : Bytes → Bytes
rel_base b = if bytes_eq b dot then [] else b

join_elements : Option (List Bytes) → Option Bytes
join_elements none = none
join_elements (some es) = some (join es (codes "/"))

-- `filepath.Rel`; `none` is the error.
unfoldable pub rel : Bytes → Bytes → Option Bytes
unfolding clean rel_from join_elements split
rel basepath targpath =
    let b = clean basepath in
    let t = clean targpath in
    if bytes_eq t b
    then some dot
    else let b' = rel_base b in
      if xor (is_rooted b') (is_rooted t)
      then none
      else join_elements (rel_from (rel_elements b') (rel_elements t))
