-- ===== src/Listing.antt =====
-- deb/package.go: `NormalizeFilename`, `ListFiles`, `ListEtcFiles` and `MapControlFiles`. Go ranges
-- over the map `Files` in an order that may differ at each call: `keys` is that order.
pub mod Loops
pub mod Complete
pub mod Names
pub mod Order
pub mod Etc
pub mod Scripts
mod Tests
use mkdeb.Prelude.{
  Bool, true, false, not, ◌&&◌, List, [], ◌∷◌, ◌++◌, Option, none, some, Bytes, codes, bytes_eq,
  has_prefix, if◌then◌else◌, Result, ok, err, ◌>>=◌, each,
}
use mkdeb.Spec.{PackageSpec, has_string, control_files}
use mkdeb.FilePath.{path_join, base, rel, dot}
use mkdeb.Disk.{Disk, Visit, file_exists}

pub data ListError : Type 0 where
  walk_failed : Bytes → ListError
  no_relative_path : Bytes → ListError
  not_specified : Bytes → ListError
  duplicate_in_auto_path : Bytes → ListError
  duplicate_in_files : Bytes → ListError

-- `p.Files[filename]`.
unfoldable pub lookup_file : List (Bytes × Bytes) → Bytes → Option Bytes
lookup_file [] filename = none
lookup_file ((source, target) ∷ files) filename =
    let rest = lookup_file files filename in if bytes_eq source filename then some target else rest

-- `p.AutoPath != "" && p.AutoPath != "-"`.
abbrev pub auto_path_on : PackageSpec → Bool
auto_path_on p = not (bytes_eq p.auto_path []) && not (bytes_eq p.auto_path (codes "-"))

join_rel : Bytes → Option Bytes → Result ListError Bytes
join_rel filename none = err (no_relative_path filename)
join_rel filename (some fpath) = ok (path_join (dot ∷ fpath ∷ []))

from_auto_path : PackageSpec → Bytes → Result ListError Bytes
unfolding join_rel
from_auto_path p filename =
    if auto_path_on p
    then join_rel filename (rel p.auto_path filename)
    else err (not_specified filename)

normalize_by : PackageSpec → Bytes → Option Bytes → Result ListError Bytes
unfolding from_auto_path
normalize_by p filename (some target) = ok (path_join (dot ∷ target ∷ []))
normalize_by p filename none = from_auto_path p filename

-- `NormalizeFilename`.
unfoldable pub normalize_filename : PackageSpec → Bytes → Result ListError Bytes
unfolding normalize_by
normalize_filename p filename = normalize_by p filename (lookup_file p.files filename)

-- The variables of `ListFiles`: the list, and the set of targets in the order of insertion.
pub record Listing : Type 0 where
  pub files : List Bytes
  pub targets : List Bytes

abbrev pub empty_listing : Listing
empty_listing = record { files = []; targets = [] }

-- The common end of both loops: a file joins the list unless its target is taken.
unfoldable pub add_file :
    (Bytes → ListError) → PackageSpec → Listing → Bytes → Result ListError Listing
add_file duplicate p l file = do
  target ← normalize_filename p file
  if has_string l.targets target
      then err (duplicate file)
      else ok (record { files = l.files ++ file ∷ []; targets = l.targets ++ target ∷ [] })

-- Whether the walk passes an entry over: a directory, if those are not wanted, or a control file.
abbrev pub is_skipped : Bool → Visit → Bool
is_skipped include_dirs v =
    if not include_dirs && v.at_dir then true else has_string control_files (base v.path)

-- The function that `ListFiles` hands to `filepath.Walk`.
unfoldable pub visit_step : PackageSpec → Bool → Listing → Visit → Result ListError Listing
unfolding add_file
visit_step p include_dirs l v =
    if v.failed
    then err (walk_failed v.path)
    else if is_skipped include_dirs v
    then ok l
    else add_file duplicate_in_auto_path p l v.path

-- What the first part of `ListFiles` walks over.
unfoldable pub auto_visits : Disk → PackageSpec → List Visit
auto_visits disk p =
    if auto_path_on p && file_exists disk p.auto_path then disk.walk p.auto_path else []

-- Both loops of `ListFiles`, with the targets.
unfoldable pub list_all : Disk → PackageSpec → List Bytes → Bool → Result ListError Listing
unfolding visit_step auto_visits add_file
list_all disk p keys include_dirs = do
  l ← each (visit_step p include_dirs) empty_listing (auto_visits disk p)
  each (add_file duplicate_in_files p) l keys

-- `ListFiles`. The list that Go returns beside an error is left out: no caller reads it.
unfoldable pub list_files : Disk → PackageSpec → List Bytes → Bool → Result ListError (List Bytes)
unfolding list_all
list_files disk p keys include_dirs = do l ← list_all disk p keys include_dirs; ok l.files

-- The loop of `ListEtcFiles`.
unfoldable pub etc_step : PackageSpec → List Bytes → Bytes → Result ListError (List Bytes)
etc_step p etc_files file = do
  norm_file ← normalize_filename p file
  ok (
      if has_prefix (codes "etc") norm_file
      then etc_files ++ (codes "/" ++ norm_file) ∷ []
      else etc_files)

-- `ListEtcFiles`.
unfoldable pub list_etc_files : Disk → PackageSpec → List Bytes → Result ListError (List Bytes)
unfolding list_files etc_step
list_etc_files disk p keys =
    if p.upgrade_configs
    then ok []
    else list_files disk p keys false >>= λ files. each (etc_step p) [] files

-- One of the four blocks of `MapControlFiles`: the field if it is set, or the file of that name.
abbrev pub control_script : Disk → PackageSpec → Bytes → Bytes → List (Bytes × Bytes)
control_script disk p (c ∷ s) name = (name, c ∷ s) ∷ []
control_script disk p [] name =
    let file = path_join (p.auto_path ∷ name ∷ []) in
    if auto_path_on p && file_exists disk file then (name, file) ∷ [] else []

-- `MapControlFiles`, one pair for each key of the map.
unfoldable pub map_control_files : Disk → PackageSpec → List (Bytes × Bytes)
map_control_files disk p =
    control_script disk p p.preinst (codes "preinst")
    ++ (control_script disk p p.postinst (codes "postinst")
        ++ (control_script disk p p.prerm (codes "prerm")
            ++ control_script disk p p.postrm (codes "postrm")))
