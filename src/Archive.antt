-- ===== src/Archive.antt =====
-- deb/package.go: `CreateDataArchive` and `CreateControlArchive`, over a tar writer whose sink, the
-- compressor, is a parameter. Both answer the writer that was closed behind them and the error.
pub mod Control
pub mod Data
pub mod Packed
pub mod ControlRead
pub mod DataRead
mod Tests
pub mod ControlTests
pub mod DataTests
use mkdeb.Prelude.{
  ℕ, Bool, true, false, List, [], ◌∷◌, ◌++◌, Option, none, some, Bytes, codes, join, length, Result,
  ok, err, pos, if◌then◌else◌,
}
use mkdeb.Spec.{PackageSpec}
use mkdeb.Disk.{Disk, FileInfo, Time, is_dir}
use mkdeb.Listing.{ListError, normalize_filename, list_files, list_etc_files, map_control_files}
use mkdeb.Content.{ContentError, calculate_checksums, render_control_file}
use mkdeb.Tar.Strconv.{TarError}
use mkdeb.Tar.Header.{Header, stat_unix, file_info_header}
use mkdeb.Tar.Writer.{Sink, Writer, new_writer, write_header, write, close}

pub data ArchiveError : Type 0 where
  create_failed : ArchiveError
  content_failed : ContentError → ArchiveError
  list_failed : ListError → ArchiveError
  stat_failed : Bytes → ArchiveError
  unknown_mode : Bytes → ArchiveError
  read_failed : Bytes → ArchiveError
  copy_failed : TarError → ArchiveError

-- A round that may stop the loop.
abbrev pub stops :
    Option ArchiveError → Writer → Writer × Option ArchiveError → Writer × Option ArchiveError
stops none w rest = rest
stops (some e) w rest = (w, some e)

-- The deferred `archive.Close()`, whose error nothing reads.
unfoldable pub deferred_close : Sink → Writer × Option ArchiveError → Writer × Option ArchiveError
deferred_close sink (w, e) = ((close sink w).0, e)

-- The header that `CreateControlArchive` starts from.
abbrev pub control_header : Time → ℕ → Bytes → Bytes → Header
control_header now mode name content = record {
  name = name;
  mode = mode;
  uid = pos 0;
  gid = pos 0;
  size = length content;
  mod_time = now;
  type_flag = 0;
  link_name = [];
  uname = codes "root";
  gname = codes "root";
  dev_major = pos 0;
  dev_minor = pos 0;
}

-- `archive.WriteHeader` and `archive.Write`, both errors dropped.
unfoldable pub add_entry : Sink → Time → ℕ → Bytes → Bytes → Writer → Writer
add_entry sink now mode name content w =
    (write sink content (write_header sink (control_header now mode name content) w).0).0

-- The loop over the control scripts, in the order of the range.
pub add_script : Sink → Time → Bytes → Bytes → Option Bytes → Writer → Writer × Option ArchiveError
unfolding add_entry
add_script sink now name path none w = (w, some (read_failed path))
add_script sink now name path (some content) w = (add_entry sink now 0o755 name content w, none)

unfoldable pub add_scripts :
    Sink → Disk → Time → List (Bytes × Bytes) → Writer → Writer × Option ArchiveError
unfolding add_script
add_scripts sink disk now [] w = (w, none)
add_scripts sink disk now ((name, path) ∷ scripts) w =
    let (w', e) = add_script sink now name path (disk.read_file path) w in
    let rest = add_scripts sink disk now scripts w' in stops e w' rest

-- The rest of `CreateControlArchive` behind each of its parts.
abbrev pub conf_data : List Bytes → Bytes
conf_data conf_files = join conf_files (codes "\n") ++ codes "\n"

pub add_conffiles :
    Sink
    → Disk
    → Time
    → PackageSpec
    → List (Bytes × Bytes)
    → Result ListError (List Bytes)
    → Writer
    → Writer × Option ArchiveError
unfolding add_entry add_scripts
add_conffiles sink disk now p scripts (err e) w = (w, some (list_failed e))
add_conffiles sink disk now p scripts (ok conf_files) w =
    let w = add_entry sink now 0o644 (codes "conffiles") (conf_data conf_files) w in
    let w = add_entry sink now 0o644 (codes "control") (render_control_file p) w in
    add_scripts sink disk now scripts w

pub add_md5sums :
    Sink
    → Disk
    → Time
    → PackageSpec
    → List (Bytes × Bytes)
    → Result ListError (List Bytes)
    → Result ContentError Bytes
    → Writer
    → Writer × Option ArchiveError
unfolding add_entry add_conffiles
add_md5sums sink disk now p scripts conf (err e) w = (w, some (content_failed e))
add_md5sums sink disk now p scripts conf (ok sums) w =
    add_conffiles sink disk now p scripts conf (add_entry sink now 0o644 (codes "md5sums") sums w)

-- `CreateControlArchive`. The range over `Files` has the order `keys` for the checksums and `keys'`
-- for the conffiles; `order` brings the control scripts into the order of the range over them.
unfoldable pub create_control_archive :
    Sink
    → (Bytes → Bytes)
    → Disk
    → Time
    → Bool
    → PackageSpec
    → List Bytes
    → List Bytes
    → (List (Bytes × Bytes) → List (Bytes × Bytes))
    → Writer × Option ArchiveError
unfolding add_md5sums deferred_close
create_control_archive sink md5 disk now created p keys keys' order =
    if created
    then deferred_close sink (
        add_md5sums sink disk now p (order (map_control_files disk p)) (list_etc_files disk p keys')
          (calculate_checksums md5 disk p keys) new_writer)
    else (new_writer, some create_failed)

-- `io.Copy` of a file that is read in `pieces`: it stops at the first error of `Write`.
abbrev copy_stops :
    Option TarError → Writer → Writer × Option ArchiveError → Writer × Option ArchiveError
copy_stops none w rest = rest
copy_stops (some e) w rest = (w, some (copy_failed e))

unfoldable pub copy : Sink → List Bytes → Writer → Writer × Option ArchiveError
copy sink [] w = (w, none)
copy sink (piece ∷ pieces) w =
    let (w', _, e) = write sink piece w in let rest = copy sink pieces w' in copy_stops e w' rest

-- Reading the file fails behind what could be copied, unless copying that has failed.
abbrev pub breaks_off : Bytes → Option ArchiveError → ArchiveError
breaks_off filename none = read_failed filename
breaks_off filename (some e) = e

-- The contents of a file, unless it is a directory. Of a file that cannot be read whole, `part` can be.
pub copy_file :
    Sink
    → (Bytes → List Bytes)
    → Bytes
    → Bytes
    → Option Bytes
    → Bool
    → Writer
    → Writer × Option ArchiveError
unfolding copy
copy_file sink pieces filename part content true w = (w, none)
copy_file sink pieces filename part none false w =
    let (w', e) = copy sink (pieces part) w in (w', some (breaks_off filename e))
copy_file sink pieces filename part (some content) false w = copy sink (pieces content) w

-- What `CreateDataArchive` writes over in the header of a file.
abbrev pub data_header : Bytes → Header → Header
data_header target h = record h {
  name = target;
  uid = pos 0;
  gid = pos 0;
  uname = codes "root";
  gname = codes "root";
}

pub with_header :
    Sink
    → (Bytes → List Bytes)
    → Disk
    → Bytes
    → Bytes
    → FileInfo
    → Option Header
    → Writer
    → Writer × Option ArchiveError
unfolding copy_file
with_header sink pieces disk filename target info none w = (w, some (unknown_mode filename))
with_header sink pieces disk filename target info (some h) w =
    copy_file sink pieces filename (disk.read_part filename) (disk.read_file filename) (is_dir info)
      (write_header sink (data_header target h) w).0

pub with_info :
    Sink
    → (Bytes → List Bytes)
    → Disk
    → Bytes
    → Bytes
    → Option FileInfo
    → Writer
    → Writer × Option ArchiveError
unfolding with_header
with_info sink pieces disk filename target none w = (w, some (stat_failed filename))
with_info sink pieces disk filename target (some info) w =
    with_header sink pieces disk filename target info
      (file_info_header info filename (stat_unix info)) w

pub with_target :
    Sink
    → (Bytes → List Bytes)
    → Disk
    → Bytes
    → Result ListError Bytes
    → Writer
    → Writer × Option ArchiveError
unfolding with_info
with_target sink pieces disk filename (err e) w = (w, some (list_failed e))
with_target sink pieces disk filename (ok target) w =
    with_info sink pieces disk filename target (disk.stat filename) w

-- The loop of `CreateDataArchive`.
unfoldable pub add_files :
    Sink
    → (Bytes → List Bytes)
    → Disk
    → PackageSpec
    → List Bytes
    → Writer
    → Writer × Option ArchiveError
unfolding with_target
add_files sink pieces disk p [] w = (w, none)
add_files sink pieces disk p (filename ∷ files) w =
    let (w', e) = with_target sink pieces disk filename (normalize_filename p filename) w in
    let rest = add_files sink pieces disk p files w' in stops e w' rest

pub add_listed :
    Sink
    → (Bytes → List Bytes)
    → Disk
    → PackageSpec
    → Result ListError (List Bytes)
    → Writer
    → Writer × Option ArchiveError
unfolding add_files
add_listed sink pieces disk p (err e) w = (w, some (list_failed e))
add_listed sink pieces disk p (ok files) w = add_files sink pieces disk p files w

-- `CreateDataArchive`; `created` says that the file of the archive could be created.
unfoldable pub create_data_archive :
    Sink
    → (Bytes → List Bytes)
    → Disk
    → Bool
    → PackageSpec
    → List Bytes
    → Writer × Option ArchiveError
unfolding add_listed deferred_close
create_data_archive sink pieces disk created p keys =
    if created
    then deferred_close sink
        (add_listed sink pieces disk p (list_files disk p keys true) new_writer)
    else (new_writer, some create_failed)
