-- ===== src/Archive/DataTests.antt =====
-- The data archive of a small package, read back.
use mathlib.Core.Bool.{xor}
use mathlib.Core.Path.{subst}
use mkdeb.Prelude.{
  ◌≡◌, refl, true, ltb, ltb→lt, List, [], ◌∷◌, none, some, Bytes, codes, All, map, ok, pos, arith,
  sym, Lacks, length, take, append-nil,
}
use mkdeb.Spec.{has_string}
use mkdeb.FilePath.{split, clean, path_join, base, rel, rel_from, clean_step, clean_elements}
use mkdeb.Disk.{Time, directory, regular, file_exists}
use mkdeb.Listing.{
  lookup_file, normalize_filename, list_all, list_files, add_file, visit_step, auto_visits,
}
use mkdeb.Tar.Header.{Header, type_dir, type_reg, file_info_header}
use mkdeb.Tar.Strconv.{is_ascii}
use mkdeb.Tar.Block.Fields.{IsText}
use mkdeb.Tar.Writer.{Sink}
use mkdeb.Tar.Reading.{Entry, read_archive}
use mkdeb.Tar.Reading.Layout.{IsEntry, stored_entry}
use mkdeb.Archive.{create_data_archive}
use mkdeb.Archive.DataRead.{
  IsEntryOf, Entries, joined, no_files, one_file, of_directory, of_file,
  read_archive-create_data_archive,
}
use mkdeb.Samples.{sample_package, sample_keys, sample_disk, sample_files, sample_info}

abbrev whole_sink : Sink
whole_sink out chunk = none

abbrev pub one_piece : Bytes → List Bytes
one_piece content = content ∷ []

abbrev now : Time
now = record { seconds = pos 1000000000; nanos = 0 }

abbrev pub all_files : List Bytes
all_files = codes "deb-pkg" ∷ codes "deb-pkg/etc" ∷ sample_files

pub list_lem : list_files sample_disk sample_package sample_keys true ≡ ok all_files
unfolding list_files list_all visit_step auto_visits add_file normalize_filename lookup_file
    path_join clean split base rel clean_step clean_elements rel_from xor file_exists has_string
    sample_disk
list_lem = refl

-- The headers of the files of the sample.
abbrev directory_header : Header
directory_header = record {
  name = codes "hello/";
  mode = 0o40644;
  uid = pos 1000;
  gid = pos 100;
  size = 0;
  mod_time = now;
  type_flag = type_dir;
  link_name = [];
  uname = [];
  gname = [];
  dev_major = pos 0;
  dev_minor = pos 0;
}

abbrev regular_header : Header
regular_header = record directory_header {
  name = codes "hello";
  mode = 0o100644;
  size = 4;
  type_flag = type_reg;
}

abbrev entry_at : Bytes → Header → Bytes → Entry
entry_at target h content = record {
  header = record h {
    name = target;
    uid = pos 0;
    gid = pos 0;
    uname = codes "root";
    gname = codes "root";
  };
  content = content;
}

abbrev HasName : Bytes → Type 0
HasName target =
    (is_ascii target ≡ true)
    × (take 100 target ≡ target)
    × (ltb (length target) 100 ≡ true)
    × Lacks 0 target

directory-IsEntry :
    (target : Bytes) → HasName target → IsEntry (entry_at target directory_header [])
unfolding is_ascii
directory-IsEntry target (a, t, k, z) =
    let l = ltb→lt (length target) 100 k in
    (
      record {
        storable_name = z;
        storable_length = omega (arith, l);
        storable_fields = record {
          plain_name = subst (IsText 100) (sym t) (a, omega (arith, l), z);
          plain_mode = omega arith;
          plain_uid = omega arith;
          plain_gid = omega arith;
          plain_size = omega arith;
          plain_flag = omega arith;
          plain_link = (refl, omega arith, refl);
          plain_uname = (refl, omega arith, refl);
          plain_gname = (refl, omega arith, refl);
          plain_major = omega arith;
          plain_minor = omega arith;
        };
        storable_flag = refl;
      },
      refl,
    )

-- The regular file has the fields of the directory but for three.
regular-IsEntry :
    (target : Bytes) → HasName target → IsEntry (entry_at target regular_header (codes "data"))
regular-IsEntry target h =
    let (d, _) = directory-IsEntry target h in
    (
      record {
        storable_name = d.storable_name;
        storable_length = d.storable_length;
        storable_fields = record {
          plain_name = d.storable_fields.plain_name;
          plain_mode = omega arith;
          plain_uid = omega arith;
          plain_gid = omega arith;
          plain_size = omega arith;
          plain_flag = omega arith;
          plain_link = d.storable_fields.plain_link;
          plain_uname = d.storable_fields.plain_uname;
          plain_gname = d.storable_fields.plain_gname;
          plain_major = omega arith;
          plain_minor = omega arith;
        };
        storable_flag = refl;
      },
      refl,
    )

directory_entry :
    (f target : Bytes)
    → normalize_filename sample_package f ≡ ok target
    → sample_disk.stat f ≡ some (sample_info directory)
    → IsEntryOf sample_disk sample_package f (entry_at target directory_header [])
unfolding file_info_header
directory_entry f target a b = record {
  target = target;
  info = sample_info directory;
  file_header = directory_header;
  has_target = a;
  has_info = b;
  has_header = refl;
  is_header = refl;
  is_content = of_directory;
}

regular_entry :
    (f target : Bytes)
    → normalize_filename sample_package f ≡ ok target
    → sample_disk.stat f ≡ some (sample_info regular)
    → IsEntryOf sample_disk sample_package f (entry_at target regular_header (codes "data"))
unfolding file_info_header sample_disk
regular_entry f target a b = record {
  target = target;
  info = sample_info regular;
  file_header = regular_header;
  has_target = a;
  has_info = b;
  has_header = refl;
  is_header = refl;
  is_content = of_file (codes "data") refl;
}

abbrev pub data_entries : List Entry
data_entries =
    entry_at (codes ".") directory_header []
    ∷ entry_at (codes "etc") directory_header []
    ∷ entry_at (codes "etc/hello.conf") regular_header (codes "data")
    ∷ entry_at (codes "usr/bin/hello") regular_header (codes "data")
    ∷ []

pub data_entries-Entries : Entries sample_disk sample_package all_files data_entries
unfolding list_files list_all visit_step auto_visits add_file normalize_filename lookup_file
    path_join clean split base rel clean_step clean_elements rel_from xor file_exists has_string
    sample_disk
data_entries-Entries =
    one_file (codes "deb-pkg") _ (directory_entry (codes "deb-pkg") (codes ".") refl refl) (
      one_file (codes "deb-pkg/etc") _
        (directory_entry (codes "deb-pkg/etc") (codes "etc") refl refl)
        (one_file (codes "deb-pkg/etc/hello.conf") _
          (regular_entry (codes "deb-pkg/etc/hello.conf") (codes "etc/hello.conf") refl refl)
          (one_file (codes "bin/hello") _
            (regular_entry (codes "bin/hello") (codes "usr/bin/hello") refl refl) no_files)))

pub data_entries-IsEntry : All IsEntry data_entries
unfolding is_ascii
data_entries-IsEntry = (
  directory-IsEntry (codes ".") (refl, refl, refl, refl),
  (
    directory-IsEntry (codes "etc") (refl, refl, refl, refl),
    (
      regular-IsEntry (codes "etc/hello.conf") (refl, refl, refl, refl),
      (regular-IsEntry (codes "usr/bin/hello") (refl, refl, refl, refl), tt),
    ),
  ),
)

pub joined-one_piece : (b : Bytes) → joined (one_piece b) ≡ b
joined-one_piece b = append-nil b

read_archive-create_data_archive_example :
    ((create_data_archive whole_sink one_piece sample_disk true sample_package sample_keys).1
      ≡ none)
    × (read_archive
          (create_data_archive whole_sink one_piece sample_disk true sample_package
            sample_keys).0.out
        ≡ ok (map stored_entry data_entries))
read_archive-create_data_archive_example =
    read_archive-create_data_archive whole_sink (λ out chunk. refl) one_piece joined-one_piece
      sample_disk sample_package sample_keys all_files data_entries list_lem data_entries-Entries
      data_entries-IsEntry
