-- ===== src/Archive/ControlTests.antt =====
-- The control archive of a small package, read back.
use mathlib.Core.Bool.{xor}
use mkdeb.Prelude.{
  ◌≡◌, refl, true, ℕ, ltb, ltb→lt, List, [], ◌∷◌, ◌++◌, none, Bytes, codes, All, map, ok, pos,
  arith, ap, ◌∙◌, Lacks, length, replicate,
}
use mkdeb.Spec.{has_string}
use mkdeb.FilePath.{split, clean, path_join, base, rel, rel_from, clean_step, clean_elements}
use mkdeb.Disk.{Time, file_exists}
use mkdeb.Listing.{
  map_control_files, lookup_file, normalize_filename, list_all, list_files, list_etc_files,
  add_file, visit_step, auto_visits,
}
use mkdeb.Content.{calculate_checksums, sum_step, md5_sum_file, render_control_file}
use mkdeb.Tar.Strconv.{is_ascii}
use mkdeb.Tar.Writer.Steps.{take_whole}
use mkdeb.Tar.Writer.{Sink, new_writer, close}
use mkdeb.Tar.Reading.{read_archive}
use mkdeb.Tar.Reading.Layout.{stored_entry}
use mkdeb.Tar.Reading.Written.{add_all, read_archive-close}
use mkdeb.Archive.{create_control_archive, conf_data}
use mkdeb.Archive.Control.{Part, part, IsControl, no_scripts, one_script}
use mkdeb.Archive.ControlRead.{
  IsPart, part_entry, part-IsEntry, read_archive-create_control_archive,
}
use mkdeb.Samples.{sample_package, sample_keys, sample_disk, sample_md5}

abbrev whole_sink : Sink
whole_sink out chunk = none

abbrev now : Time
now = record { seconds = pos 1000000000; nanos = 0 }

abbrev long_part : Part
long_part = part 0o644 (replicate 120 b'a') (codes "contents")

long_part-IsPart : IsPart long_part
unfolding is_ascii
long_part-IsPart = record {
  part_nul = refl;
  part_ascii = refl;
  part_length = omega arith;
  part_mode = omega arith;
  part_size = omega arith;
}

read_archive-close_example :
    ((close whole_sink (add_all whole_sink (part_entry now long_part ∷ []) new_writer)).1 ≡ none)
    × (read_archive
          (close whole_sink (add_all whole_sink (part_entry now long_part ∷ []) new_writer)).0.out
        ≡ ok (stored_entry (part_entry now long_part) ∷ []))
read_archive-close_example =
    read_archive-close whole_sink (λ out chunk. refl) (part_entry now long_part ∷ [])
      (part-IsEntry now long_part long_part-IsPart, tt)

abbrev sums : Bytes
sums =
    (codes "0400000000000000" ++ codes "0000000000000000  etc/hello.conf\n")
    ++ (codes "0400000000000000" ++ codes "0000000000000000  usr/bin/hello\n")

-- The range over the control scripts in the order of their listing.
abbrev in_order : List (Bytes × Bytes) → List (Bytes × Bytes)
in_order scripts = scripts

abbrev pub control_parts : List Part
control_parts =
    part 0o644 (codes "md5sums") sums
    ∷ part 0o644 (codes "conffiles") (conf_data (codes "/etc/hello.conf" ∷ []))
    ∷ part 0o644 (codes "control") (render_control_file sample_package)
    ∷ part 0o755 (codes "preinst") (codes "data")
    ∷ []

sums_lem : calculate_checksums sample_md5 sample_disk sample_package sample_keys ≡ ok sums
unfolding calculate_checksums sum_step md5_sum_file list_files list_all visit_step auto_visits
    add_file normalize_filename lookup_file path_join clean split base rel clean_step clean_elements
    rel_from xor file_exists has_string sample_disk
sums_lem = refl

conf_lem : list_etc_files sample_disk sample_package sample_keys ≡ ok (codes "/etc/hello.conf" ∷ [])
unfolding list_etc_files list_files list_all visit_step auto_visits add_file normalize_filename
    lookup_file path_join clean split base rel clean_step clean_elements rel_from xor file_exists
    has_string sample_disk
conf_lem = refl

pub control_parts-IsControl :
    IsControl sample_md5 sample_disk sample_package sample_keys sample_keys
      (map_control_files sample_disk sample_package)
      control_parts
unfolding map_control_files path_join clean split clean_step clean_elements file_exists sample_disk
control_parts-IsControl = record {
  sums = sums;
  conf_files = codes "/etc/hello.conf" ∷ [];
  script_parts = part 0o755 (codes "preinst") (codes "data") ∷ [];
  has_sums = sums_lem;
  has_conf = conf_lem;
  has_scripts =
      one_script (codes "preinst") (codes "deb-pkg/preinst") (codes "data") refl no_scripts;
  in_order = refl;
}

small_part :
    (mode : ℕ) (name content : Bytes)
    → ltb mode 4096 ≡ true
    → ltb (length name) 100 ≡ true
    → ltb (length content) 4096 ≡ true
    → is_ascii name ≡ true
    → Lacks 0 name
    → IsPart (part mode name content)
small_part mode name content a b c d e =
    let k = ltb→lt (length name) 100 b in
    record {
      part_nul = e;
      part_ascii = ap is_ascii (take_whole 100 name (omega (arith, k))) ∙ d;
      part_length = omega (arith, k);
      part_mode = omega (arith, ltb→lt mode 4096 a);
      part_size = omega (arith, ltb→lt (length content) 4096 c);
    }

pub control_parts-IsPart : All IsPart control_parts
unfolding is_ascii render_control_file
control_parts-IsPart = (
  small_part 0o644 (codes "md5sums") sums refl refl refl refl refl,
  (
    small_part 0o644 (codes "conffiles") (conf_data (codes "/etc/hello.conf" ∷ [])) refl refl refl
        refl refl,
    (
      small_part 0o644 (codes "control") (render_control_file sample_package) refl refl refl refl
          refl,
      (small_part 0o755 (codes "preinst") (codes "data") refl refl refl refl refl, tt),
    ),
  ),
)

read_archive-create_control_archive_example :
    ((create_control_archive whole_sink sample_md5 sample_disk now true sample_package sample_keys
        sample_keys in_order).1
      ≡ none)
    × (read_archive
          (create_control_archive whole_sink sample_md5 sample_disk now true sample_package
            sample_keys sample_keys in_order).0.out
        ≡ ok (map stored_entry (map (part_entry now) control_parts)))
read_archive-create_control_archive_example =
    read_archive-create_control_archive whole_sink now sample_disk sample_md5 sample_package
      sample_keys sample_keys in_order (λ out chunk. refl) control_parts control_parts-IsControl
      control_parts-IsPart
