-- ===== src/Archive/Tests.antt =====
-- The archives of a small package.
use mathlib.Core.Bool.{xor}
use mkdeb.Prelude.{◌≡◌, refl, true, List, [], ◌∷◌, none, Bytes, All, ok, pos, format_uint}
use mkdeb.Spec.{has_string}
use mkdeb.FilePath.{split, clean, path_join, base, rel, rel_from, clean_step, clean_elements}
use mkdeb.Disk.{Time, file_exists}
use mkdeb.Listing.{
  lookup_file, normalize_filename, list_all, list_files, add_file, visit_step, auto_visits,
}
use mkdeb.Tar.Header.{file_info_header}
use mkdeb.Tar.Strconv.{is_ascii, to_ascii, format_string, format_int, format_octal}
use mkdeb.Tar.Writer.{
  Sink, write_header, write, flush, pad_out, send, write_fields, draft_header, draft_string,
  draft_numeric, clamp_time, sealed, start_entry,
}
use mkdeb.Tar.Writer.Flushed.{IsAligned}
use mkdeb.Archive.{create_data_archive, deferred_close, add_files, copy}
use mkdeb.Archive.Data.{create_data_archive-IsAligned}
use mkdeb.Archive.Packed.{IsPacked, create_data_archive-IsPacked}
use mkdeb.Samples.{sample_package, sample_keys, sample_disk}

abbrev whole_sink : Sink
whole_sink out chunk = none

abbrev one_piece : Bytes → List Bytes
one_piece content = content ∷ []

abbrev now : Time
now = record { seconds = pos 1000000000; nanos = 0 }

-- The range over the control scripts in the order of their listing.
abbrev in_order : List (Bytes × Bytes) → List (Bytes × Bytes)
in_order scripts = scripts

create_data_archive-IsAligned_example :
    IsAligned
      (create_data_archive whole_sink one_piece sample_disk true sample_package sample_keys).0
create_data_archive-IsAligned_example =
    create_data_archive-IsAligned whole_sink (λ out chunk. refl) one_piece sample_disk
      sample_package true sample_keys

packs_sample :
    (create_data_archive whole_sink one_piece sample_disk true sample_package sample_keys).1 ≡ none
unfolding create_data_archive deferred_close add_files copy write_header write flush pad_out send
    write_fields draft_header draft_string draft_numeric clamp_time sealed start_entry is_ascii
    to_ascii format_string format_int format_octal format_uint file_info_header list_files list_all
    visit_step auto_visits add_file normalize_filename lookup_file path_join clean split base rel
    clean_step clean_elements rel_from xor file_exists has_string sample_disk
packs_sample = refl

create_data_archive-IsPacked_example :
    (true ≡ true)
    × ((fs : List Bytes) × (list_files sample_disk sample_package sample_keys true ≡ ok fs)
        × All (IsPacked sample_disk sample_package) fs)
create_data_archive-IsPacked_example =
    create_data_archive-IsPacked whole_sink one_piece sample_disk sample_package true sample_keys
      packs_sample
