-- ===== src/Build/Tests.antt =====
-- A build of a small package.
use mathlib.Core.Bool.{xor}
use mkdeb.Prelude.{some, ◌≡◌, refl, true, List, [], ◌∷◌, none, Bytes, codes, ok, pos, format_uint}
use mkdeb.Spec.{has_string}
use mkdeb.FilePath.{split, clean, path_join, base, rel, rel_from, clean_step, clean_elements}
use mkdeb.Disk.{Time, file_exists}
use mkdeb.Listing.{
  lookup_file, normalize_filename, list_all, list_files, add_file, visit_step, auto_visits,
  map_control_files,
}
use mkdeb.Tar.Header.{file_info_header}
use mkdeb.Tar.Strconv.{is_ascii, to_ascii, format_string, format_int, format_octal}
use mkdeb.Tar.Writer.{
  Sink, write_header, write, flush, pad_out, send, write_fields, draft_header, draft_string,
  draft_numeric, clamp_time, sealed, start_entry,
}
use mkdeb.Samples.{sample_package, sample_keys, sample_disk, sample_md5}
use mkdeb.Archive.{
  create_control_archive, create_data_archive, deferred_close, add_files, add_scripts, add_entry,
  copy,
}
use mkdeb.Validate.{validate, missing_of, first_bad}
use mkdeb.Validate.Complete.{IsValid}
use mkdeb.Regex.{match_string}
use mkdeb.Listing.{list_etc_files, etc_step}
use mkdeb.Content.{calculate_checksums, sum_step, md5_sum_file}
use mkdeb.Build.{World, Orders, Member, member, build, write_bytes_to_ar, write_file_to_ar}
use mkdeb.Build.Members.{control_archive, data_archive, build-member}

abbrev good_world : World
good_world = record {
  temp_dir = true;
  make_dir = true;
  create = true;
  create_control = true;
  create_data = true;
  takes = λ members m. true;
  stored = λ bytes. some (codes "gz");
  closes = true;
}

abbrev good_sink : Sink
good_sink out chunk = none

abbrev pieces : Bytes → List Bytes
pieces content = content ∷ []

abbrev today : Time
today = record { seconds = pos 1000000000; nanos = 0 }

abbrev orders : Orders
orders = record {
  sums = sample_keys;
  conffiles = sample_keys;
  files = sample_keys;
  scripts = λ scripts. scripts;
}

abbrev built : List Member
built =
    member (codes "debian-binary") (codes "2.0\n")
    ∷ member (codes "control.tar.gz") (codes "gz")
    ∷ member (codes "data.tar.gz") (codes "gz")
    ∷ []

builds_sample :
    build good_world good_sink sample_md5 pieces sample_disk today orders sample_package ≡ ok built
unfolding build write_bytes_to_ar write_file_to_ar validate missing_of first_bad match_string
    create_control_archive add_scripts add_entry list_etc_files etc_step calculate_checksums
    sum_step md5_sum_file create_data_archive deferred_close add_files copy write_header write flush
    pad_out send write_fields draft_header draft_string draft_numeric clamp_time sealed start_entry
    is_ascii to_ascii format_string format_int format_octal format_uint file_info_header list_files
    list_all visit_step auto_visits add_file normalize_filename lookup_file path_join clean split
    base rel clean_step clean_elements rel_from xor file_exists has_string map_control_files
    sample_disk
builds_sample = refl

build-member_example :
    IsValid sample_package true
    × ((control_archive good_world good_sink sample_md5 pieces sample_disk today orders
          sample_package).1
        ≡ none)
    × ((data_archive good_world good_sink sample_md5 pieces sample_disk today orders
          sample_package).1
        ≡ none)
    × ((control : Bytes) × (some (codes "gz") ≡ some control)
        × ((contents : Bytes) × (some (codes "gz") ≡ some contents)
            × (built
                ≡ member (codes "debian-binary") (codes "2.0\n")
                  ∷ member (codes "control.tar.gz") control
                  ∷ member (codes "data.tar.gz") contents
                  ∷ [])))
build-member_example =
    build-member good_world good_sink sample_md5 pieces sample_disk today orders sample_package
      built builds_sample
