-- ===== src/Build/PackageTests.antt =====
-- A small package that is built and read back.
use mkdeb.Prelude.{◌≡◌, refl, true, [], ◌∷◌, some, Bytes, codes, map, ok, pos, Option, none}
use mkdeb.Spec.{has_string}
use mkdeb.Disk.{Time}
use mkdeb.Regex.{match_string}
use mkdeb.Validate.{validate, missing_of, first_bad}
use mkdeb.Validate.Complete.{IsValid, validate-IsValid}
use mkdeb.Tar.Writer.{Sink}
use mkdeb.Tar.Reading.Layout.{stored_entry}
use mkdeb.Archive.ControlRead.{part_entry}
use mkdeb.Archive.ControlTests.{control_parts, control_parts-IsControl, control_parts-IsPart}
use mkdeb.Archive.DataTests.{
  data_entries, all_files, one_piece, list_lem, data_entries-Entries, data_entries-IsEntry,
  joined-one_piece,
}
use mkdeb.Build.{World, Orders, member, build}
use mkdeb.Build.Package.{IsWorking, read_unpacked, build-read}
use mkdeb.Samples.{sample_package, sample_keys, sample_disk, sample_md5}

abbrev whole_sink : Sink
whole_sink out chunk = none

abbrev now : Time
now = record { seconds = pos 1000000000; nanos = 0 }

-- A compressor that puts a byte in front.
abbrev zip : Bytes → Bytes
zip b = 31 ∷ b

abbrev unzip : Bytes → Option Bytes
unzip [] = none
unzip (c ∷ b) = some b

abbrev zip_world : World
zip_world = record {
  temp_dir = true;
  make_dir = true;
  create = true;
  create_control = true;
  create_data = true;
  takes = λ members m. true;
  stored = λ bytes. some (zip bytes);
  closes = true;
}

zip_world-IsWorking : IsWorking zip_world zip
zip_world-IsWorking = record {
  has_temp_dir = refl;
  has_make_dir = refl;
  has_create = refl;
  has_create_control = refl;
  has_create_data = refl;
  takes_all = λ members m. refl;
  stores = λ bytes. refl;
  has_closes = refl;
}

abbrev orders : Orders
orders = record {
  sums = sample_keys;
  conffiles = sample_keys;
  files = sample_keys;
  scripts = λ scripts. scripts;
}

sample_package-IsValid : IsValid sample_package true
unfolding validate missing_of first_bad match_string has_string
sample_package-IsValid = (validate-IsValid sample_package true).0 refl

build-read_example :
    (control : Bytes) × (contents : Bytes) × (build zip_world whole_sink sample_md5 one_piece
        sample_disk now orders sample_package
      ≡ ok (
          member (codes "debian-binary") (codes "2.0\n")
          ∷ member (codes "control.tar.gz") control
          ∷ member (codes "data.tar.gz") contents
          ∷ []))
    × (read_unpacked (unzip control) ≡ ok (map stored_entry (map (part_entry now) control_parts)))
    × (read_unpacked (unzip contents) ≡ ok (map stored_entry data_entries))
build-read_example =
    build-read zip_world whole_sink sample_md5 one_piece sample_disk now orders sample_package zip
      unzip (λ out chunk. refl) joined-one_piece (λ b. refl) zip_world-IsWorking
      sample_package-IsValid control_parts control_parts-IsControl control_parts-IsPart all_files
      data_entries list_lem data_entries-Entries data_entries-IsEntry
