-- ===== src/Build/Package.antt =====
-- deb/package.go: `Build`, and what a reader of the package finds.
use mkdeb.Prelude.{
  true, ◌≡◌, refl, ◌∙◌, ap, List, [], ◌∷◌, ◌++◌, Option, none, some, Bytes, codes, All, map, Result,
  ok, err,
}
use mkdeb.Spec.{PackageSpec}
use mkdeb.Disk.{Disk, Time}
use mkdeb.Listing.{list_files, map_control_files}
use mkdeb.Validate.Complete.{IsValid, validate-IsValid}
use mkdeb.Tar.Strconv.{TarError, err_header}
use mkdeb.Tar.Writer.{Sink}
use mkdeb.Tar.Writer.Padding.{IsReliable}
use mkdeb.Tar.Reading.{Entry, read_archive}
use mkdeb.Tar.Reading.Layout.{IsEntry, stored_entry}
use mkdeb.Archive.{create_control_archive, create_data_archive}
use mkdeb.Archive.Control.{Part, IsControl}
use mkdeb.Archive.ControlRead.{IsPart, part_entry, read_archive-create_control_archive}
use mkdeb.Archive.DataRead.{Entries, joined, read_archive-create_data_archive}
use mkdeb.Build.{Member, member, World, Orders, write_bytes_to_ar, write_file_to_ar, build}

-- A world in which nothing fails, with a compressor.
pub record IsWorking (world : World) (zip : Bytes → Bytes) : Type 0 where
  pub has_temp_dir : world.temp_dir ≡ true
  pub has_make_dir : world.make_dir ≡ true
  pub has_create : world.create ≡ true
  pub has_create_control : world.create_control ≡ true
  pub has_create_data : world.create_data ≡ true
  pub takes_all : (members : List Member) (m : Member) → world.takes members m ≡ true
  pub stores : (bytes : Bytes) → world.stored bytes ≡ some (zip bytes)
  pub has_closes : world.closes ≡ true

-- The entries of an archive that is unpacked.
abbrev pub read_unpacked : Option Bytes → Result TarError (List Entry)
read_unpacked none = err err_header
read_unpacked (some bytes) = read_archive bytes

module _ (world : World) (sink : Sink) (md5 : Bytes → Bytes) (pieces : Bytes → List Bytes)
    (disk : Disk) (now : Time) (orders : Orders) (p : PackageSpec) (zip : Bytes → Bytes)
    (unzip : Bytes → Option Bytes) where
  abbrev control_bytes : Bytes
  control_bytes =
      (create_control_archive sink md5 disk now true p orders.sums orders.conffiles
        orders.scripts).0.out

  abbrev data_bytes : Bytes
  data_bytes = (create_data_archive sink pieces disk true p orders.files).0.out

  -- The members when no step fails.
  build_whole :
      IsWorking world zip
      → IsValid p true
      → (create_control_archive sink md5 disk now true p orders.sums orders.conffiles
          orders.scripts).1
        ≡ none
      → (create_data_archive sink pieces disk true p orders.files).1 ≡ none
      → build world sink md5 pieces disk now orders p
        ≡ ok (
            member (codes "debian-binary") (codes "2.0\n")
            ∷ member (codes "control.tar.gz") (zip control_bytes)
            ∷ member (codes "data.tar.gz") (zip data_bytes)
            ∷ [])
  unfolding build write_bytes_to_ar write_file_to_ar
  build_whole w v c d =
      let first : List Member = member (codes "debian-binary") (codes "2.0\n") ∷ [] in
      rw
        (
          (validate-IsValid p true).1 v,
          w.has_temp_dir,
          w.has_make_dir,
          w.has_create,
          w.takes_all [] (member (codes "debian-binary") (codes "2.0\n")),
          w.has_create_control,
          w.has_create_data,
          c,
          d,
          w.stores control_bytes,
          w.stores data_bytes,
          w.takes_all first (member (codes "control.tar.gz") (zip control_bytes)),
          w.takes_all (first ++ member (codes "control.tar.gz") (zip control_bytes) ∷ [])
              (member (codes "data.tar.gz") (zip data_bytes)),
          w.has_closes,
        )
        refl

  -- When the specification is valid with a version, the archives' entries can be made and fit, and no
  -- call of the system, the ar writer or the compressor fails, `Build` returns no error, and the package
  -- has the members debian-binary, control.tar.gz and data.tar.gz in this order. Unpacked and read by an
  -- independent reader, the second holds md5sums, conffiles, control and the scripts, and the third the
  -- files that `ListFiles` lists, each with its name, mode, time in seconds and contents.
  pub build-read :
      IsReliable sink
      → ((b : Bytes) → joined (pieces b) ≡ b)
      → ((b : Bytes) → unzip (zip b) ≡ some b)
      → IsWorking world zip
      → IsValid p true
      → (parts : List Part)
      → IsControl md5 disk p orders.sums orders.conffiles
          (orders.scripts (map_control_files disk p))
          parts
      → All IsPart parts
      → (fs : List Bytes) (es : List Entry) → list_files disk p orders.files true ≡ ok fs
      → Entries disk p fs es
      → All IsEntry es
      → (control : Bytes) × (contents : Bytes) × (build world sink md5 pieces disk now orders p
          ≡ ok (
              member (codes "debian-binary") (codes "2.0\n")
              ∷ member (codes "control.tar.gz") control
              ∷ member (codes "data.tar.gz") contents
              ∷ []))
        × (read_unpacked (unzip control) ≡ ok (map stored_entry (map (part_entry now) parts)))
        × (read_unpacked (unzip contents) ≡ ok (map stored_entry es))
  build-read r whole z w v parts c cs fs es l xs vs =
      let (c1, c2) =
        read_archive-create_control_archive sink now disk md5 p orders.sums orders.conffiles
          orders.scripts r parts c cs in
      let (d1, d2) =
        read_archive-create_data_archive sink r pieces whole disk p orders.files fs es l xs vs in
      (
        zip control_bytes,
        zip data_bytes,
        build_whole w v c1 d1,
        ap read_unpacked (z control_bytes) ∙ c2,
        ap read_unpacked (z data_bytes) ∙ d2,
      )
