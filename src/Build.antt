-- ===== src/Build.antt =====
-- deb/package.go: `Build`, `writeBytesToAr` and `writeFileToAr`. The ar writer, the directories and
-- the files that the build creates are parameters: each of their calls succeeds or fails.
pub mod Members
pub mod Package
mod Tests
mod PackageTests
use mkdeb.Prelude.{
  ℕ, Bool, true, false, List, [], ◌∷◌, ◌++◌, Option, none, some, Bytes, codes, length, Result, ok,
  err, ◌>>=◌, or_err, if◌then◌else◌,
}
use mkdeb.Spec.{PackageSpec}
use mkdeb.Disk.{Disk, Time}
use mkdeb.Validate.{ValidateError, validate}
use mkdeb.Tar.Writer.{Sink, Writer}
use mkdeb.Archive.{ArchiveError, create_control_archive, create_data_archive}

pub data BuildError : Type 0 where
  invalid : ValidateError → BuildError
  no_workspace no_target_directory no_target_file close_failed : BuildError
  archive_failed : ArchiveError → BuildError
  ar_failed : Bytes → BuildError
  no_archive_file : Bytes → BuildError

-- A member of the ar archive; its owner is 0 and 0, its mode 0600.
pub record Member : Type 0 where
  pub name : Bytes
  pub size : ℕ
  pub content : Bytes

abbrev pub member : Bytes → Bytes → Member
member name content = record { name = name; size = length content; content = content }

-- The world of a build: whether the calls of `os` succeed, whether the ar writer behind some members
-- takes one more, and what the file of a compressed archive holds when the compressor got these
-- bytes and was closed.
pub record World : Type 0 where
  pub temp_dir : Bool
  pub make_dir : Bool
  pub create : Bool
  pub create_control : Bool
  pub create_data : Bool
  pub takes : List Member → Member → Bool
  pub stored : Bytes → Option Bytes
  pub closes : Bool

-- The orders of the ranges over maps: over `Files` for the checksums, the conffiles and the data, and
-- over the control scripts, as a function that brings them into its order.
pub record Orders : Type 0 where
  pub sums : List Bytes
  pub conffiles : List Bytes
  pub files : List Bytes
  pub scripts : List (Bytes × Bytes) → List (Bytes × Bytes)

abbrev pub require : Bool → BuildError → Result BuildError (Unit {0})
require true e = ok tt
require false e = err e

abbrev pub no_failure {ℓ} :
    {E : Type ℓ} → (E → BuildError) → Option E → Result BuildError (Unit {0})
no_failure wrap none = ok tt
no_failure wrap (some e) = err (wrap e)

-- `writeBytesToAr`: the header and the data.
unfoldable pub write_bytes_to_ar :
    World → Bytes → Bytes → List Member → Result BuildError (List Member)
write_bytes_to_ar world name content members =
    if world.takes members (member name content)
    then ok (members ++ member name content ∷ [])
    else err (ar_failed name)

-- `writeFileToAr` of the archive file that holds what the compressor made of `bytes`.
unfoldable pub write_file_to_ar :
    World → Bytes → Bytes → List Member → Result BuildError (List Member)
unfolding write_bytes_to_ar
write_file_to_ar world name bytes members =
    or_err (world.stored bytes) (no_archive_file name) >>= λ content.
    write_bytes_to_ar world name content members

-- `Build`: the members of the archive.
unfoldable pub build :
    World
    → Sink
    → (Bytes → Bytes)
    → (Bytes → List Bytes)
    → Disk
    → Time
    → Orders
    → PackageSpec
    → Result BuildError (List Member)
unfolding write_bytes_to_ar write_file_to_ar
build world sink md5 pieces disk now orders p = do
  _ ← no_failure invalid (validate p true)
  _ ← require world.temp_dir no_workspace
  _ ← require world.make_dir no_target_directory
  _ ← require world.create no_target_file
  first ← write_bytes_to_ar world (codes "debian-binary") (codes "2.0\n") []
  let control =
      create_control_archive sink md5 disk now world.create_control p orders.sums orders.conffiles
        orders.scripts
  _ ← no_failure archive_failed control.1
  second ← write_file_to_ar world (codes "control.tar.gz") control.0.out first
  let contents = create_data_archive sink pieces disk world.create_data p orders.files
  _ ← no_failure archive_failed contents.1
  third ← write_file_to_ar world (codes "data.tar.gz") contents.0.out second
  _ ← require world.closes close_failed
  ok third
