-- ===== src/Content.antt =====
-- deb/package.go: `CalculateSize`, `CalculateChecksums`, `md5SumFile` and `RenderControlFile`. The
-- digest is an argument: `md5` stands for the function of `crypto/md5`.
pub mod Size
pub mod Digest
pub mod Checksums
pub mod Control
mod Tests
use mkdeb.Prelude.{
  ℕ, zero, suc, ◌+◌, ◌-◌, ◌/◌, ◌%◌, ◌^◌, Bool, true, false, List, [], ◌∷◌, ◌++◌, map, Option, none,
  some, Bytes, codes, length, ltb, if◌then◌else◌, Result, ok, err, ◌>>=◌, each, or_err, format_uint,
  ℤ, pos, negsuc, negative, to_int64,
}
use mkdeb.Spec.{PackageSpec, join_commas}
use mkdeb.Disk.{Disk, FileInfo}
use mkdeb.Listing.{ListError, normalize_filename, list_files, map_control_files}

pub data ContentError : Type 0 where
  listing : ListError → ContentError
  stat_failed : Bytes → ContentError
  read_failed : Bytes → ContentError

abbrev pub lift {ℓ} : {A : Type ℓ} → Result ListError A → Result ContentError A
lift (ok a) = ok a
lift (err e) = err (listing e)

-- `os.Lstat` or `os.Stat`, as PreserveSymlinks says.
abbrev pub stat_of : Disk → PackageSpec → Bytes → Option FileInfo
stat_of disk p file = if p.preserve_symlinks then disk.lstat file else disk.stat file

-- One round of the loop over the files. The sum is an int64, here the word of its 64 bits, and wraps.
unfoldable pub size_step : Disk → PackageSpec → ℕ → Bytes → Result ContentError ℕ
size_step disk p size file = do
  info ← or_err (stat_of disk p file) (stat_failed file)
  ok ((size + info.size) % 2 ^ 64)

-- Bytes to kilobytes, a remainder rounded up. Go's quotient and remainder of a sum that has become
-- negative are not positive, so the quotient is then as it is.
unfoldable pub to_kilobytes : ℤ → ℤ
to_kilobytes (pos n) = if ltb 0 (n % 1024) then pos (n / 1024 + 1) else pos (n / 1024)
to_kilobytes (negsuc n) = negative ((n + 1) / 1024)

-- The paths of the control scripts.
abbrev pub script_paths : List (Bytes × Bytes) → List Bytes
script_paths [] = []
script_paths ((name, path) ∷ scripts) = path ∷ script_paths scripts

-- `CalculateSize`.
unfoldable pub calculate_size : Disk → PackageSpec → List Bytes → Result ContentError ℤ
unfolding size_step to_kilobytes
calculate_size disk p keys = do
  files ← lift (list_files disk p keys false)
  size ← each (size_step disk p) 0 (files ++ script_paths (map_control_files disk p))
  ok (to_kilobytes (to_int64 size))

-- `hex.EncodeToString`.
abbrev pub hex_digit : ℕ → ℕ
hex_digit d = if ltb d 10 then b'0' + d else b'a' + (d - 10)

abbrev pub hex_encode : Bytes → Bytes
hex_encode [] = []
hex_encode (b ∷ bs) = hex_digit (b / 16) ∷ hex_digit (b % 16) ∷ hex_encode bs

-- `md5SumFile`.
unfoldable pub md5_sum_file : (Bytes → Bytes) → Disk → Bytes → Result ContentError Bytes
md5_sum_file md5 disk path = do
  file ← or_err (disk.read_file path) (read_failed path)
  ok (hex_encode (md5 file))

-- One round of the loop over the files.
unfoldable pub sum_step :
    (Bytes → Bytes) → Disk → PackageSpec → Bytes → Bytes → Result ContentError Bytes
unfolding md5_sum_file
sum_step md5 disk p sums file = do
  sum ← md5_sum_file md5 disk file
  norm_file ← lift (normalize_filename p file)
  ok (sums ++ (sum ++ (codes "  " ++ (norm_file ++ codes "\n"))))

-- `CalculateChecksums`.
unfoldable pub calculate_checksums :
    (Bytes → Bytes) → Disk → PackageSpec → List Bytes → Result ContentError Bytes
unfolding sum_step
calculate_checksums md5 disk p keys = do
  files ← lift (list_files disk p keys false)
  each (sum_step md5 disk p) [] files

-- A block `{{- if (len LIST) gt 0 }}` of the template. Under the Go version that the repository is
-- built with, the condition is the length in parentheses, true if it is not 0; what follows it is
-- not read.
abbrev pub optional_field : Bytes → List Bytes → Bytes
optional_field label [] = []
optional_field label (d ∷ ds) = label ++ join_commas (d ∷ ds)

-- `RenderControlFile`: the text of the template, piece by piece.
unfoldable pub render_control_file : PackageSpec → Bytes
unfolding join_commas format_uint
render_control_file p =
    codes "Package: "
    ++ (p.package_name
        ++ (codes "\nVersion: "
            ++ (p.version
                ++ (codes "\nArchitecture: "
                    ++ (p.architecture
                        ++ (codes "\nMaintainer: "
                            ++ (p.maintainer
                                ++ (codes "\nInstalled-Size: "
                                    ++ (format_uint 10 p.installed_size
                                        ++ (optional_field (codes "\nPre-Depends: ") p.pre_depends
                                            ++ (optional_field (codes "\nDepends: ") p.depends
                                                ++ (optional_field (codes "\nConflicts: ")
                                                      p.conflicts
                                                    ++ (optional_field (codes "\nBreaks: ") p.breaks
                                                        ++ (optional_field (codes "\nReplaces: ")
                                                            p.replaces
                                                            ++ (codes "\nSection: "
                                                            ++ (p.section
                                                            ++ (codes "\nPriority: "
                                                            ++ (p.priority
                                                            ++ (codes "\nHomepage: "
                                                            ++ (p.homepage
                                                            ++ (codes "\nDescription: "
                                                            ++ (p.description
                                                            ++ codes "\n"))))))))))))))))))))))
