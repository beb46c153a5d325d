-- ===== src/Content/Tests.antt =====
-- Runs on a small package, and the theorems about its control files on it.
use mathlib.Core.Bool.{xor}
use mathlib.Core.Path.{subst}
use mkdeb.Prelude.{
  ℕ, zero, suc, replicate, ◌<◌, false, ◌≡◌, refl, List, ◌++◌, some, Bytes, codes, All, Lacks, ok,
  arith, [], ◌∷◌, none, ◌^◌, ◌-◌, pos, negsuc, to_int64, each,
}
use mkdeb.Spec.{has_string}
use mkdeb.FilePath.{split, clean, path_join, base, rel, rel_from, clean_step, clean_elements}
use mkdeb.Disk.{Disk, regular, file_exists}
use mkdeb.Listing.{
  lookup_file, normalize_filename, list_all, list_files, add_file, visit_step, auto_visits,
  map_control_files,
}
use mkdeb.Listing.Complete.{candidates, IsListable, list_files-IsListable}
use mkdeb.Content.{
  calculate_size, size_step, to_kilobytes, calculate_checksums, sum_step, md5_sum_file,
}
use mkdeb.Content.Digest.{IsDigest, Covers, read_sums}
use mkdeb.Content.Checksums.{IsOneLine, read_sums-calculate_checksums}
use mkdeb.Samples.{sample_package, sample_keys, sample_disk, sample_files, sample_info, sample_md5}

abbrev huge_disk : Disk
huge_disk = record {
  stat = λ f. some (record (sample_info regular) { size = 2 ^ 62 });
  lstat = λ f. none;
  walk = λ root. [];
  read_file = λ f. none;
  read_part = λ f. [];
}

sample_size : calculate_size sample_disk sample_package sample_keys ≡ ok (pos 1)
unfolding calculate_size size_step to_kilobytes map_control_files list_files list_all visit_step
    auto_visits add_file normalize_filename lookup_file path_join clean split base rel clean_step
    clean_elements rel_from xor file_exists has_string sample_disk
sample_size = refl

-- Two sizes whose sum is 2 ^ 63 make a negative number.
size_wraps : each (size_step huge_disk sample_package) 0 (codes "a" ∷ codes "b" ∷ []) ≡ ok (2 ^ 63)
unfolding size_step
size_wraps = refl

kilobytes_wrap : to_kilobytes (to_int64 (2 ^ 63)) ≡ negsuc (2 ^ 53 - 1)
unfolding to_kilobytes
kilobytes_wrap = refl

abbrev sample_sums : Bytes
sample_sums =
    codes "04000000000000000000000000000000  etc/hello.conf\n"
    ++ codes "04000000000000000000000000000000  usr/bin/hello\n"

sample_checksums :
    calculate_checksums sample_md5 sample_disk sample_package sample_keys ≡ ok sample_sums
unfolding calculate_checksums sum_step md5_sum_file list_files list_all visit_step auto_visits
    add_file normalize_filename lookup_file path_join clean split base rel clean_step clean_elements
    rel_from xor file_exists has_string sample_disk
sample_checksums = refl

zeros-All : (n : ℕ) → All (λ b. b < 256) (replicate n 0)
zeros-All zero = tt
zeros-All (suc n) = (omega arith, zeros-All n)

sample_digests : (s : Bytes) → IsDigest (sample_md5 s)
sample_digests s = (refl, (omega arith, zeros-All 15))

one_line :
    (f t : Bytes)
    → normalize_filename sample_package f ≡ ok t
    → Lacks b'\n' t
    → IsOneLine sample_package f
one_line f t e h u k = let i : t ≡ u = ground (arith, e, k) in subst (Lacks b'\n') i h

sample_lists : list_files sample_disk sample_package sample_keys false ≡ ok sample_files
unfolding list_files list_all visit_step auto_visits add_file normalize_filename lookup_file
    path_join clean split base rel clean_step clean_elements rel_from xor file_exists has_string
    sample_disk
sample_lists = refl

conf-IsOneLine : IsOneLine sample_package (codes "deb-pkg/etc/hello.conf")
unfolding list_files list_all visit_step auto_visits add_file normalize_filename lookup_file
    path_join clean split base rel clean_step clean_elements rel_from xor file_exists has_string
    sample_disk
conf-IsOneLine = one_line (codes "deb-pkg/etc/hello.conf") (codes "etc/hello.conf") refl refl

bin-IsOneLine : IsOneLine sample_package (codes "bin/hello")
unfolding list_files list_all visit_step auto_visits add_file normalize_filename lookup_file
    path_join clean split base rel clean_step clean_elements rel_from xor file_exists has_string
    sample_disk
bin-IsOneLine = one_line (codes "bin/hello") (codes "usr/bin/hello") refl refl

sample-IsOneLine :
    All (IsOneLine sample_package) (candidates sample_disk sample_package sample_keys false)
sample-IsOneLine =
    let (e, _) =
      (list_files-IsListable sample_disk sample_package sample_keys false sample_files).0
        sample_lists in
    subst (All (IsOneLine sample_package)) e (conf-IsOneLine, (bin-IsOneLine, tt))

read_sums-calculate_checksums_example :
    (v : IsListable sample_disk sample_package sample_keys false) × (es : List (Bytes × Bytes))
    × Covers sample_md5 sample_disk
        (candidates sample_disk sample_package sample_keys false)
        v.targets
        es
    × (read_sums sample_sums ≡ some es)
read_sums-calculate_checksums_example =
    read_sums-calculate_checksums sample_md5 sample_digests sample_disk sample_package sample_keys
      sample_sums sample-IsOneLine sample_checksums
