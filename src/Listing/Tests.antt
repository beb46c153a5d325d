-- ===== src/Listing/Tests.antt =====
-- Runs on a small package, and the theorems about the listing on it.
use mathlib.Core.List.{Permᴰ}
use mathlib.Core.Bool.{xor}
use mkdeb.Prelude.{
  true, false, ◌≡◌, refl, ◌↔◌, ap, length, List, [], ◌∷◌, ◌++◌, none, some, Bytes, codes, join, All,
  ok, err, arith,
}
use mkdeb.Spec.{PackageSpec, has_string}
use mkdeb.FilePath.{
  render, split, clean, path_join, base, rel, rel_from, clean_step, clean_elements,
}
use mkdeb.FilePath.Clean.{IsPlain}
use mkdeb.Disk.{file_exists}
use mkdeb.Listing.{
  lookup_file, normalize_filename, list_all, list_files, list_etc_files, etc_step, add_file,
  visit_step, auto_visits, duplicate_in_files, map_control_files,
}
use mkdeb.Listing.Complete.{candidates, IsListable, list_files-IsListable}
use mkdeb.Listing.Names.{
  IsArchiveName, normalize_filename-IsArchiveName, normalize_filename_mapped,
  normalize_filename_below,
}
use mkdeb.Listing.Order.{list_files-perm}
use mkdeb.Listing.Scripts.{chosen_script, lookup_file-map_control_files}
use mkdeb.Listing.Etc.{IsConffiles, list_etc_files-IsConffiles}
use mkdeb.Samples.{sample_package, sample_keys, sample_disk, sample_files}

pub sample_lists : list_files sample_disk sample_package sample_keys false ≡ ok sample_files
unfolding list_files list_all visit_step auto_visits add_file normalize_filename lookup_file
    path_join clean split base rel clean_step clean_elements rel_from xor file_exists has_string
    sample_disk
sample_lists = refl

pub sample_conf :
    normalize_filename sample_package (codes "deb-pkg/etc/hello.conf") ≡ ok (codes "etc/hello.conf")
unfolding normalize_filename lookup_file path_join clean split rel clean_step clean_elements
    rel_from xor
sample_conf = refl

pub sample_bin : normalize_filename sample_package (codes "bin/hello") ≡ ok (codes "usr/bin/hello")
unfolding normalize_filename lookup_file path_join clean split rel clean_step clean_elements
    rel_from xor
sample_bin = refl

sample_scripts :
    map_control_files sample_disk sample_package ≡ (codes "preinst", codes "deb-pkg/preinst") ∷ []
unfolding map_control_files file_exists path_join clean split clean_step clean_elements sample_disk
sample_scripts = refl

-- Two files with one target.
abbrev clashing_package : PackageSpec
clashing_package = record sample_package {
  files = (codes "bin/hello", codes "/etc/hello.conf") ∷ [];
}

rejects_clash :
    list_files sample_disk clashing_package sample_keys false
    ≡ err (duplicate_in_files (codes "bin/hello"))
unfolding list_files list_all visit_step auto_visits add_file normalize_filename lookup_file
    path_join clean split base rel clean_step clean_elements rel_from xor file_exists has_string
    sample_disk
rejects_clash = refl

list_files-IsListable_example :
    (list_files sample_disk sample_package sample_keys false ≡ ok sample_files) ↔ (
      (sample_files ≡ candidates sample_disk sample_package sample_keys false)
      × IsListable sample_disk sample_package sample_keys false)
list_files-IsListable_example =
    list_files-IsListable sample_disk sample_package sample_keys false sample_files

normalize_filename-IsArchiveName_example : IsArchiveName (codes "etc/hello.conf")
normalize_filename-IsArchiveName_example =
    normalize_filename-IsArchiveName sample_package (codes "deb-pkg/etc/hello.conf")
      (codes "etc/hello.conf") sample_conf

abbrev target : List Bytes
target = codes "usr" ∷ codes "bin" ∷ codes "hello" ∷ []

target-IsPlain : All IsPlain target
target-IsPlain =
    ((refl, refl, refl, refl), ((refl, refl, refl, refl), ((refl, refl, refl, refl), tt)))

mapped : lookup_file sample_package.files (codes "bin/hello") ≡ some (render true target)
unfolding lookup_file
mapped = refl

normalize_filename_mapped_example :
    normalize_filename sample_package (codes "bin/hello") ≡ ok (render false target)
normalize_filename_mapped_example =
    normalize_filename_mapped sample_package (codes "bin/hello") true target target-IsPlain mapped

below :
    lookup_file sample_package.files
      (render false (codes "deb-pkg" ∷ ([] ++ codes "etc" ∷ codes "hello.conf" ∷ [])))
    ≡ none
unfolding lookup_file
below = refl

normalize_filename_below_example :
    normalize_filename sample_package
      (render false (codes "deb-pkg" ∷ ([] ++ codes "etc" ∷ codes "hello.conf" ∷ [])))
    ≡ ok (join (codes "etc" ∷ codes "hello.conf" ∷ []) (codes "/"))
normalize_filename_below_example =
    normalize_filename_below sample_package false (codes "deb-pkg") [] (codes "etc")
      (codes "hello.conf" ∷ []) ((refl, refl, refl, refl), tt)
      ((refl, refl, refl, refl), ((refl, refl, refl, refl), tt)) refl
      (λ e. absurd (omega (arith, ap length e))) below

-- Two keys, in either order of the range.
abbrev two_package : PackageSpec
two_package = record sample_package {
  files = (codes "bin/hello", codes "/usr/bin/hello") ∷ (codes "doc", codes "/usr/doc") ∷ [];
}

abbrev two_files : List Bytes
two_files = codes "deb-pkg/etc/hello.conf" ∷ codes "bin/hello" ∷ codes "doc" ∷ []

two_lists :
    list_files sample_disk two_package (codes "bin/hello" ∷ codes "doc" ∷ []) false ≡ ok two_files
unfolding list_files list_all visit_step auto_visits add_file normalize_filename lookup_file
    path_join clean split base rel clean_step clean_elements rel_from xor file_exists has_string
    sample_disk
two_lists = refl

list_files-perm_example :
    (gs : List Bytes) × (list_files sample_disk two_package
        (codes "doc" ∷ codes "bin/hello" ∷ [])
        false
      ≡ ok gs)
    × Permᴰ two_files gs
list_files-perm_example =
    list_files-perm sample_disk two_package (codes "bin/hello" ∷ codes "doc" ∷ [])
      (codes "doc" ∷ codes "bin/hello" ∷ []) false two_files (Permᴰ.swap refl refl) two_lists

etc_lists :
    list_etc_files sample_disk sample_package sample_keys ≡ ok (codes "/etc/hello.conf" ∷ [])
unfolding list_etc_files etc_step list_files list_all visit_step auto_visits add_file
    normalize_filename lookup_file path_join clean split base rel clean_step clean_elements rel_from
    xor file_exists has_string sample_disk
etc_lists = refl

list_etc_files-IsConffiles_example :
    (list_etc_files sample_disk sample_package sample_keys ≡ ok (codes "/etc/hello.conf" ∷ [])) ↔ (
      (v : IsListable sample_disk sample_package sample_keys false) × IsConffiles v.targets
        (codes "/etc/hello.conf" ∷ []))
list_etc_files-IsConffiles_example =
    list_etc_files-IsConffiles sample_disk sample_package sample_keys (codes "/etc/hello.conf" ∷ [])
      refl

lookup_file-map_control_files_example :
    (lookup_file (map_control_files sample_disk sample_package) (codes "preinst")
      ≡ chosen_script sample_disk sample_package [] (codes "preinst"))
    × (lookup_file (map_control_files sample_disk sample_package) (codes "postinst")
        ≡ chosen_script sample_disk sample_package [] (codes "postinst"))
    × (lookup_file (map_control_files sample_disk sample_package) (codes "prerm")
        ≡ chosen_script sample_disk sample_package [] (codes "prerm"))
    × (lookup_file (map_control_files sample_disk sample_package) (codes "postrm")
        ≡ chosen_script sample_disk sample_package [] (codes "postrm"))
lookup_file-map_control_files_example = lookup_file-map_control_files sample_disk sample_package
