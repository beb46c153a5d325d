-- ===== src/Cli/Tests.antt =====
-- Runs of the dispatch, and the theorems about it on them.
use mkdeb.Prelude.{
  true, false, ◌≡◌, ◌≢◌, ◌↔◌, ◌⊎◌, refl, List, [], ◌∷◌, Option, some, Bytes, codes, ok,
}
use mkdeb.Spec.{PackageSpec, has_string}
use mkdeb.Regex.{match_string}
use mkdeb.Validate.{validate, missing_of, first_bad}
use mkdeb.Validate.Complete.{IsValid}
use mkdeb.Cli.{
  missing_config, build_config, validate_config, check_config, main_command, is_dir_path,
  choose_target, prepare_build, initial_package,
}
use mkdeb.Cli.Commands.{IsBuild, main_command-IsBuild, main_command-validate, prepare_build-IsValid}
use mkdeb.Cli.Start.{initial_package-IsValid}
use mkdeb.Samples.{sample_package, sample_disk}

-- No flag: the version is 1.0 and there is no target.
abbrev no_flags : List Bytes → Option (Bytes × Bytes × List Bytes)
no_flags rest = some (codes "1.0", [], rest)

abbrev build_args : List Bytes
build_args = codes "mkdeb" ∷ codes "build" ∷ codes "mkdeb.json" ∷ []

abbrev validate_args : List Bytes
validate_args = codes "mkdeb" ∷ codes "validate" ∷ codes "mkdeb.json" ∷ []

builds : main_command no_flags build_args ≡ build_config (codes "mkdeb.json") (codes "1.0") []
unfolding main_command check_config
builds = refl

validates_nothing : main_command no_flags validate_args ≡ missing_config
unfolding main_command check_config
validates_nothing = refl

main_command-IsBuild_example :
    (main_command no_flags build_args ≡ build_config (codes "mkdeb.json") (codes "1.0") [])
    ↔ IsBuild no_flags build_args (codes "mkdeb.json") (codes "1.0") []
main_command-IsBuild_example =
    main_command-IsBuild no_flags build_args (codes "mkdeb.json") (codes "1.0") []

main_command-validate_example :
    main_command no_flags validate_args ≢ validate_config (codes "mkdeb.json")
main_command-validate_example = main_command-validate no_flags validate_args (codes "mkdeb.json")

abbrev read_sample : Bytes → Option PackageSpec
read_sample path = some sample_package

prepares :
    prepare_build read_sample sample_disk
      (codes "/w")
      (codes "/w/mkdeb.json")
      (codes "1.0")
      (codes "deb-pkg")
    ≡ ok (sample_package, codes "deb-pkg")
unfolding prepare_build choose_target is_dir_path sample_disk validate missing_of first_bad
    match_string has_string
prepares = refl

prepare_build-IsValid_example :
    IsValid sample_package true
    × ((q : PackageSpec) × (some sample_package ≡ some q)
        × (sample_package ≡ record q { version = codes "1.0" }))
    × (((codes "deb-pkg" ≡ []) × (codes "deb-pkg" ≡ codes "/w"))
        ⊎ ((codes "deb-pkg" ≡ codes "deb-pkg")
            × (is_dir_path sample_disk (codes "deb-pkg") ≡ true)))
prepare_build-IsValid_example =
    prepare_build-IsValid read_sample sample_disk (codes "/w") (codes "/w/mkdeb.json") (codes "1.0")
      (codes "deb-pkg") sample_package (codes "deb-pkg") prepares

initial_package-IsValid_example : IsValid (initial_package (codes "/home/me/hello")) false
initial_package-IsValid_example = initial_package-IsValid (codes "/home/me/hello")
