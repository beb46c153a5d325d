-- ===== src/Validate/Tests.antt =====
-- Runs of the validator, and the theorems about it on a small package.
use mkdeb.Prelude.{true, ◌≡◌, refl, ◌↔◌, [], ◌∷◌, none, some, codes}
use mkdeb.Regex.{match_string}
use mkdeb.Spec.{PackageSpec, default_package_spec, has_string}
use mkdeb.Validate.{
  re_depends, re_replaces_etc, validate, bad_dependency, missing_fields, missing_of, first_bad,
}
use mkdeb.Validate.Relation.{
  IsRelation, DependsOp, ReplacesOp, re_depends-IsRelation, re_replaces_etc-IsRelation,
}
use mkdeb.Validate.Complete.{IsValid, validate-IsValid}
use mkdeb.Validate.Culprit.{Explains, validate_culprit}
use mkdeb.Samples.{sample_package}

accepts_sample : validate sample_package true ≡ none
unfolding validate missing_of first_bad match_string has_string
accepts_sample = refl

rejects_default :
    validate default_package_spec true
    ≡ some (
        missing_fields (
          codes "package"
          ∷ codes "version"
          ∷ codes "architecture"
          ∷ codes "maintainer"
          ∷ codes "description"
          ∷ []))
unfolding validate missing_of first_bad match_string has_string
rejects_default = refl

abbrev bad_package : PackageSpec
bad_package = record sample_package { depends = codes "tree" ∷ codes "libc (<< 2.14)" ∷ [] }

rejects_bad : validate bad_package true ≡ some (bad_dependency (codes "libc (<< 2.14)"))
unfolding validate missing_of first_bad match_string has_string
rejects_bad = refl

re_depends-IsRelation_example :
    (match_string re_depends (codes "libc (>= 2.14)") ≡ true)
    ↔ IsRelation DependsOp (codes "libc (>= 2.14)")
re_depends-IsRelation_example = re_depends-IsRelation (codes "libc (>= 2.14)")

re_replaces_etc-IsRelation_example :
    (match_string re_replaces_etc (codes "libc (<< 2.14)") ≡ true)
    ↔ IsRelation ReplacesOp (codes "libc (<< 2.14)")
re_replaces_etc-IsRelation_example = re_replaces_etc-IsRelation (codes "libc (<< 2.14)")

validate-IsValid_example : (validate sample_package true ≡ none) ↔ IsValid sample_package true
validate-IsValid_example = validate-IsValid sample_package true

validate_culprit_example : Explains bad_package true (bad_dependency (codes "libc (<< 2.14)"))
validate_culprit_example =
    validate_culprit bad_package true (bad_dependency (codes "libc (<< 2.14)")) rejects_bad
