-- ===== src/Validate/Complete.antt =====
-- deb/package.go: `Validate` and the rules for a specification.
use mkdeb.Prelude.{
  ◌≡◌, refl, ◌↔◌, inl, inr, ◌≢◌, Bool, true, false, List, [], ◌∷◌, Option, none, some, Bytes, codes,
  arith, All, Bool-cases,
}
use mathlib.Core.List.{append-eq-nil_iff}
use mkdeb.Regex.{Regex, match_string}
use mkdeb.Spec.{PackageSpec, supported_architectures}
use mkdeb.Spec.Strings.{Member, has_string_iff}
use mkdeb.Validate.{
  ValidateError, bad_dependency, bad_pre_dependency, bad_replacement, bad_conflict, bad_break,
  re_depends, re_replaces_etc, add_missing, missing_of, first_bad, ◌or_else◌, check_missing,
  check_architecture, validate,
}
use mkdeb.Validate.Relation.{
  IsRelation, DependsOp, ReplacesOp, re_depends-IsRelation, re_replaces_etc-IsRelation,
}

-- What a specification has to satisfy; the version only when a package is built.
pub record IsValid (p : PackageSpec) (build_time : Bool) : Type 0 where
  pub package_given : p.package_name ≢ []
  pub version_given : build_time ≡ true → p.version ≢ []
  pub architecture_given : p.architecture ≢ []
  pub maintainer_given : p.maintainer ≢ []
  pub description_given : p.description ≢ []
  pub architecture_known : Member p.architecture supported_architectures
  pub depends_fit : All (IsRelation DependsOp) p.depends
  pub pre_depends_fit : All (IsRelation DependsOp) p.pre_depends
  pub replaces_fit : All (IsRelation ReplacesOp) p.replaces
  pub conflicts_fit : All (IsRelation ReplacesOp) p.conflicts
  pub breaks_fit : All (IsRelation ReplacesOp) p.breaks

-- A chain of checks finds nothing exactly if no check does.
or_else_none : (a b : Option ValidateError) → ((a or_else b) ≡ none) ↔ ((a ≡ none) × (b ≡ none))
or_else_none none b = (λ h. (refl, h), λ h. h.1)
or_else_none (some e) b = (λ h. cc, λ h. cc)

module _ (re : Regex) (report : Bytes → ValidateError) (P : Bytes → Type 0)
    (re_iff : (s : Bytes) → (match_string re s ≡ true) ↔ P s) where
  first_bad→All : (xs : List Bytes) → first_bad re report xs ≡ none → All P xs
  unfolding first_bad
  first_bad→All [] h = tt
  first_bad→All (x ∷ xs) h = elim (Bool-cases (match_string re x)) [
    | inl e ↦ ((re_iff x).0 e, first_bad→All xs (rw e at h))
    | inr e ↦ cc (rw e at h)
  ]

  All→first_bad : (xs : List Bytes) → All P xs → first_bad re report xs ≡ none
  unfolding first_bad
  All→first_bad [] h = refl
  All→first_bad (x ∷ xs) (h, hs) = rw ((re_iff x).1 h, All→first_bad xs hs)

-- A required field leaves no trace in the list exactly if it is given.
add_missing_iff :
    (wanted : Bool) (s name : Bytes) (m : List Bytes)
    → (add_missing wanted s name m ≡ []) ↔ ((m ≡ []) × (wanted ≡ true → s ≢ []))
add_missing_iff wanted (c ∷ s) name m = (λ h. (h, λ _ e. cc), λ h. h.0)
add_missing_iff true [] name m =
    (λ h. cc ((append-eq-nil_iff {p = m} {q = name ∷ []}).0 h).1, λ h. absurd (h.1 refl refl))
add_missing_iff false [] name m = (λ h. (h, λ e. cc), λ h. h.0)

missing→given :
    (p : PackageSpec) (b : Bool)
    → missing_of p b ≡ []
    → (p.package_name ≢ [])
      × (b ≡ true → p.version ≢ [])
      × (p.architecture ≢ [])
      × (p.maintainer ≢ [])
      × (p.description ≢ [])
unfolding missing_of
missing→given p b h =
    let (h4, d) = (add_missing_iff true p.description (codes "description") _).0 h in
    let (h3, m) = (add_missing_iff true p.maintainer (codes "maintainer") _).0 h4 in
    let (h2, a) = (add_missing_iff true p.architecture (codes "architecture") _).0 h3 in
    let (h1, v) = (add_missing_iff b p.version (codes "version") _).0 h2 in
    let (h0, n) = (add_missing_iff true p.package_name (codes "package") _).0 h1 in
    (n refl, v, a refl, m refl, d refl)

check_missing_iff : (fs : List Bytes) → (check_missing fs ≡ none) ↔ (fs ≡ [])
unfolding check_missing
check_missing_iff [] = (λ _. refl, λ _. refl)
check_missing_iff (f ∷ fs) = (λ h. cc, λ h. cc)

check_architecture_iff :
    (a : Bytes) → (check_architecture a ≡ none) ↔ Member a supported_architectures
unfolding check_architecture
check_architecture_iff a = (
  λ h. (has_string_iff supported_architectures a).0 (ground arith),
  λ m. rw ((has_string_iff supported_architectures a).1 m),
)

validate→IsValid : (p : PackageSpec) (b : Bool) → validate p b ≡ none → IsValid p b
unfolding validate
validate→IsValid p b h =
    let (h1, r1) = (or_else_none _ _).0 h in
    let (h2, r2) = (or_else_none _ _).0 r1 in
    let (h3, r3) = (or_else_none _ _).0 r2 in
    let (h4, r4) = (or_else_none _ _).0 r3 in
    let (h5, r5) = (or_else_none _ _).0 r4 in
    let (h6, h7) = (or_else_none _ _).0 r5 in
    let (n, v, a, m, d) = missing→given p b ((check_missing_iff _).0 h1) in
    record {
      package_given = n;
      version_given = v;
      architecture_given = a;
      maintainer_given = m;
      description_given = d;
      architecture_known = (check_architecture_iff _).0 h2;
      depends_fit = first_bad→All re_depends bad_dependency _ re_depends-IsRelation _ h3;
      pre_depends_fit = first_bad→All re_depends bad_pre_dependency _ re_depends-IsRelation _ h4;
      replaces_fit =
          first_bad→All re_replaces_etc bad_replacement _ re_replaces_etc-IsRelation _ h5;
      conflicts_fit = first_bad→All re_replaces_etc bad_conflict _ re_replaces_etc-IsRelation _ h6;
      breaks_fit = first_bad→All re_replaces_etc bad_break _ re_replaces_etc-IsRelation _ h7;
    }

given→missing : (p : PackageSpec) (b : Bool) → IsValid p b → missing_of p b ≡ []
unfolding missing_of
given→missing p b v = (add_missing_iff true p.description (codes "description") _).1 (
  (add_missing_iff true p.maintainer (codes "maintainer") _).1 (
    (add_missing_iff true p.architecture (codes "architecture") _).1 (
      (add_missing_iff b p.version (codes "version") _).1 (
        (add_missing_iff true p.package_name (codes "package") []).1 (refl, λ _. v.package_given),
        v.version_given,
      ),
      λ _. v.architecture_given,
    ),
    λ _. v.maintainer_given,
  ),
  λ _. v.description_given,
)

IsValid→validate : (p : PackageSpec) (b : Bool) → IsValid p b → validate p b ≡ none
unfolding validate
IsValid→validate p b v = rw (
  (check_missing_iff _).1 (given→missing p b v),
  (check_architecture_iff p.architecture).1 v.architecture_known,
  All→first_bad re_depends bad_dependency _ re_depends-IsRelation _ v.depends_fit,
  All→first_bad re_depends bad_pre_dependency _ re_depends-IsRelation _ v.pre_depends_fit,
  All→first_bad re_replaces_etc bad_replacement _ re_replaces_etc-IsRelation _ v.replaces_fit,
  All→first_bad re_replaces_etc bad_conflict _ re_replaces_etc-IsRelation _ v.conflicts_fit,
  All→first_bad re_replaces_etc bad_break _ re_replaces_etc-IsRelation _ v.breaks_fit,
)

-- `Validate` returns no error exactly if the required fields are given (the version only at build
-- time), the architecture is a supported one, and each entry of the five lists of relations has the
-- form of its pattern.
pub validate-IsValid : (p : PackageSpec) (b : Bool) → (validate p b ≡ none) ↔ IsValid p b
validate-IsValid p b = (validate→IsValid p b, IsValid→validate p b)
