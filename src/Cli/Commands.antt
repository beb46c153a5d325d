-- ===== src/Cli/Commands.antt =====
-- main.go: which arguments lead where, and what `build` hands on.
use mathlib.Core.Path.{subst}
use mkdeb.Prelude.{
  true, ◌≡◌, ◌≢◌, ◌↔◌, ◌⊎◌, inl, inr, refl, sym, ◌∙◌, ap, List, [], ◌∷◌, Option, none, some, Bytes,
  codes, bytes_eq, bytes_eq_iff, Bool-cases, ok, >>=-eq-ok, or_err,
}
use mkdeb.Spec.{PackageSpec}
use mkdeb.Disk.{Disk}
use mkdeb.Validate.{ValidateError, validate}
use mkdeb.Validate.Complete.{IsValid, validate-IsValid}
use mkdeb.Content.Size.{or_err_ok}
use mkdeb.Cli.{
  build_config, validate_config, check_config, build_command, main_switch, main_command,
  is_dir_path, choose_target, valid_or, prepare_build,
}

-- The arguments of a build: the command, and flags that parse and leave one argument.
abbrev pub IsBuild :
    (List Bytes → Option (Bytes × Bytes × List Bytes)) → List Bytes → Bytes → Bytes → Bytes → Type 0
IsBuild flags args config version target =
    (program : Bytes) × (rest : List Bytes) × (args ≡ program ∷ codes "build" ∷ rest)
    × (flags rest ≡ some (version, target, config ∷ []))

build_command_inv :
    (o : Option (Bytes × Bytes × List Bytes)) (c v t : Bytes)
    → build_command o ≡ build_config c v t
    → o ≡ some (v, t, c ∷ [])
unfolding build_command check_config
build_command_inv none c v t h = cc
build_command_inv (some (version, target, [])) c v t h = cc
build_command_inv (some (version, target, config ∷ [])) c v t h = cc
build_command_inv (some (version, target, config ∷ _ ∷ _)) c v t h = cc

build_command-validate :
    (o : Option (Bytes × Bytes × List Bytes)) (c : Bytes) → build_command o ≢ validate_config c
unfolding build_command check_config
build_command-validate none c h = cc
build_command-validate (some (version, target, [])) c h = cc
build_command-validate (some (version, target, config ∷ [])) c h = cc
build_command-validate (some (version, target, config ∷ _ ∷ _)) c h = cc

main_switch-build :
    (flags : List Bytes → Option (Bytes × Bytes × List Bytes)) (name : Bytes) (rest : List Bytes)
    (c v t : Bytes)
    → main_switch flags name rest ≡ build_config c v t
    → (name ≡ codes "build") × (build_command (flags rest) ≡ build_config c v t)
unfolding main_switch check_config
main_switch-build flags name rest c v t h = elim (Bool-cases (bytes_eq name (codes "archs"))) [
  | inl a ↦ cc (rw a at h)
  | inr a ↦ elim (Bool-cases (bytes_eq name (codes "build"))) [
    | inl b ↦ ((bytes_eq_iff name (codes "build")).0 b, rw (a, b) at h)
    | inr b ↦ elim (Bool-cases (bytes_eq name (codes "init"))) [
      | inl i ↦ cc (rw (a, b, i) at h)
      | inr i ↦ elim (Bool-cases (bytes_eq name (codes "validate"))) [
        | inl k ↦ cc (rw (a, b, i, k) at h)
        | inr k ↦ cc (rw (a, b, i, k) at h)
      ]
    ]
  ]
]

-- `main` goes on to build a configuration with a version and a target exactly if its arguments are a
-- program, the command `build`, and flags that parse to this version and this target and leave the
-- configuration as the one argument.
pub main_command-IsBuild :
    (flags : List Bytes → Option (Bytes × Bytes × List Bytes)) (args : List Bytes)
    (config version target : Bytes)
    → (main_command flags args ≡ build_config config version target)
      ↔ IsBuild flags args config version target
unfolding main_command
main_command-IsBuild flags args c v t = (to args, from)
  where
    to : (as' : List Bytes) → main_command flags as' ≡ build_config c v t → IsBuild flags as' c v t
    to [] h = cc
    to (program ∷ []) h = cc
    to (program ∷ name ∷ rest) h =
        let (n, b) = main_switch-build flags name rest c v t h in
        (
          program,
          rest,
          ap (λ (x : Bytes). program ∷ x ∷ rest) n,
          build_command_inv (flags rest) c v t b,
        )

    from : IsBuild flags args c v t → main_command flags args ≡ build_config c v t
    from (program, rest, e, k) =
        ap (main_command flags) e ∙ unfold build_command check_config in ap build_command k

main_switch-validate :
    (flags : List Bytes → Option (Bytes × Bytes × List Bytes)) (name : Bytes) (rest : List Bytes)
    (c : Bytes)
    → main_switch flags name rest ≢ validate_config c
unfolding main_switch check_config
main_switch-validate flags name rest c h = elim (Bool-cases (bytes_eq name (codes "archs"))) [
  | inl a ↦ cc (rw a at h)
  | inr a ↦ elim (Bool-cases (bytes_eq name (codes "build"))) [
    | inl b ↦ build_command-validate (flags rest) c (rw (a, b) at h)
    | inr b ↦ elim (Bool-cases (bytes_eq name (codes "init"))) [
      | inl i ↦ cc (rw (a, b, i) at h)
      | inr i ↦ elim (Bool-cases (bytes_eq name (codes "validate"))) [
        | inl k ↦ cc (rw (a, b, i, k) at h)
        | inr k ↦ cc (rw (a, b, i, k) at h)
      ]
    ]
  ]
]

-- No arguments make `main` validate a configuration file.
pub main_command-validate :
    (flags : List Bytes → Option (Bytes × Bytes × List Bytes)) (args : List Bytes) (config : Bytes)
    → main_command flags args ≢ validate_config config
unfolding main_command
main_command-validate flags [] c h = cc
main_command-validate flags (program ∷ []) c h = cc
main_command-validate flags (program ∷ name ∷ rest) c h = main_switch-validate flags name rest c h

valid_or_ok :
    (o : Option ValidateError) (r s : PackageSpec × Bytes)
    → valid_or o r ≡ ok s
    → (o ≡ none) × (r ≡ s)
unfolding valid_or
valid_or_ok none r s h = (refl, cc)
valid_or_ok (some e) r s h = cc

choose_target_ok :
    (disk : Disk) (workdir target chosen : Bytes)
    → choose_target disk workdir target ≡ ok chosen
    → ((target ≡ []) × (chosen ≡ workdir)) ⊎ ((chosen ≡ target) × (is_dir_path disk target ≡ true))
unfolding choose_target
choose_target_ok disk workdir target chosen h = elim (Bool-cases (bytes_eq target [])) [
  | inl a ↦ inl ((bytes_eq_iff target []).0 a, cc (rw a at h))
  | inr a ↦ elim (Bool-cases (is_dir_path disk target)) [
    | inl b ↦ inr (cc (rw (a, b) at h), b)
    | inr b ↦ cc (rw (a, b) at h)
  ]
]

-- What the steps of `build` up to the call of `Build` have found.
pub prepare_build_inv :
    (parse : Bytes → Option PackageSpec) (disk : Disk) (workdir abspath version target : Bytes)
    (p : PackageSpec) (chosen : Bytes)
    → prepare_build parse disk workdir abspath version target ≡ ok (p, chosen)
    → (q : PackageSpec) × (parse abspath ≡ some q)
      × (choose_target disk workdir target ≡ ok chosen)
      × IsValid (record q { version = version }) true
      × (record q { version = version } ≡ p)
unfolding prepare_build
prepare_build_inv parse disk workdir abspath version target p chosen h =
    let (q, eq, h1) = >>=-eq-ok (or_err (parse abspath) _) _ h in
    let (t, et, h2) = >>=-eq-ok (choose_target disk workdir target) _ h1 in
    let (ev, er) = valid_or_ok (validate (record q { version = version }) true) _ (p, chosen) h2 in
    (
      q,
      or_err_ok (parse abspath) _ q eq,
      et ∙ ap ok (ap (λ (x : PackageSpec × Bytes). x.1) er),
      (validate-IsValid (record q { version = version }) true).0 ev,
      ap (λ (x : PackageSpec × Bytes). x.0) er,
    )

-- When the command `build` gets as far as `Build`, the specification is the one of the file with the
-- version of the flag, and it is valid. The target is the configuration's directory if the flag is
-- empty, and else the flag, which is a directory.
pub prepare_build-IsValid :
    (parse : Bytes → Option PackageSpec) (disk : Disk) (workdir abspath version target : Bytes)
    (p : PackageSpec) (chosen : Bytes)
    → prepare_build parse disk workdir abspath version target ≡ ok (p, chosen)
    → IsValid p true
      × ((q : PackageSpec) × (parse abspath ≡ some q) × (p ≡ record q { version = version }))
      × (((target ≡ []) × (chosen ≡ workdir))
          ⊎ ((chosen ≡ target) × (is_dir_path disk target ≡ true)))
prepare_build-IsValid parse disk workdir abspath version target p chosen h =
    let (q, eq, et, v, ep) =
      prepare_build_inv parse disk workdir abspath version target p chosen h in
    (
      subst (λ (x : PackageSpec). IsValid x true) ep v,
      (q, eq, sym ep),
      choose_target_ok disk workdir target chosen et,
    )
