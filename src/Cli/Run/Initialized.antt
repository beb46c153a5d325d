-- ===== src/Cli/Run/Initialized.antt =====
-- main.go: what a run of `init` writes, and what the later runs make of it.
use mkdeb.Prelude.{
  ℕ, true, false, ◌≡◌, ◌≢◌, ◌↔◌, refl, sym, ◌∙◌, ap, [], ◌∷◌, Option, none, some, Bytes, codes, ok,
  Bool-cases, inl, inr,
}
use mkdeb.Spec.{default_package_spec}
use mkdeb.FilePath.{dir_part, path_join}
use mkdeb.Disk.{file_exists}
use mkdeb.Validate.{validate}
use mkdeb.Validate.Complete.{IsValid, validate-IsValid}
use mkdeb.Config.{new_package_spec_from_file}
use mkdeb.Cli.{initial_package, prepare_build, choose_target, valid_or}
use mkdeb.Cli.Start.{initial_package-IsValid}
use mkdeb.Cli.Run.{
  System, initialized, validated, failed, config_exists, create_config, write_config, written,
  run_initialize, run_validate,
}
use mkdeb.Cli.Run.Entered.{IsEntered, enter_lem}

-- The path of the configuration that `init` writes in a directory.
abbrev pub config_in : Bytes → Bytes
config_in workdir = path_join (workdir ∷ codes "mkdeb.json" ∷ [])

-- All that `init` needs for writing `bytes`.
abbrev pub IsWritable : System → Bytes → Bytes → Type 0
IsWritable system workdir bytes =
    (file_exists (system.disk_in workdir) (config_in workdir) ≡ false)
    × (system.create_file (config_in workdir) ≡ true)
    × (system.encode (initial_package workdir) ≡ some bytes)
    × (system.write_file bytes ≡ none)

-- The specification of `init` is valid with any version that is not empty.
versioned-IsValid :
    (workdir version : Bytes)
    → version ≢ []
    → IsValid (record (initial_package workdir) { version = version }) true
versioned-IsValid workdir version n =
    let v = initial_package-IsValid workdir in
    record {
      package_given = v.package_given;
      version_given = λ e. n;
      architecture_given = v.architecture_given;
      maintainer_given = v.maintainer_given;
      description_given = v.description_given;
      architecture_known = v.architecture_known;
      depends_fit = v.depends_fit;
      pre_depends_fit = v.pre_depends_fit;
      replaces_fit = v.replaces_fit;
      conflicts_fit = v.conflicts_fit;
      breaks_fit = v.breaks_fit;
    }

module _ (system : System) (before workdir : Bytes) (has_before : system.getwd ≡ some before)
    (has_workdir : system.absolute before ≡ some workdir) where
  run_initialize_lem : run_initialize system ≡ create_config system workdir (config_in workdir)
  unfolding run_initialize
  run_initialize_lem = rw (has_before, has_workdir) refl

  written_inv :
      (target bytes content : Bytes) (o : Option ℕ)
      → written target content o ≡ (initialized, some (target, bytes))
      → (o ≡ none) × (content ≡ bytes)
  written_inv target bytes content none h = (refl, cc)
  written_inv target bytes content (some n) h = cc

  write_config_inv :
      (target bytes : Bytes) (o : Option Bytes)
      → write_config system target o ≡ (initialized, some (target, bytes))
      → (o ≡ some bytes) × (system.write_file bytes ≡ none)
  write_config_inv target bytes none h = cc
  write_config_inv target bytes (some content) h =
      let (w, e) = written_inv target bytes content (system.write_file content) h in
      (ap some e, ap system.write_file (sym e) ∙ w)

  -- `init` ends with the status 0 and `bytes` in mkdeb.json of the working directory exactly if there is
  -- no such file yet, it can be created, the specification of the directory is encoded as `bytes`, and
  -- they are written. When there is such a file, the status is 1 and nothing is written.
  pub run_initialize-IsWritable :
      (bytes : Bytes)
      → ((run_initialize system ≡ (initialized, some (config_in workdir, bytes)))
          ↔ IsWritable system workdir bytes)
        × (file_exists (system.disk_in workdir) (config_in workdir) ≡ true
            → run_initialize system ≡ (failed (config_exists (config_in workdir)), none))
  run_initialize-IsWritable bytes = ((λ h. to (sym run_initialize_lem ∙ h), from), exists)
    where
      to :
          create_config system workdir (config_in workdir)
            ≡ (initialized, some (config_in workdir, bytes))
          → IsWritable system workdir bytes
      to h = elim (Bool-cases (file_exists (system.disk_in workdir) (config_in workdir))) [
        | inl e ↦ cc (rw e at h)
        | inr e ↦ elim (Bool-cases (system.create_file (config_in workdir))) [
          | inl c ↦
              let (q, w) =
                write_config_inv (config_in workdir) bytes (system.encode (initial_package workdir))
                  (rw (e, c) at h) in
              (e, c, q, w)
          | inr c ↦ cc (rw (e, c) at h)
        ]
      ]

      from :
          IsWritable system workdir bytes
          → run_initialize system ≡ (initialized, some (config_in workdir, bytes))
      from (e, c, q, w) = run_initialize_lem ∙ rw (e, c, q, w) refl

      exists :
          file_exists (system.disk_in workdir) (config_in workdir) ≡ true
          → run_initialize system ≡ (failed (config_exists (config_in workdir)), none)
      exists e = run_initialize_lem ∙ rw e refl

  -- What `init` has written is taken by the other commands, when it is read back as it was written and
  -- the decoder gives the specification that was encoded: `validate` of that file succeeds, and `build`
  -- with a version that is not empty and no target gets as far as `Build`, with that specification,
  -- the version and the directory of the file.
  pub run_initialize-validate :
      (bytes : Bytes)
      → run_initialize system ≡ (initialized, some (config_in workdir, bytes))
      → (later : System) (config abspath : Bytes) → IsEntered later config abspath
      → (later.disk_in (dir_part abspath)).read_file abspath ≡ some bytes
      → (system.encode (initial_package workdir) ≡ some bytes
          → later.decode default_package_spec bytes ≡ some (initial_package workdir))
      → (run_validate later config ≡ ok validated)
        × ((version : Bytes)
            → version ≢ []
            → prepare_build
                (new_package_spec_from_file later.decode (later.disk_in (dir_part abspath)))
                (later.disk_in (dir_part abspath))
                (dir_part abspath)
                abspath
                version
                []
              ≡ ok (record (initial_package workdir) { version = version }, dir_part abspath))
  unfolding run_validate prepare_build choose_target valid_or
  run_initialize-validate bytes h later config abspath e r j =
      let (_, _, q, _) = (run_initialize-IsWritable bytes).0.0 h in
      let valid : validate (initial_package workdir) false ≡ none =
        (validate-IsValid (initial_package workdir) false).1 (initial_package-IsValid workdir) in
      (
        rw (enter_lem later config abspath e, r, j q, valid) refl,
        λ version n.
            rw
              (
                r,
                j q,
                (validate-IsValid (record (initial_package workdir) { version = version }) true).1
                    (versioned-IsValid workdir version n),
              )
              refl,
      )
