-- ===== src/Cli/Run/Outcome.antt =====
-- main.go: what a run of `build` amounts to.
use mathlib.Core.Path.{subst}
use mkdeb.Prelude.{
  true, ◌≡◌, refl, sym, ◌∙◌, ap, List, [], ◌∷◌, Option, none, some, Bytes, Result, ok, err,
  >>=-eq-ok, arith,
}
use mkdeb.Spec.{PackageSpec, filename}
use mkdeb.FilePath.{dir_part, path_join}
use mkdeb.Validate.Complete.{IsValid, validate-IsValid}
use mkdeb.Config.{new_package_spec_from_file}
use mkdeb.Build.{BuildError, Member, build}
use mkdeb.Cli.{CliError, choose_target, valid_or, prepare_build}
use mkdeb.Cli.Commands.{IsBuild, main_command-IsBuild, prepare_build_inv}
use mkdeb.Cli.Run.{
  System, Failure, Ending, built, exit_status, Run, enter, lift_cli, lift_build, run_build, ended,
  run_command, run_main,
}
use mkdeb.Cli.Run.Entered.{IsEntered, enter_inv, enter_lem}

-- The package was built from a configuration, a version and a target.
pub record IsBuilt (system : System) (config version target : Bytes) : Type 0 where
  pub abspath : Bytes
  pub entered : IsEntered system config abspath
  pub spec : PackageSpec
  pub chosen : Bytes
  pub members : List Member
  pub has_spec :
      new_package_spec_from_file system.decode (system.disk_in (dir_part abspath)) abspath
      ≡ some spec
  pub has_target :
      choose_target (system.disk_in (dir_part abspath)) (dir_part abspath) target ≡ ok chosen
  pub has_valid : IsValid (record spec { version = version }) true
  pub has_members :
      build
        (system.world_of chosen)
        system.sink
        system.md5
        system.pieces
        (system.disk_in (dir_part abspath))
        system.now
        (system.orders_of (record spec { version = version }))
        (record spec { version = version })
      ≡ ok members

-- The ending of such a build.
abbrev pub ending_of :
    {system : System} {config version target : Bytes}
    → IsBuilt system config version target
    → Ending
ending_of {version = version} b =
    built (path_join (b.chosen ∷ filename (record b.spec { version = version }) ∷ [])) b.members

module _ (system : System) (config version target : Bytes) where
  lift_cli_inv : {A : Type 0} (r : Result CliError A) (a : A) → lift_cli r ≡ ok a → r ≡ ok a
  lift_cli_inv (ok b) a h = cc
  lift_cli_inv (err e) a h = cc

  lift_build_inv : {A : Type 0} (r : Result BuildError A) (a : A) → lift_build r ≡ ok a → r ≡ ok a
  lift_build_inv (ok b) a h = cc
  lift_build_inv (err e) a h = cc

  prepare_build-IsBuilt :
      (paths : Bytes × Bytes) (prepared : PackageSpec × Bytes) (members : List Member)
      → IsEntered system config paths.1
      → paths.0 ≡ dir_part paths.1
      → prepare_build
          (new_package_spec_from_file system.decode (system.disk_in paths.0))
          (system.disk_in paths.0)
          paths.0
          paths.1
          version
          target
        ≡ ok prepared
      → build
          (system.world_of prepared.1)
          system.sink
          system.md5
          system.pieces
          (system.disk_in paths.0)
          system.now
          (system.orders_of prepared.0)
          prepared.0
        ≡ ok members
      → IsBuilt system config version target
  prepare_build-IsBuilt (workdir, abspath) (p, chosen) members e w h k =
      let disk = system.disk_in (dir_part abspath) in
      let h' : prepare_build (new_package_spec_from_file system.decode disk) disk (dir_part abspath)
            abspath version target
          ≡ ok (p, chosen) =
        subst
          (λ (d : Bytes).
            prepare_build (new_package_spec_from_file system.decode (system.disk_in d))
              (system.disk_in d) d abspath version target
            ≡ ok (p, chosen))
          w h in
      let (q, eq, et, v, ep) =
        prepare_build_inv (new_package_spec_from_file system.decode disk) disk (dir_part abspath)
          abspath version target p chosen h' in
      let made : Bytes → PackageSpec → Result BuildError (List Member) = λ d x.
        build (system.world_of chosen) system.sink system.md5 system.pieces (system.disk_in d)
          system.now (system.orders_of x) x in
      record {
        abspath = abspath;
        entered = e;
        spec = q;
        chosen = chosen;
        members = members;
        has_spec = eq;
        has_target = et;
        has_valid = v;
        has_members =
            ap (λ (d : Bytes). made d (record q { version = version })) (sym w)
            ∙ ap (made workdir) ep
            ∙ k;
      }

  run_build_inv :
      (ending : Ending)
      → run_build system config version target ≡ ok ending
      → IsBuilt system config version target
  unfolding run_build
  run_build_inv ending h =
      let (paths, e1, h1) = >>=-eq-ok (enter system config) _ h in
      let (prepared, e2, h2) =
        >>=-eq-ok
          (lift_cli (
            prepare_build (new_package_spec_from_file system.decode (system.disk_in paths.0))
              (system.disk_in paths.0) paths.0 paths.1 version target))
          _ h1 in
      let (members, e3, h3) =
        >>=-eq-ok
          (lift_build (
            build (system.world_of prepared.1) system.sink system.md5 system.pieces
              (system.disk_in paths.0) system.now (system.orders_of prepared.0) prepared.0))
          _ h2 in
      let (e, w) = enter_inv system config paths e1 in
      prepare_build-IsBuilt paths prepared members e w (lift_cli_inv _ prepared e2)
        (lift_build_inv _ members e3)

  run_build_lem :
      (b : IsBuilt system config version target)
      → run_build system config version target ≡ ok (ending_of b)
  unfolding run_build prepare_build valid_or
  run_build_lem b =
      rw
        (
          enter_lem system config b.abspath b.entered,
          b.has_spec,
          b.has_target,
          (validate-IsValid (record b.spec { version = version }) true).1 b.has_valid,
          b.has_members,
        )
        refl

  ended-IsBuilt :
      (r : Result Failure Ending)
      → run_build system config version target ≡ r
      → exit_status (ended r).0 ≡ 0
      → IsBuilt system config version target
  ended-IsBuilt (ok ending) q k = run_build_inv ending q
  ended-IsBuilt (err e) q k = absurd (omega (arith, k))

  -- A run of `build` ends with the status 0 exactly if the package was built: the directory of the
  -- configuration can be changed to, the file decodes to a specification that is valid with the
  -- version of the flag, the target is the configuration's directory or the flag's directory as seen
  -- from there, and `Build` makes the members. The run ends with the path of the package then.
  pub run_main-IsBuilt :
      (args : List Bytes)
      → IsBuild system.parse_flags args config version target
      → (exit_status (run_main system args).0 ≡ 0 → IsBuilt system config version target)
        × ((b : IsBuilt system config version target) → run_main system args ≡ (ending_of b, none))
  unfolding run_main run_command
  run_main-IsBuilt args h =
      let nothing : Option (Bytes × Bytes) = none in
      let e : run_main system args ≡ ended (run_build system config version target) =
        ap (run_command system)
          ((main_command-IsBuild system.parse_flags args config version target).1 h) in
      (
        λ k.
            ended-IsBuilt (run_build system config version target) refl
              (ap (λ (x : Run). exit_status x.0) (sym e) ∙ k),
        λ b. e ∙ ap ended (run_build_lem b),
      )
