-- ===== src/Cli/Run.antt =====
-- main.go: whole runs of the program, from its arguments to its exit status. What the operating system
-- answers to a run is a record; the files that are seen depend on the working directory. The deferred
-- change back to the first working directory has no effect on the run and is left out.
pub mod Entered
pub mod Outcome
pub mod Initialized
use mkdeb.Prelude.{
  ℕ, Bool, true, false, List, [], ◌∷◌, ◌++◌, Option, none, some, Bytes, codes, has_byte, join,
  Result, ok, err, ◌>>=◌, or_err, if◌then◌else◌, take, ◌==◌,
}
use mkdeb.Spec.{PackageSpec, filename, supported_architectures}
use mkdeb.FilePath.{dir_part, path_join}
use mkdeb.Disk.{Disk, Time, file_exists}
use mkdeb.Validate.{ValidateError, validate}
use mkdeb.Config.{Decoder, new_package_spec_from_file}
use mkdeb.Tar.Writer.{Sink}
use mkdeb.Build.{BuildError, Member, World, Orders, build}
use mkdeb.Cli.{
  Command, show_usage, show_archs, initialize, missing_config, too_many_arguments, bad_flags,
  build_config, validate_config, main_command, CliError, bad_config, invalid_package, prepare_build,
  initial_package,
}

-- The operating system, and what the program takes from elsewhere.
pub record System : Type 0 where
  pub getwd : Option Bytes
  pub absolute : Bytes → Option Bytes
  pub chdir : Bytes → Bool
  pub disk_in : Bytes → Disk
  pub create_file : Bytes → Bool
  pub write_file : Bytes → Option ℕ
  pub decode : Decoder
  pub encode : PackageSpec → Option Bytes
  pub parse_flags : List Bytes → Option (Bytes × Bytes × List Bytes)
  pub world_of : Bytes → World
  pub sink : Sink
  pub md5 : Bytes → Bytes
  pub pieces : Bytes → List Bytes
  pub now : Time
  pub orders_of : PackageSpec → Orders

-- Why a run ends with a message and the status 1.
pub data Failure : Type 0 where
  no_directory : Failure
  no_path : Bytes → Failure
  no_change : Bytes → Failure
  config_exists : Bytes → Failure
  not_created : Bytes → Failure
  not_encoded : Failure
  not_written : Bytes → Failure
  cli_failed : CliError → Failure
  build_failed : BuildError → Failure

-- How a run ends.
pub data Ending : Type 0 where
  usage_shown config_missing arguments_left flags_refused : Ending
  archs_shown : Bytes → Ending
  initialized validated : Ending
  built : Bytes → List Member → Ending
  failed : Failure → Ending

-- `flag.ExitOnError` exits with 2, and `os.Exit` is called with 1 or 0 for the others.
abbrev pub exit_status : Ending → ℕ
exit_status usage_shown = 1
exit_status (archs_shown text) = 0
exit_status config_missing = 1
exit_status arguments_left = 1
exit_status flags_refused = 2
exit_status initialized = 0
exit_status validated = 0
exit_status (built path members) = 0
exit_status (failed e) = 1

-- A run: how it ends, and the configuration that it wrote.
abbrev pub Run : Type 0
Run = Ending × Option (Bytes × Bytes)

-- `getAbsPaths`: the directory of a file and its absolute path.
unfoldable pub get_abs_paths : System → Bytes → Result Failure (Bytes × Bytes)
unfolding dir_part
get_abs_paths system name =
    or_err (system.absolute name) (no_path name) >>= λ path. ok (dir_part path, path)

abbrev pub change_to : System → Bytes → Result Failure (Unit {0})
change_to system workdir = if system.chdir workdir then ok tt else err (no_change workdir)

-- The directory of the configuration, which the run changes to, and the path of the configuration.
unfoldable pub enter : System → Bytes → Result Failure (Bytes × Bytes)
unfolding get_abs_paths
enter system config = do
  _ ← or_err system.getwd no_directory
  paths ← get_abs_paths system config
  _ ← change_to system paths.0
  ok paths

abbrev pub lift_cli {ℓ} : {A : Type ℓ} → Result CliError A → Result Failure A
lift_cli (ok a) = ok a
lift_cli (err e) = err (cli_failed e)

abbrev pub lift_build {ℓ} : {A : Type ℓ} → Result BuildError A → Result Failure A
lift_build (ok a) = ok a
lift_build (err e) = err (build_failed e)

abbrev pub when_valid : Option ValidateError → Result Failure Ending
when_valid none = ok validated
when_valid (some e) = err (cli_failed (invalid_package e))

-- `validate`.
unfoldable pub run_validate : System → Bytes → Result Failure Ending
unfolding enter
run_validate system config = do
  paths ← enter system config
  p ←
      or_err (new_package_spec_from_file system.decode (system.disk_in paths.0) paths.1)
        (cli_failed (bad_config paths.1))
  when_valid (validate p false)

-- `build`.
unfoldable pub run_build : System → Bytes → Bytes → Bytes → Result Failure Ending
unfolding enter
run_build system config version target = do
  paths ← enter system config
  let disk = system.disk_in paths.0
  let parse = new_package_spec_from_file system.decode disk
  prepared ← lift_cli (prepare_build parse disk paths.0 paths.1 version target)
  let p = prepared.0
  members ← lift_build (
      build (system.world_of prepared.1) system.sink system.md5 system.pieces disk system.now
        (system.orders_of p) p)
  ok (built (path_join (prepared.1 ∷ filename p ∷ [])) members)

-- The end of `initialize` behind the created file: the specification is encoded and written.
abbrev pub written : Bytes → Bytes → Option ℕ → Run
written target bytes none = (initialized, some (target, bytes))
written target bytes (some n) = (failed (not_written target), some (target, take n bytes))

abbrev pub write_config : System → Bytes → Option Bytes → Run
write_config system target none = (failed not_encoded, some (target, []))
write_config system target (some bytes) = written target bytes (system.write_file bytes)

abbrev pub create_config : System → Bytes → Bytes → Run
create_config system workdir target =
    if file_exists (system.disk_in workdir) target
    then (failed (config_exists target), none)
    else if system.create_file target
    then write_config system target (system.encode (initial_package workdir))
    else (failed (not_created target), none)

abbrev pub workdir_of : System → Result Failure Bytes
workdir_of system =
    or_err system.getwd no_directory >>= λ workdir. or_err (system.absolute workdir) no_directory

abbrev pub initialize_in : System → Result Failure Bytes → Run
initialize_in system (err e) = (failed e, none)
initialize_in system (ok workdir) =
    create_config system workdir (path_join (workdir ∷ codes "mkdeb.json" ∷ []))

-- `initialize`.
unfoldable pub run_initialize : System → Run
run_initialize system = initialize_in system (workdir_of system)

abbrev pub ended : Result Failure Ending → Run
ended (ok e) = (e, none)
ended (err e) = (failed e, none)

-- What `showArchs` prints.
abbrev pub archs_text : Bytes
archs_text =
    codes "mkdeb supported architectures: "
    ++ join supported_architectures (codes ", ")
    ++ codes "\n"

-- The command that `main` has chosen.
unfoldable pub run_command : System → Command → Run
unfolding run_initialize run_validate run_build
run_command system show_usage = (usage_shown, none)
run_command system show_archs = (archs_shown archs_text, none)
run_command system initialize = run_initialize system
run_command system missing_config = (config_missing, none)
run_command system too_many_arguments = (arguments_left, none)
run_command system bad_flags = (flags_refused, none)
run_command system (build_config config version target) =
    ended (run_build system config version target)
run_command system (validate_config config) = ended (run_validate system config)

-- The program on its arguments.
unfoldable pub run_main : System → List Bytes → Run
unfolding run_command
run_main system args = run_command system (main_command system.parse_flags args)
