-- ===== src/Cli.antt =====
-- main.go: the dispatch over the commands, and what `build` and `init` hand to the package. The flag
-- set of `build`, the JSON decoder and the file system are parameters.
pub mod Commands
pub mod Start
pub mod Run
mod Tests
mod RunTests
use mkdeb.Prelude.{
  Bool, true, false, List, [], ◌∷◌, ◌++◌, Option, none, some, Bytes, codes, bytes_eq, Result, ok,
  err, ◌>>=◌, or_err, if◌then◌else◌,
}
use mkdeb.Spec.{PackageSpec, default_package_spec}
use mkdeb.FilePath.{base}
use mkdeb.Disk.{Disk, FileInfo, is_dir}
use mkdeb.Validate.{ValidateError, validate}

-- What `main` goes on to do. The usage, a missing or a second configuration file and a flag that does
-- not parse print a message and exit.
pub data Command : Type 0 where
  show_usage show_archs initialize missing_config too_many_arguments bad_flags : Command
  build_config : Bytes → Bytes → Bytes → Command
  validate_config : Bytes → Command

-- `checkConfig`.
unfoldable pub check_config : List Bytes → (Bytes → Command) → Command
check_config [] go = missing_config
check_config (config ∷ []) go = go config
check_config (config ∷ _ ∷ _) go = too_many_arguments

-- The command `build` with its flags: the version, the target and the arguments left.
pub build_command : Option (Bytes × Bytes × List Bytes) → Command
unfolding check_config
build_command none = bad_flags
build_command (some (version, target, rest)) =
    check_config rest λ config. build_config config version target

-- The switch of `main`. `validate` takes its arguments from `flag.Args`, which is empty, since
-- `flag.Parse` is not called.
pub main_switch : (List Bytes → Option (Bytes × Bytes × List Bytes)) → Bytes → List Bytes → Command
unfolding build_command
main_switch flags name rest =
    if bytes_eq name (codes "archs")
    then show_archs
    else if bytes_eq name (codes "build")
    then build_command (flags rest)
    else if bytes_eq name (codes "init")
    then initialize
    else if bytes_eq name (codes "validate")
    then check_config [] validate_config
    else show_usage

-- `main` on `os.Args`.
unfoldable pub main_command :
    (List Bytes → Option (Bytes × Bytes × List Bytes)) → List Bytes → Command
unfolding main_switch
main_command flags [] = show_usage
main_command flags (program ∷ []) = show_usage
main_command flags (program ∷ name ∷ rest) = main_switch flags name rest

pub data CliError : Type 0 where
  bad_config : Bytes → CliError
  not_a_directory : Bytes → CliError
  invalid_package : ValidateError → CliError

-- `isDir`.
dir_of : Option FileInfo → Bool
dir_of none = false
dir_of (some info) = is_dir info

unfoldable pub is_dir_path : Disk → Bytes → Bool
unfolding dir_of
is_dir_path disk path = dir_of (disk.stat path)

-- The target of `build`: the directory of the configuration, or the flag's if it is a directory.
unfoldable pub choose_target : Disk → Bytes → Bytes → Result CliError Bytes
unfolding is_dir_path
choose_target disk workdir target =
    if bytes_eq target []
    then ok workdir
    else if is_dir_path disk target
    then ok target
    else err (not_a_directory target)

pub valid_or : Option ValidateError → PackageSpec × Bytes → Result CliError (PackageSpec × Bytes)
valid_or none result = ok result
valid_or (some e) result = err (invalid_package e)

-- `build` up to the call of `p.Build(target)`: the specification and the target. `parse` is
-- `NewPackageSpecFromFile`.
unfoldable pub prepare_build :
    (Bytes → Option PackageSpec)
    → Disk
    → Bytes
    → Bytes
    → Bytes
    → Bytes
    → Result CliError (PackageSpec × Bytes)
unfolding choose_target valid_or
prepare_build parse disk workdir abspath version target = do
  p ← or_err (parse abspath) (bad_config abspath)
  chosen ← choose_target disk workdir target
  let versioned = record p { version = version }
  valid_or (validate versioned true) (versioned, chosen)

-- The specification that `initialize` writes.
unfoldable pub initial_package : Bytes → PackageSpec
initial_package workdir =
    let project_name = base workdir in
    record default_package_spec {
      package_name = project_name;
      maintainer = codes "Your Name <you@example.com>";
      architecture = codes "amd64";
      description = project_name ++ codes " is an awsome project for...";
      homepage = codes "https://www.example.com/project";
      files = (project_name, codes "/usr/local/bin/" ++ project_name) ∷ [];
    }
