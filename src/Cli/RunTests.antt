-- ===== src/Cli/RunTests.antt =====
-- Runs of the program in a small system.
use mkdeb.FilePath.{dir_part}
use mkdeb.Prelude.{
  true, ◌≡◌, ◌≢◌, ◌↔◌, refl, List, [], ◌∷◌, Option, none, some, Bytes, codes, ok, pos,
}
use mkdeb.Disk.{Disk, file_exists}
use mkdeb.Config.{new_package_spec_from_file}
use mkdeb.Build.{World, Orders}
use mkdeb.Cli.{prepare_build, initial_package}
use mkdeb.Cli.Commands.{IsBuild}
use mkdeb.Cli.Run.{
  System, initialized, validated, failed, config_exists, exit_status, run_main, run_initialize,
  run_validate,
}
use mkdeb.Cli.Run.Entered.{IsEntered}
use mkdeb.Cli.Run.Outcome.{IsBuilt, ending_of, run_main-IsBuilt}
use mkdeb.Cli.Run.Initialized.{
  config_in, IsWritable, run_initialize-IsWritable, run_initialize-validate,
}
use mkdeb.Samples.{sample_md5}

abbrev here : Bytes
here = codes "/w/hello"

-- A disk whose only file is `name`, with the contents `content`.
abbrev empty_disk : Option Bytes → Disk
empty_disk content = record {
  stat = λ f. none;
  lstat = λ f. none;
  walk = λ f. [];
  read_file = λ f. content;
  read_part = λ f. [];
}

abbrev good_world : World
good_world = record {
  temp_dir = true;
  make_dir = true;
  create = true;
  create_control = true;
  create_data = true;
  takes = λ members m. true;
  stored = λ bytes. some (codes "gz");
  closes = true;
}

abbrev no_orders : Orders
no_orders = record { sums = []; conffiles = []; files = []; scripts = λ scripts. scripts }

-- A system in which mkdeb.json holds `content`, if it is there.
abbrev system_with : Option Bytes → System
system_with content = record {
  getwd = some here;
  absolute = λ f. some f;
  chdir = λ d. true;
  disk_in = λ d. empty_disk content;
  create_file = λ f. true;
  write_file = λ b. none;
  decode = λ p b. some (initial_package here);
  encode = λ p. some (codes "{}");
  parse_flags = λ rest. some (codes "1.0", [], rest);
  world_of = λ target. good_world;
  sink = λ out chunk. none;
  md5 = sample_md5;
  pieces = λ b. b ∷ [];
  now = record { seconds = pos 0; nanos = 0 };
  orders_of = λ p. no_orders;
}

abbrev args : List Bytes
args = codes "mkdeb" ∷ codes "build" ∷ codes "/w/hello/mkdeb.json" ∷ []

args-IsBuild :
    IsBuild (system_with none).parse_flags args (codes "/w/hello/mkdeb.json") (codes "1.0") []
args-IsBuild = (codes "mkdeb", codes "/w/hello/mkdeb.json" ∷ [], refl, refl)

run_main-IsBuilt_example :
    (exit_status (run_main (system_with (some (codes "{}"))) args).0 ≡ 0
      → IsBuilt (system_with (some (codes "{}"))) (codes "/w/hello/mkdeb.json") (codes "1.0") [])
    × ((b : IsBuilt
          (system_with (some (codes "{}")))
          (codes "/w/hello/mkdeb.json")
          (codes "1.0")
          [])
        → run_main (system_with (some (codes "{}"))) args ≡ (ending_of b, none))
run_main-IsBuilt_example =
    run_main-IsBuilt (system_with (some (codes "{}"))) (codes "/w/hello/mkdeb.json") (codes "1.0")
      [] args args-IsBuild

run_initialize-IsWritable_example :
    ((run_initialize (system_with none) ≡ (initialized, some (config_in here, codes "{}")))
      ↔ IsWritable (system_with none) here (codes "{}"))
    × (file_exists ((system_with none).disk_in here) (config_in here) ≡ true
        → run_initialize (system_with none) ≡ (failed (config_exists (config_in here)), none))
run_initialize-IsWritable_example =
    run_initialize-IsWritable (system_with none) here here refl refl (codes "{}")

initializes : run_initialize (system_with none) ≡ (initialized, some (config_in here, codes "{}"))
unfolding run_initialize file_exists
initializes = refl

enters :
    IsEntered
      (system_with (some (codes "{}")))
      (codes "/w/hello/mkdeb.json")
      (codes "/w/hello/mkdeb.json")
enters = record { before = here; has_before = refl; has_path = refl; has_changed = refl }

run_initialize-validate_example :
    (run_validate (system_with (some (codes "{}"))) (codes "/w/hello/mkdeb.json") ≡ ok validated)
    × ((version : Bytes)
        → version ≢ []
        → prepare_build
            (new_package_spec_from_file
              (system_with (some (codes "{}"))).decode
              (empty_disk (some (codes "{}"))))
            (empty_disk (some (codes "{}")))
            (dir_part (codes "/w/hello/mkdeb.json"))
            (codes "/w/hello/mkdeb.json")
            version
            []
          ≡ ok (
            record (initial_package here) { version = version },
            dir_part (codes "/w/hello/mkdeb.json"),
          ))
run_initialize-validate_example =
    run_initialize-validate (system_with none) here here refl refl (codes "{}") initializes
      (system_with (some (codes "{}"))) (codes "/w/hello/mkdeb.json") (codes "/w/hello/mkdeb.json")
      enters refl (λ e. refl)
