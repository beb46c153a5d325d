-- ===== src/Config.antt =====
-- deb/package.go: `NewPackageSpecFromJSON` and `NewPackageSpecFromFile`. `json.Unmarshal` is a
-- parameter: what it makes of the specification that it is given and of some data, or `none` for an
-- error.
use mkdeb.Prelude.{Option, none, some, Bytes}
use mkdeb.Spec.{PackageSpec, default_package_spec}
use mkdeb.Disk.{Disk}

abbrev pub Decoder : Type 0
Decoder = PackageSpec → Bytes → Option PackageSpec

-- `NewPackageSpecFromJSON`.
abbrev pub new_package_spec_from_json : Decoder → Bytes → Option PackageSpec
new_package_spec_from_json decode bytes = decode default_package_spec bytes

-- What was read of the file, or an error.
abbrev pub from_data : Decoder → Option Bytes → Option PackageSpec
from_data decode none = none
from_data decode (some bytes) = new_package_spec_from_json decode bytes

-- `NewPackageSpecFromFile`.
abbrev pub new_package_spec_from_file : Decoder → Disk → Bytes → Option PackageSpec
new_package_spec_from_file decode disk filename = from_data decode (disk.read_file filename)
