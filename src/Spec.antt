-- ===== src/Spec.antt =====
-- deb/package.go: the package specification, its defaults, the supported architectures, the name of
-- the built file and the list helpers. Strings are byte lists. The map `Files` is an association
-- list with one entry for each key; where the code ranges over it, the order is an argument.
pub mod Strings
use mkdeb.Prelude.{
  ℕ, Bool, true, false, List, [], ◌∷◌, ◌++◌, Option, none, some, Bytes, codes, bytes_eq, join,
  if◌then◌else◌,
}

pub record PackageSpec : Type 0 where
  pub package_name : Bytes
  pub version : Bytes
  pub architecture : Bytes
  pub maintainer : Bytes
  pub description : Bytes
  pub depends : List Bytes
  pub pre_depends : List Bytes
  pub conflicts : List Bytes
  pub breaks : List Bytes
  pub replaces : List Bytes
  pub section : Bytes
  pub priority : Bytes
  pub homepage : Bytes
  pub preinst : Bytes
  pub postinst : Bytes
  pub prerm : Bytes
  pub postrm : Bytes
  pub auto_path : Bytes
  pub files : List (Bytes × Bytes)
  pub temp_path : Bytes
  pub preserve_symlinks : Bool
  pub upgrade_configs : Bool
  pub installed_size : ℕ

-- `DefaultPackageSpec`; what the literal leaves out is Go's zero value.
abbrev pub default_package_spec : PackageSpec
default_package_spec = record {
  package_name = [];
  version = [];
  architecture = [];
  maintainer = [];
  description = [];
  depends = [];
  pre_depends = [];
  conflicts = [];
  breaks = [];
  replaces = [];
  section = codes "default";
  priority = codes "extra";
  homepage = [];
  preinst = [];
  postinst = [];
  prerm = [];
  postrm = [];
  auto_path = codes "deb-pkg";
  files = [];
  temp_path = [];
  preserve_symlinks = false;
  upgrade_configs = false;
  installed_size = 0;
}

abbrev pub control_files : List Bytes
control_files = codes "preinst" ∷ codes "postinst" ∷ codes "prerm" ∷ codes "postrm" ∷ []

abbrev pub supported_architectures : List Bytes
supported_architectures =
    codes "all"
    ∷ codes "amd64"
    ∷ codes "arm64"
    ∷ codes "armel"
    ∷ codes "armhf"
    ∷ codes "i386"
    ∷ codes "mips"
    ∷ codes "mipsel"
    ∷ codes "powerpc"
    ∷ codes "ppc64el"
    ∷ codes "s390x"
    ∷ []

-- `hasString`.
unfoldable pub has_string : List Bytes → Bytes → Bool
has_string [] search = false
has_string (item ∷ items) search =
    let rest = has_string items search in if bytes_eq item search then true else rest

-- `Filename`.
unfoldable pub filename : PackageSpec → Bytes
filename p =
    p.package_name ++ (codes "-" ++ (p.version ++ (codes "-" ++ (p.architecture ++ codes ".deb"))))

-- The helper `join` of the control file's template.
unfoldable pub join_commas : List Bytes → Bytes
join_commas s = join s (codes ", ")
