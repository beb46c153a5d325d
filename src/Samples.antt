-- ===== src/Samples.antt =====
-- A small package, a disk that holds its files, and what the modules' tests expect of them.
use mkdeb.Prelude.{
  Bool, true, false, ◌||◌, List, [], ◌∷◌, Option, none, some, Bytes, codes, bytes_eq, if◌then◌else◌,
  pos, length, replicate, ◌%◌,
}
use mkdeb.Spec.{PackageSpec, default_package_spec}
use mkdeb.Disk.{Disk, FileInfo, Visit, regular, directory, FileKind}

abbrev pub sample_package : PackageSpec
sample_package = record default_package_spec {
  package_name = codes "hello";
  version = codes "1.0";
  architecture = codes "amd64";
  maintainer = codes "A <a@example.com>";
  description = codes "says hello";
  depends = codes "libc (>= 2.14)" ∷ codes "tree" ∷ [];
  files = (codes "bin/hello", codes "/usr/bin/hello") ∷ [];
}

abbrev pub sample_keys : List Bytes
sample_keys = codes "bin/hello" ∷ []

abbrev pub sample_info : FileKind → FileInfo
sample_info kind = record {
  name = codes "hello";
  size = 4;
  kind = kind;
  perm = 0o644;
  setuid = false;
  setgid = false;
  sticky = false;
  mod_time = record { seconds = pos 1000000000; nanos = 0 };
  uid = 1000;
  gid = 100;
}

sample_stat : Bytes → Option FileInfo
sample_stat f =
    if bytes_eq f (codes "deb-pkg") || bytes_eq f (codes "deb-pkg/etc")
    then some (sample_info directory)
    else if bytes_eq f (codes "bin/hello")
    then some (sample_info regular)
    else if bytes_eq f (codes "deb-pkg/etc/hello.conf")
    then some (sample_info regular)
    else if bytes_eq f (codes "deb-pkg/preinst")
    then some (sample_info regular)
    else none

abbrev visited : Bytes → Bool → Visit
visited path at_dir = record { path = path; at_dir = at_dir; failed = false }

unfoldable pub sample_disk : Disk
unfolding sample_stat
sample_disk = record {
  stat = sample_stat;
  lstat = sample_stat;
  walk = λ root.
      visited (codes "deb-pkg") true
      ∷ visited (codes "deb-pkg/etc") true
      ∷ visited (codes "deb-pkg/etc/hello.conf") false
      ∷ visited (codes "deb-pkg/preinst") false
      ∷ [];
  read_file = λ f. some (codes "data");
  read_part = λ f. [];
}

abbrev pub sample_files : List Bytes
sample_files = codes "deb-pkg/etc/hello.conf" ∷ codes "bin/hello" ∷ []

-- A digest of 16 bytes.
abbrev pub sample_md5 : Bytes → Bytes
sample_md5 s = length s % 256 ∷ replicate 15 0
