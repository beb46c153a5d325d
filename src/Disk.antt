-- ===== src/Disk.antt =====
-- What the program sees of the file system through Go's `os` and `path/filepath`, at one moment: the
-- answers of `Stat`, `Lstat`, `Walk` and of reading a file. deb/package.go: `FileExists`.
use mkdeb.Prelude.{ℕ, Bool, true, false, List, Option, none, some, Bytes, ℤ}

-- The type bits of an `os.FileMode`.
pub data FileKind : Type 0 where
  regular directory symlink char_device block_device named_pipe socket irregular : FileKind

-- A `time.Time`: the seconds since 1970, and nanoseconds.
pub record Time : Type 0 where
  pub seconds : ℤ
  pub nanos : ℕ

-- `os.FileInfo`: `perm` is the nine permission bits; `uid` and `gid` are those of the `syscall.Stat_t`
-- behind `Sys`.
pub record FileInfo : Type 0 where
  pub name : Bytes
  pub size : ℕ
  pub kind : FileKind
  pub perm : ℕ
  pub setuid : Bool
  pub setgid : Bool
  pub sticky : Bool
  pub mod_time : Time
  pub uid : ℕ
  pub gid : ℕ

abbrev pub is_dir : FileInfo → Bool
is_dir info = elim info.kind [ directory ↦ true | _ ↦ false ]

-- One call that `filepath.Walk` makes of its function; `failed` says that it passes an error.
pub record Visit : Type 0 where
  pub path : Bytes
  pub at_dir : Bool
  pub failed : Bool

-- `none` is an error of the call. Where reading a file fails, `read_part` is what comes before the error;
-- a file that cannot be opened has no bytes.
pub record Disk : Type 0 where
  pub stat : Bytes → Option FileInfo
  pub lstat : Bytes → Option FileInfo
  pub walk : Bytes → List Visit
  pub read_file : Bytes → Option Bytes
  pub read_part : Bytes → Bytes

abbrev is_some {ℓ} : {A : Type ℓ} → Option A → Bool
is_some none = false
is_some (some a) = true

-- `FileExists`.
unfoldable pub file_exists : Disk → Bytes → Bool
file_exists disk path = is_some (disk.stat path)
