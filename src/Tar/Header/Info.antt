-- ===== src/Tar/Header/Info.antt =====
-- deb/tar/common.go: `headerFileInfo`, a header as an `os.FileInfo`.
use mkdeb.Prelude.{ℕ, ◌-◌, ◌/◌, ◌%◌, ◌^◌, Bool, ◌||◌, ◌==◌, Bytes, if◌then◌else◌}
use mkdeb.FilePath.{base, clean}
use mkdeb.Disk.{directory, symlink, char_device, block_device, named_pipe, socket, Time}
use mkdeb.Tar.Header.{Header, kind_bits, type_symlink, type_char, type_block, type_dir, type_fifo}

-- An `os.FileMode`: the permission bits, and a Boolean for each other bit.
pub record FileMode : Type 0 where
  pub perm : ℕ
  pub setuid : Bool
  pub setgid : Bool
  pub sticky : Bool
  pub dir : Bool
  pub pipe : Bool
  pub link : Bool
  pub device : Bool
  pub char : Bool
  pub sock : Bool

-- What an `os.FileInfo` says.
pub record Reported : Type 0 where
  pub name : Bytes
  pub size : ℕ
  pub mode : FileMode
  pub mod_time : Time

abbrev pub has_bit : ℕ → ℕ → Bool
has_bit mode bit = (mode / bit) % 2 == 1

-- The bits above the permissions and the set-id bits, in the 32 bits of an `os.FileMode`.
abbrev pub type_bits : ℕ → ℕ
type_bits mode = mode % 2 ^ 32 - mode % 2 ^ 32 % 0o10000

-- `Mode`: the type bits, or the type flag.
unfoldable pub header_mode : Header → FileMode
header_mode h =
    let m = type_bits h.mode in
    let flag = h.type_flag in
    record {
      perm = h.mode % 2 ^ 32 % 0o1000;
      setuid = has_bit h.mode 0o4000;
      setgid = has_bit h.mode 0o2000;
      sticky = has_bit h.mode 0o1000;
      dir = m == kind_bits directory || flag == type_dir;
      pipe = m == kind_bits named_pipe || flag == type_fifo;
      link = m == kind_bits symlink || flag == type_symlink;
      device =
          m == kind_bits block_device
          || m == kind_bits char_device
          || flag == type_char
          || flag == type_block;
      char = m == kind_bits char_device || flag == type_char;
      sock = m == kind_bits socket;
    }

-- `Name`.
unfoldable pub header_name : Header → Bytes
unfolding header_mode
header_name h = if (header_mode h).dir then base (clean h.name) else base h.name

-- `FileInfo`.
unfoldable pub header_file_info : Header → Reported
unfolding header_name
header_file_info h = record {
  name = header_name h;
  size = h.size;
  mode = header_mode h;
  mod_time = h.mod_time;
}
