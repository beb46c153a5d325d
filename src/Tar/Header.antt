-- ===== src/Tar/Header.antt =====
-- deb/tar/common.go: the header of an entry and `FileInfoHeader`; deb/tar/stat_unix.go: the owner that
-- `statUnix` sets. The access and change times and the
-- extended attributes, which a PAX header alone would hold, are not fields of the model.
pub mod Kinds
pub mod Info
pub mod ModeBits
pub mod InfoBack
use mkdeb.Prelude.{
  ℕ, ◌+◌, Bool, ◌||◌, if◌then◌else◌, ◌++◌, [], ◌∷◌, Option, none, some, Bytes, ℤ, pos, ◌==◌,
}
use mkdeb.Disk.{
  FileKind, regular, directory, symlink, char_device, block_device, named_pipe, socket, irregular,
  FileInfo, Time,
}

abbrev pub type_reg : ℕ
type_reg = b'0'

abbrev pub type_symlink : ℕ
type_symlink = b'2'

abbrev pub type_char : ℕ
type_char = b'3'

abbrev pub type_block : ℕ
type_block = b'4'

abbrev pub type_dir : ℕ
type_dir = b'5'

abbrev pub type_fifo : ℕ
type_fifo = b'6'

abbrev pub type_gnu_long_name : ℕ
type_gnu_long_name = b'L'

-- `Header`. A size comes from `len` or from a file, so it is not negative.
pub record Header : Type 0 where
  pub name : Bytes
  pub mode : ℕ
  pub uid : ℤ
  pub gid : ℤ
  pub size : ℕ
  pub mod_time : Time
  pub type_flag : ℕ
  pub link_name : Bytes
  pub uname : Bytes
  pub gname : Bytes
  pub dev_major : ℤ
  pub dev_minor : ℤ

-- The `c_IS*` bit of a kind. They and the set-id bits lie above the permission bits and apart from
-- each other, so that `|=` adds them.
abbrev pub kind_bits : FileKind → ℕ
kind_bits regular = 0o100000
kind_bits directory = 0o40000
kind_bits symlink = 0o120000
kind_bits char_device = 0o20000
kind_bits block_device = 0o60000
kind_bits named_pipe = 0o10000
kind_bits socket = 0o140000
kind_bits irregular = 0

-- The type flag; a socket's stays zero.
abbrev pub kind_flag : FileKind → ℕ
kind_flag regular = type_reg
kind_flag directory = type_dir
kind_flag symlink = type_symlink
kind_flag char_device = type_char
kind_flag block_device = type_block
kind_flag named_pipe = type_fifo
kind_flag socket = 0
kind_flag irregular = 0

unfoldable pub set_bits : FileInfo → ℕ
set_bits info =
    (if info.setuid then 0o4000 else 0)
    + (if info.setgid then 0o2000 else 0)
    + (if info.sticky then 0o1000 else 0)

unfoldable pub header_of : FileInfo → Bytes → ℕ → Bytes → ℤ × ℤ → Header
header_of info name size link (uid, gid) = record {
  name = name;
  mode = info.perm + kind_bits info.kind + set_bits info;
  uid = uid;
  gid = gid;
  size = size;
  mod_time = info.mod_time;
  type_flag = kind_flag info.kind;
  link_name = link;
  uname = [];
  gname = [];
  dev_major = pos 0;
  dev_minor = pos 0;
}

-- `statUnix`: the owner of a file on a Unix system.
abbrev pub stat_unix : FileInfo → ℤ × ℤ
stat_unix info = (pos info.uid, pos info.gid)

-- `FileInfoHeader` of what the operating system says of a file, whose owner `sysStat` fills in;
-- `none` is an unknown file mode.
unfoldable pub file_header : FileInfo → Bytes → ℤ × ℤ → FileKind → Option Header
file_header info link owner regular = some (header_of info info.name info.size [] owner)
file_header info link owner directory = some (header_of info (info.name ++ b'/' ∷ []) 0 [] owner)
file_header info link owner symlink = some (header_of info info.name 0 link owner)
file_header info link owner char_device = some (header_of info info.name 0 [] owner)
file_header info link owner block_device = some (header_of info info.name 0 [] owner)
file_header info link owner named_pipe = some (header_of info info.name 0 [] owner)
file_header info link owner socket = some (header_of info info.name 0 [] owner)
file_header info link owner irregular = none

unfoldable pub file_info_header : FileInfo → Bytes → ℤ × ℤ → Option Header
unfolding header_of set_bits file_header
file_info_header info link owner = file_header info link owner info.kind

-- `isHeaderOnlyType`.
unfoldable pub is_header_only_type : ℕ → Bool
is_header_only_type flag =
    flag == b'1'
    || flag == type_symlink
    || flag == type_char
    || flag == type_block
    || flag == type_dir
    || flag == type_fifo
