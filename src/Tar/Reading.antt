-- ===== src/Tar/Reading.antt =====
-- deb/tar: an independent reader of the format that the writer writes. It is a specification: it says
-- what an archive holds, by the layout of blocks and fields alone, and models no code.
pub mod Fields
pub mod Headers
pub mod LongName
pub mod Entries
pub mod Layout
pub mod Started
pub mod Written
use mkdeb.Prelude.{
  ℕ, zero, suc, ◌+◌, ◌*◌, ◌/◌, Bool, true, false, List, [], ◌∷◌, ◌++◌, Option, none, some, Bytes,
  bytes_eq, take, drop, length, ltb, ◌==◌, if◌then◌else◌, Result, ok, err, ◌>>=◌, ℤ, pos, negsuc,
}
use mkdeb.Tar.Strconv.{TarError, err_header, parse_string, parse_numeric}
use mkdeb.Tar.Block.{
  Field, zero_block, slice, Format, unknown, v7, gnu, star, ustar, pax, get_format, v7_name,
  v7_mode, v7_uid, v7_gid, v7_size, v7_mod_time, v7_type_flag, v7_link_name, ustar_user_name,
  ustar_group_name, ustar_dev_major, ustar_dev_minor,
}
use mkdeb.Tar.Header.{Header, type_gnu_long_name}

-- An entry of an archive.
pub record Entry : Type 0 where
  pub header : Header
  pub content : Bytes

-- A number that is not negative.
abbrev pub natural : Result TarError ℤ → Result TarError ℕ
natural (err e) = err e
natural (ok (pos n)) = ok n
natural (ok (negsuc n)) = err err_header

abbrev pub flag_of : Bytes → ℕ
flag_of [] = 0
flag_of (c ∷ b) = c

abbrev pub text_of : Field → Bytes → Bytes
text_of f b = parse_string (slice f b)

-- The fields of a block.
unfoldable pub read_header : Bytes → Result TarError Header
read_header b = do
  mode ← natural (parse_numeric (slice v7_mode b))
  uid ← parse_numeric (slice v7_uid b)
  gid ← parse_numeric (slice v7_gid b)
  size ← natural (parse_numeric (slice v7_size b))
  seconds ← parse_numeric (slice v7_mod_time b)
  dev_major ← parse_numeric (slice ustar_dev_major b)
  dev_minor ← parse_numeric (slice ustar_dev_minor b)
  ok (record {
    name = text_of v7_name b;
    mode = mode;
    uid = uid;
    gid = gid;
    size = size;
    mod_time = record { seconds = seconds; nanos = 0 };
    type_flag = flag_of (slice v7_type_flag b);
    link_name = text_of v7_link_name b;
    uname = text_of ustar_user_name b;
    gname = text_of ustar_group_name b;
    dev_major = dev_major;
    dev_minor = dev_minor;
  })

-- A block whose checksum is right.
abbrev pub known : Format → Result TarError Header → Result TarError Header
known unknown h = err err_header
known v7 h = h
known gnu h = h
known star h = h
known ustar h = h
known pax h = h

-- The name that a long name entry in front has given.
abbrev pub named : Option Bytes → Header → Header
named none h = h
named (some name) h = record h { name = name }

abbrev pub with_entry : Entry → Result TarError (List Entry) → Result TarError (List Entry)
with_entry e (err x) = err x
with_entry e (ok es) = ok (e ∷ es)

-- An entry, and what stands behind its whole blocks.
abbrev pub read_content :
    (Option Bytes → Bytes → Result TarError (List Entry))
    → Option Bytes
    → Bytes
    → Result TarError Header
    → Result TarError (List Entry)
read_content behind pending rest (err e) = err e
read_content behind pending rest (ok h) =
    let content = take h.size rest in
    let after = drop ((h.size + 511) / 512 * 512) rest in
    if ltb (length rest) h.size
    then err err_header
    else if h.type_flag == type_gnu_long_name
    then behind (some (parse_string content)) after
    else with_entry (record { header = named pending h; content = content }) (behind none after)

-- The entries up to two zero blocks, with as many entries as `fuel` at most.
unfoldable pub read_entries : ℕ → Option Bytes → Bytes → Result TarError (List Entry)
unfolding read_header
read_entries zero pending b = err err_header
read_entries (suc fuel) pending b =
    if bytes_eq (take 1024 b) (zero_block ++ zero_block)
    then ok []
    else read_content (read_entries fuel) pending (drop 512 b)
        (known (get_format (take 512 b)) (read_header (take 512 b)))

-- A block takes at least one byte of an archive.
abbrev pub read_archive : Bytes → Result TarError (List Entry)
read_archive b = read_entries (length b) none b
