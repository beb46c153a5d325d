-- ===== src/Tar/Block.antt =====
-- deb/tar/format.go: the header block, its fields, its checksum and the formats. A block is a list of
-- 512 bytes; a field is its offset and its length.
pub mod Splice
pub mod Sealing
pub mod Checksum
pub mod Fields
use mkdeb.Prelude.{
  ℕ, zero, suc, ◌+◌, ◌-◌, ◌*◌, Bool, true, false, ◌&&◌, ◌||◌, List, [], ◌∷◌, ◌++◌, Option, none,
  some, Bytes, codes, bytes_eq, take, drop, length, replicate, ltb, leb, if◌then◌else◌, Result, ok,
  err, ℤ, pos, sub_ℕ, int_eq,
}
use mkdeb.Tar.Strconv.{TarError, format_octal, parse_octal}

abbrev pub block_size : ℕ
block_size = 512

abbrev pub zero_block : Bytes
zero_block = replicate block_size 0

-- A field of a block.
pub record Field : Type 0 where
  pub offset : ℕ
  pub size : ℕ

abbrev pub at : ℕ → ℕ → Field
at offset size = record { offset = offset; size = size }

abbrev pub v7_name : Field
v7_name = at 0 100

abbrev pub v7_mode : Field
v7_mode = at 100 8

abbrev pub v7_uid : Field
v7_uid = at 108 8

abbrev pub v7_gid : Field
v7_gid = at 116 8

abbrev pub v7_size : Field
v7_size = at 124 12

abbrev pub v7_mod_time : Field
v7_mod_time = at 136 12

abbrev pub v7_chksum : Field
v7_chksum = at 148 8

abbrev pub v7_type_flag : Field
v7_type_flag = at 156 1

abbrev pub v7_link_name : Field
v7_link_name = at 157 100

-- The GNU, STAR and USTAR headers share these places.
abbrev pub ustar_magic : Field
ustar_magic = at 257 6

abbrev pub ustar_version : Field
ustar_version = at 263 2

abbrev pub ustar_user_name : Field
ustar_user_name = at 265 32

abbrev pub ustar_group_name : Field
ustar_group_name = at 297 32

abbrev pub ustar_dev_major : Field
ustar_dev_major = at 329 8

abbrev pub ustar_dev_minor : Field
ustar_dev_minor = at 337 8

abbrev pub star_trailer : Field
star_trailer = at 508 4

-- The bytes of a field.
abbrev pub slice : Field → Bytes → Bytes
slice f b = take f.size (drop f.offset b)

-- `copy`, as far as both sides reach.
abbrev pub overlay : Bytes → Bytes → Bytes
overlay [] b = b
overlay (x ∷ s) [] = []
overlay (x ∷ s) (c ∷ b) = x ∷ overlay s b

-- `copy` to an offset.
abbrev pub put : ℕ → Bytes → Bytes → Bytes
put zero s b = overlay s b
put (suc n) s [] = []
put (suc n) s (c ∷ b) = c ∷ put n s b

pub data Format : Type 0 where
  unknown v7 gnu star ustar pax : Format

abbrev pub magic_gnu : Bytes
magic_gnu = codes "ustar "

abbrev pub version_gnu : Bytes
version_gnu = b' ' ∷ 0 ∷ []

abbrev pub magic_ustar : Bytes
magic_ustar = codes "ustar" ++ 0 ∷ []

abbrev pub version_ustar : Bytes
version_ustar = codes "00"

abbrev pub trailer_star : Bytes
trailer_star = codes "tar" ++ 0 ∷ []

-- `ComputeChecksum`: the sum of the bytes from index `i` on, the checksum field read as spaces, and
-- how many of the bytes count 256 less as an int8.
abbrev pub in_chksum : ℕ → Bool
in_chksum i = leb 148 i && ltb i 156

pub sum_from : ℕ → Bytes → ℕ
sum_from i [] = 0
sum_from i (c ∷ b) = (if in_chksum i then b' ' else c) + sum_from (suc i) b

pub highs_from : ℕ → Bytes → ℕ
highs_from i [] = 0
highs_from i (c ∷ b) =
    (if in_chksum i then 0 else if leb 128 c then 1 else 0) + highs_from (suc i) b

unfoldable pub compute_checksum : Bytes → ℤ × ℤ
unfolding sum_from highs_from
compute_checksum b = (pos (sum_from 0 b), sub_ℕ (sum_from 0 b) (256 * highs_from 0 b))

write_chksum : Bytes → Result TarError Bytes → Bytes
write_chksum b (ok s) = put 155 (b' ' ∷ []) (put 148 s b)
write_chksum b (err e) = put 155 (b' ' ∷ []) b

-- The end of `SetFormat`: the checksum as six digits, a NUL and a space.
unfoldable pub update_checksum : Bytes → Bytes
unfolding compute_checksum write_chksum format_octal
update_checksum b = write_chksum b (format_octal 7 (compute_checksum b).0)

-- `SetFormat`; `none` is the panic on a format that is none.
unfoldable pub set_format : Format → Bytes → Option Bytes
unfolding update_checksum
set_format unknown b = none
set_format v7 b = some (update_checksum b)
set_format gnu b = some (update_checksum (put 263 version_gnu (put 257 magic_gnu b)))
set_format star b =
    some (update_checksum (put 508 trailer_star (put 263 version_ustar (put 257 magic_ustar b))))
set_format ustar b = some (update_checksum (put 263 version_ustar (put 257 magic_ustar b)))
set_format pax b = some (update_checksum (put 263 version_ustar (put 257 magic_ustar b)))

-- The guess by magic values.
unfoldable pub guess_format : Bytes → Bytes → Bytes → Format
guess_format magic version trailer =
    if bytes_eq magic magic_ustar && bytes_eq trailer trailer_star
    then star
    else if bytes_eq magic magic_ustar
    then ustar
    else if bytes_eq magic magic_gnu && bytes_eq version version_gnu
    then gnu
    else v7

format_by : Bytes → Result TarError ℤ → Format
unfolding guess_format
format_by b (err e) = unknown
format_by b (ok value) =
    if int_eq value (compute_checksum b).0 || int_eq value (compute_checksum b).1
    then guess_format (slice ustar_magic b) (slice ustar_version b) (slice star_trailer b)
    else unknown

-- `GetFormat`.
unfoldable pub get_format : Bytes → Format
unfolding format_by compute_checksum parse_octal
get_format b = format_by b (parse_octal (slice v7_chksum b))
