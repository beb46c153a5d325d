-- ===== src/Tar/Strconv.antt =====
-- deb/tar/strconv.go: strings and numbers in header fields. A field is given by its length; the
-- result of a formatter is what it copies to the front of the field, or the error.
pub mod Octal
pub mod Binary
pub mod Pax
pub mod PaxTime
use mkdeb.Prelude.{
  ℕ, zero, suc, ◌+◌, ◌-◌, ◌*◌, ◌/◌, ◌%◌, ◌^◌, Bool, true, false, ◌&&◌, ◌||◌, List, [], ◌∷◌, ◌++◌,
  Bytes, length, replicate, ltb, leb, ◌==◌, if◌then◌else◌, Result, ok, err, ◌>>=◌, ℤ, pos, negsuc,
  format_uint, to_int64,
}

-- The errors of the package that its writing half returns or keeps.
pub data TarError : Type 0 where
  err_write_too_long err_field_too_long err_write_after_close err_invalid_header err_header :
      TarError
  missed_writing : ℕ → TarError
  io_error : TarError

-- `isASCII`: every rune, and so every byte, is below 0x80.
unfoldable pub is_ascii : Bytes → Bool
is_ascii [] = true
is_ascii (c ∷ s) = ltb c 0x80 && is_ascii s

-- `toASCII`. Go returns an ASCII text as it is, which is the same.
unfoldable pub to_ascii : Bytes → Bytes
to_ascii [] = []
to_ascii (c ∷ s) = let rest = to_ascii s in if ltb c 0x80 then c ∷ rest else rest

-- `parseString`: up to the first NUL.
unfoldable pub parse_string : Bytes → Bytes
parse_string [] = []
parse_string (c ∷ b) = let rest = parse_string b in if c == 0 then [] else c ∷ rest

-- `formatString` into a field of `n` bytes: the ASCII part, and a NUL if there is room.
unfoldable pub format_string : ℕ → Bytes → Result TarError Bytes
unfolding to_ascii
format_string n s =
    if ltb n (length s)
    then err err_field_too_long
    else ok (if ltb (length (to_ascii s)) n then to_ascii s ++ 0 ∷ [] else to_ascii s)

-- `strconv.FormatInt`.
unfoldable pub format_int : ℕ → ℤ → Bytes
unfolding format_uint
format_int base (pos n) = format_uint base n
format_int base (negsuc n) = b'-' ∷ format_uint base (n + 1)

-- `formatOctal`: zeros in front, with room for a NUL behind.
unfoldable pub format_octal : ℕ → ℤ → Result TarError Bytes
unfolding format_string format_int
format_octal n x =
    let s = format_int 8 x in format_string n (replicate (n - length s - 1) b'0' ++ s)

-- `fitsInBase256`.
unfoldable pub fits_in_base256 : ℕ → ℤ → Bool
fits_in_base256 n (pos x) = leb 9 n || ltb x (2 ^ ((n - 1) * 8))
fits_in_base256 n (negsuc x) = leb 9 n || ltb x (2 ^ ((n - 1) * 8))

-- `byte(x)` and `x >>= 8`.
abbrev pub low_byte : ℤ → ℕ
low_byte (pos n) = n % 256
low_byte (negsuc n) = 255 - n % 256

abbrev pub shift_byte : ℤ → ℤ
shift_byte (pos n) = pos (n / 256)
shift_byte (negsuc n) = negsuc (n / 256)

-- The loop of `formatNumeric`, from the last byte of the field to the first.
unfoldable pub base256_onto : ℕ → ℤ → Bytes → Bytes
base256_onto zero x out = out
base256_onto (suc n) x out = base256_onto n (shift_byte x) (low_byte x ∷ out)

-- `b[0] |= 0x80`.
abbrev pub mark_binary : Bytes → Bytes
mark_binary [] = []
mark_binary (c ∷ b) = (c % 128 + 128) ∷ b

-- `formatNumeric` of the formatter. Where the number does not fit, the source writes a zero and keeps
-- the error, and no caller uses a block with an error.
unfoldable pub format_numeric : ℕ → ℤ → Result TarError Bytes
unfolding base256_onto
format_numeric n x =
    if fits_in_base256 n x then ok (mark_binary (base256_onto n x [])) else err err_field_too_long

-- `bytes.Trim(b, " \x00")`.
abbrev pub is_padding : ℕ → Bool
is_padding c = c == b' ' || c == 0

unfoldable pub trim_left : Bytes → Bytes
trim_left [] = []
trim_left (c ∷ b) = let rest = trim_left b in if is_padding c then rest else c ∷ b

abbrev onto_trimmed : ℕ → Bytes → Bytes
onto_trimmed c [] = if is_padding c then [] else c ∷ []
onto_trimmed c (d ∷ b) = c ∷ d ∷ b

unfoldable pub trim_right : Bytes → Bytes
trim_right [] = []
trim_right (c ∷ b) = onto_trimmed c (trim_right b)

-- The loop of `strconv.ParseUint` in base 8 with 64 bits.
unfoldable pub parse_uint8_from : ℕ → Bytes → Result TarError ℕ
parse_uint8_from n [] = ok n
parse_uint8_from n (c ∷ s) =
    let rest = parse_uint8_from (n * 8 + (c - b'0')) s in
    if leb b'0' c && ltb c b'8'
    then (if ltb (n * 8 + (c - b'0')) (2 ^ 64) then rest else err err_header)
    else err err_header

parse_uint8 : Bytes → Result TarError ℕ
unfolding parse_uint8_from
parse_uint8 [] = err err_header
parse_uint8 (c ∷ s) = parse_uint8_from 0 (c ∷ s)

parse_trimmed : Bytes → Result TarError ℤ
unfolding parse_uint8 parse_string
parse_trimmed [] = ok (pos 0)
parse_trimmed (c ∷ b) = parse_uint8 (parse_string (c ∷ b)) >>= λ x. ok (to_int64 x)

-- `parseOctal`. Where the source keeps an error beside a value, this is the error alone.
unfoldable pub parse_octal : Bytes → Result TarError ℤ
unfolding parse_trimmed trim_left trim_right
parse_octal b = parse_trimmed (trim_right (trim_left b))

-- The loop of `parseNumeric` over the bytes behind the first. `inv` is the inversion mask.
unfoldable pub binary_from : Bool → ℕ → Bytes → Result TarError ℕ
binary_from inv x [] = if ltb x (2 ^ 63) then ok x else err err_header
binary_from inv x (c ∷ b) =
    let rest = binary_from inv (x * 256 + (if inv then 255 - c else c)) b in
    if ltb x (2 ^ 56) then rest else err err_header

abbrev sign_of : Bool → ℕ → ℤ
sign_of true x = negsuc x
sign_of false x = pos x

-- `parseNumeric`: a first byte with the top bit is base 256, in two's complement.
unfoldable pub parse_numeric : Bytes → Result TarError ℤ
unfolding parse_octal binary_from
parse_numeric [] = parse_octal []
parse_numeric (c ∷ b) =
    let inv = (c / 64) % 2 == 1 in
    if leb 128 c
    then (binary_from inv ((if inv then 255 - c else c) % 128) b >>= λ x. ok (sign_of inv x))
    else parse_octal (c ∷ b)
