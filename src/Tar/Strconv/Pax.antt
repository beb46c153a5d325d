-- ===== src/Tar/Strconv/Pax.antt =====
-- deb/tar/strconv.go: PAX records, `formatPAXRecord` and `parsePAXRecord`.
pub mod Sizes
pub mod RoundTrip
use mkdeb.Prelude.{
  ℕ, zero, suc, ◌+◌, ◌-◌, ◌*◌, ◌^◌, Bool, true, false, ◌&&◌, ◌||◌, List, [], ◌∷◌, ◌++◌, Option,
  none, some, Bytes, codes, bytes_eq, take, drop, length, ltb, leb, ◌==◌, if◌then◌else◌, Result, ok,
  err, ℤ, pos, negsuc, format_uint,
}
use mkdeb.Tar.Strconv.{TarError, err_header}

-- `strings.IndexByte` and the two parts around the byte.
abbrev behind_byte : ℕ → Option (Bytes × Bytes) → Option (Bytes × Bytes)
behind_byte c none = none
behind_byte c (some (a, b)) = some (c ∷ a, b)

unfoldable pub split_at : ℕ → Bytes → Option (Bytes × Bytes)
split_at sep [] = none
split_at sep (c ∷ s) =
    let rest = split_at sep s in if c == sep then some ([], s) else behind_byte c rest

-- The digits of `strconv.ParseInt` in base ten behind the number `n`.
unfoldable pub parse_digits : ℕ → Bytes → Option ℕ
parse_digits n [] = some n
parse_digits n (c ∷ s) =
    let rest = parse_digits (n * 10 + (c - b'0')) s in
    if leb b'0' c && leb c b'9' then rest else none

-- An int64; there is one more below zero.
abbrev pub signed : Bool → Option ℕ → Option ℤ
signed negative none = none
signed false (some n) = if ltb n (2 ^ 63) then some (pos n) else none
signed true (some zero) = some (pos 0)
signed true (some (suc n)) = if ltb n (2 ^ 63) then some (negsuc n) else none

abbrev pub unsigned : Bool → Bytes → Option ℤ
unsigned negative [] = none
unsigned negative (c ∷ s) = signed negative (parse_digits 0 (c ∷ s))

-- `strconv.ParseInt(s, 10, 64)`.
unfoldable pub parse_int : Bytes → Option ℤ
unfolding parse_digits
parse_int [] = none
parse_int (c ∷ s) =
    if c == b'-'
    then unsigned true s
    else if c == b'+'
    then unsigned false s
    else unsigned false (c ∷ s)

-- What `parsePAXRecord` answers: the key, the value and the rest, or an error; `none` is the panic of
-- a slice whose end is before its start.
abbrev pub Parsed : Type 0
Parsed = Option (Result TarError (Bytes × Bytes × Bytes))

abbrev pub refused : Parsed
refused = some (err err_header)

-- The key and the value of a record.
abbrev pub pair_of : Bytes → Option (Bytes × Bytes) → Parsed
pair_of rem none = refused
pair_of rem (some (k, v)) = some (ok (k, v, rem))

-- The record in `s` of `n` bytes, whose text starts at `start`.
abbrev pub record_at : ℕ → Bytes → Option ℤ → Parsed
record_at start s none = refused
record_at start s (some (negsuc n)) = refused
record_at start s (some (pos n)) =
    if ltb n 5 || ltb (length s) n
    then refused
    else if ltb (n - 1) start
    then none
    else if bytes_eq (take 1 (drop (n - 1) s)) (codes "\n")
    then pair_of (drop n s) (split_at b'=' (take (n - 1 - start) (drop start s)))
    else refused

abbrev pub sized : Bytes → Option (Bytes × Bytes) → Parsed
sized s none = refused
sized s (some (size, behind)) = record_at (length size + 1) s (parse_int size)

-- `parsePAXRecord`.
unfoldable pub parse_pax_record : Bytes → Parsed
unfolding split_at parse_int
parse_pax_record s = sized s (split_at b' ' s)

-- The record with this size in front.
abbrev pub record_of : ℕ → Bytes → Bytes → Bytes
record_of size k v = format_uint 10 size ++ (b' ' ∷ (k ++ (b'=' ∷ (v ++ (b'\n' ∷ [])))))

-- The size without its own digits, and with the digits of that.
abbrev pub bare_size : Bytes → Bytes → ℕ
bare_size k v = length k + length v + 3

abbrev pub first_size : Bytes → Bytes → ℕ
first_size k v = bare_size k v + length (format_uint 10 (bare_size k v))

-- `formatPAXRecord`.
unfoldable pub format_pax_record : Bytes → Bytes → Bytes
format_pax_record k v =
    let record' = record_of (first_size k v) k v in
    if length record' == first_size k v then record' else record_of (length record') k v
