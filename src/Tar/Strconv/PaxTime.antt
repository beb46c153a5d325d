-- ===== src/Tar/Strconv/PaxTime.antt =====
-- deb/tar/strconv.go: `parsePAXTime`.
use mkdeb.Prelude.{
  ℕ, zero, suc, ◌-◌, ◌^◌, Bool, true, false, ◌&&◌, [], ◌∷◌, ◌++◌, Option, none, some, Bytes, take,
  length, replicate, ltb, leb, ◌==◌, if◌then◌else◌, Result, ok, err, ℤ, pos, negsuc,
}
use mkdeb.Disk.{Time}
use mkdeb.Tar.Strconv.{TarError, err_header}
use mkdeb.Tar.Strconv.Pax.{split_at, parse_int}

-- `time.Unix`, with the nanoseconds counted forward or back from the seconds.
abbrev pub one_less : ℤ → ℤ
one_less (pos zero) = negsuc 0
one_less (pos (suc n)) = pos n
one_less (negsuc n) = negsuc (suc n)

abbrev pub unix_time : Bool → ℤ → ℕ → Time
unix_time back seconds zero = record { seconds = seconds; nanos = 0 }
unix_time false seconds (suc n) = record { seconds = seconds; nanos = suc n }
unix_time true seconds (suc n) = record { seconds = one_less seconds; nanos = 10 ^ 9 - suc n }

abbrev pub has_minus : Bytes → Bool
has_minus [] = false
has_minus (c ∷ s) = c == b'-'

-- `strings.Trim(sn, "0123456789")` leaves nothing.
abbrev pub all_digits : Bytes → Bool
all_digits [] = true
all_digits (c ∷ s) = leb b'0' c && leb c b'9' && all_digits s

-- Nine digits, with zeros behind or cut.
abbrev pub nine_digits : Bytes → Bytes
nine_digits sn = if ltb (length sn) 9 then sn ++ replicate (9 - length sn) b'0' else take 9 sn

abbrev pub nanoseconds : Option ℤ → ℕ
nanoseconds none = 0
nanoseconds (some (pos n)) = n
nanoseconds (some (negsuc n)) = 0

abbrev pub with_seconds : Bool → Option ℤ → Bytes → Result TarError Time
with_seconds back none sn = err err_header
with_seconds back (some secs) [] = ok (record { seconds = secs; nanos = 0 })
with_seconds back (some secs) (c ∷ sn) =
    if all_digits (c ∷ sn)
    then ok (unix_time back secs (nanoseconds (parse_int (nine_digits (c ∷ sn)))))
    else err err_header

abbrev pub pax_time_parts : Bytes → Option (Bytes × Bytes) → Result TarError Time
pax_time_parts s none = with_seconds (has_minus s) (parse_int s) []
pax_time_parts s (some (ss, sn)) = with_seconds (has_minus ss) (parse_int ss) sn

-- `parsePAXTime`.
unfoldable pub parse_pax_time : Bytes → Result TarError Time
unfolding split_at parse_int
parse_pax_time s = pax_time_parts s (split_at b'.' s)
