-- ===== src/Tar/PaxTests.antt =====
-- PAX records and times, prefixes, and the order of keys on small inputs.
use mkdeb.Prelude.{
  ◌≡◌, refl, [], ◌∷◌, ◌++◌, none, some, Bytes, codes, replicate, ok, pos, negsuc, length,
  format_uint, arith,
}
use mkdeb.Tar.Strconv.Pax.{format_pax_record, parse_pax_record, split_at, parse_digits, parse_int}
use mkdeb.Tar.Strconv.Pax.RoundTrip.{parse_pax_record-format_pax_record}
use mkdeb.Tar.Strconv.PaxTime.{parse_pax_time}
use mkdeb.Tar.Writer.Prefix.{split_ustar_path}
use mkdeb.Tar.Writer.PrefixSplit.{IsLong, IsSplit, split_ustar_path-IsSplit}
use mkdeb.Tar.Writer.PaxHeader.{sort_keys, insert_key, text_lt}

short_record : length (format_pax_record (codes "path") (codes "x")) ≡ 9
unfolding format_pax_record format_uint
short_record = refl

parse_pax_record-format_pax_record_example :
    parse_pax_record (format_pax_record (codes "path") (codes "x") ++ codes "rest")
    ≡ some (ok (codes "path", codes "x", codes "rest"))
parse_pax_record-format_pax_record_example =
    parse_pax_record-format_pax_record (codes "path") (codes "x") (codes "rest") refl (λ q. cc)
      (omega (arith, short_record))

-- The end of the record lies in front of its start: a panic.
panics : parse_pax_record (codes "0000005 abc") ≡ none
unfolding parse_pax_record split_at parse_int parse_digits
panics = refl

forward : parse_pax_time (codes "12.5") ≡ ok (record { seconds = pos 12; nanos = 500000000 })
unfolding parse_pax_time split_at parse_int parse_digits
forward = refl

backward : parse_pax_time (codes "-1.25") ≡ ok (record { seconds = negsuc 1; nanos = 750000000 })
unfolding parse_pax_time split_at parse_int parse_digits
backward = refl

sorted :
    sort_keys ((codes "uid", []) ∷ (codes "path", []) ∷ (codes "gid", []) ∷ [])
    ≡ (codes "gid", []) ∷ (codes "path", []) ∷ (codes "uid", []) ∷ []
unfolding sort_keys insert_key text_lt
sorted = refl

abbrev long_path : Bytes
long_path = replicate 70 b'a' ++ b'/' ∷ replicate 60 b'b'

split_ustar_path-IsSplit_example :
    ((prefix suffix : Bytes)
      → split_ustar_path long_path ≡ some (prefix, suffix)
      → IsLong long_path × IsSplit long_path prefix suffix)
    × (split_ustar_path long_path ≡ none
        → IsLong long_path
        → (prefix suffix : Bytes) → ¬ IsSplit long_path prefix suffix)
split_ustar_path-IsSplit_example = split_ustar_path-IsSplit long_path
