-- ===== src/Content/Digest.antt =====
-- deb/package.go: the lines of md5sums, written and read.
use mkdeb.Prelude.{
  ℕ, ◌+◌, ◌-◌, ◌*◌, ◌/◌, ◌%◌, ◌<◌, ◌≡◌, refl, ap, ◌&&◌, List, [], ◌∷◌, ◌++◌, Option, none, some,
  Bytes, codes, bytes_eq, arith, All, length, take, drop, take-append, drop-append, Lacks, leb,
  if◌then◌else◌, text_lines,
}
use mkdeb.Disk.{Disk}
use mkdeb.Content.{hex_digit, hex_encode}

-- A reader of md5sums in the form that `md5sum --check` reads: 32 hexadecimal digits, two spaces and
-- a name on each line.
abbrev hex_value : ℕ → Option ℕ
hex_value c =
    if leb b'0' c && leb c b'9'
    then some (c - b'0')
    else if leb b'a' c && leb c b'f'
    then some (c - b'a' + 10)
    else none

abbrev join_digits : Option ℕ → Option ℕ → Option Bytes → Option Bytes
join_digits (some h) (some l) (some bs) = some ((h * 16 + l) ∷ bs)
join_digits _ _ _ = none

pub hex_decode : Bytes → Option Bytes
hex_decode [] = some []
hex_decode (h ∷ []) = none
hex_decode (h ∷ l ∷ s) = join_digits (hex_value h) (hex_value l) (hex_decode s)

abbrev with_name : Bytes → Option Bytes → Option (Bytes × Bytes)
with_name name none = none
with_name name (some digest) = some (digest, name)

pub read_sum : Bytes → Option (Bytes × Bytes)
read_sum line =
    if bytes_eq (take 2 (drop 32 line)) (codes "  ")
    then with_name (drop 2 (drop 32 line)) (hex_decode (take 32 line))
    else none

abbrev cons_entry :
    Option (Bytes × Bytes) → Option (List (Bytes × Bytes)) → Option (List (Bytes × Bytes))
cons_entry (some e) (some es) = some (e ∷ es)
cons_entry _ _ = none

unfoldable pub read_lines : List Bytes → Option (List (Bytes × Bytes))
unfolding read_sum
read_lines [] = some []
read_lines (l ∷ ls) = cons_entry (read_sum l) (read_lines ls)

unfoldable pub read_sums : Bytes → Option (List (Bytes × Bytes))
unfolding read_lines text_lines
read_sums text = read_lines (text_lines text)

-- A digest of MD5: 16 bytes.
abbrev pub IsDigest : Bytes → Type 0
IsDigest d = (length d ≡ 16) × All (λ b. b < 256) d

abbrev pub sum_line : Bytes × Bytes → Bytes
sum_line (d, t) = hex_encode d ++ (codes "  " ++ t)

-- One entry for each file, in order: the digest of its contents and its name in the archive.
pub data Covers (md5 : Bytes → Bytes) (disk : Disk)
    : List Bytes → List Bytes → List (Bytes × Bytes) → Type 0 where
  none_left : Covers md5 disk [] [] []
  one_more :
      {fs ts : List Bytes} {es : List (Bytes × Bytes)} (f t content : Bytes)
      → disk.read_file f ≡ some content
      → Covers md5 disk fs ts es
      → Covers md5 disk (f ∷ fs) (t ∷ ts) ((md5 content, t) ∷ es)

hex_value-hex_digit : (d : ℕ) → d < 16 → hex_value (hex_digit d) ≡ some d
hex_value-hex_digit d h = ground arith

hex_decode-hex_encode : (s : Bytes) → All (λ b. b < 256) s → hex_decode (hex_encode s) ≡ some s
unfolding hex_decode
hex_decode-hex_encode [] h = refl
hex_decode-hex_encode (b ∷ s) (h, hs) =
    rw
      (
        hex_value-hex_digit (b / 16) (omega arith),
        hex_value-hex_digit (b % 16) (omega arith),
        hex_decode-hex_encode s hs,
      )
      (ap (λ (x : ℕ). some (x ∷ s)) (omega arith))

length-hex_encode : (s : Bytes) → length (hex_encode s) ≡ 2 * length s
length-hex_encode [] = refl
length-hex_encode (b ∷ s) = omega (arith, length-hex_encode s)

pub hex_encode-Lacks : (s : Bytes) → All (λ b. b < 256) s → Lacks b'\n' (hex_encode s)
hex_encode-Lacks [] h = refl
hex_encode-Lacks (b ∷ s) (h, hs) = ground (arith, hex_encode-Lacks s)

pub read_sum-sum_line : (d t : Bytes) → IsDigest d → read_sum (sum_line (d, t)) ≡ some (d, t)
unfolding read_sum
read_sum-sum_line d t (h, hs) =
    let e : length (hex_encode d) ≡ 32 = omega (arith, length-hex_encode d) in
    rw (
      drop-append 32 (hex_encode d) (codes "  " ++ t) e,
      take-append 32 (hex_encode d) (codes "  " ++ t) e,
      hex_decode-hex_encode d hs,
    )
