-- ===== src/Tar/Writer/Sealed.antt =====
-- deb/tar/writer.go: the block of a plain header and of a long name as the fields written to zeros.
use mkdeb.Prelude.{
  ℕ, ◌<◌, Bool, true, false, ◌≡◌, ◌≢◌, refl, sym, ◌∙◌, ap, List, [], ◌∷◌, ◌++◌, Bytes, All,
  All-append, length, ltb, Bool-cases, inl, inr, arith, bytes_eq,
}
use mkdeb.Tar.Strconv.{is_ascii}
use mkdeb.Tar.Strconv.Octal.{padded, Octal, padded-Octal}
use mkdeb.Tar.Block.{
  Field, at, slice, zero_block, put, unknown, get_format, magic_gnu, version_gnu, magic_ustar,
  version_ustar, ustar_magic, ustar_version, star_trailer, trailer_star, set_format, sum_from,
  update_checksum, guess_format,
}
use mkdeb.Tar.Block.Sealing.{
  IsBlock, update_checksum_lem, magics-IsBlock, get_format-magics, digits-length,
}
use mkdeb.Tar.Block.Checksum.{byte_string, magic_ustar-bytes, version_ustar-bytes}
use mkdeb.Tar.Block.Fields.{puts, Fitting, length-puts, puts-All, IsText, text_field}
use mkdeb.Tar.Writer.{sealed}
use mkdeb.Tar.Writer.Plain.{octal_field}

abbrev pub magic_of : Bool → Bytes
magic_of true = magic_gnu
magic_of false = magic_ustar

abbrev pub version_of : Bool → Bytes
version_of true = version_gnu
version_of false = version_ustar

-- A block with its magic and version.
abbrev pub with_magic : Bool → Bytes → Bytes
with_magic binary b = put 263 (version_of binary) (put 257 (magic_of binary) b)

-- The checksum field, which is written in two parts.
abbrev pub chksum_digits : Field
chksum_digits = at 148 7

abbrev pub chksum_space : Field
chksum_space = at 155 1

-- What sealing writes to a block.
abbrev pub seal_writes : Bool → Bytes → List (Field × Bytes)
seal_writes binary b =
    (chksum_space, 32 ∷ [])
    ∷ (chksum_digits, padded 7 (sum_from 0 (with_magic binary b)) ++ 0 ∷ [])
    ∷ (ustar_version, version_of binary)
    ∷ (ustar_magic, magic_of binary)
    ∷ []

magic_of-bytes : (binary : Bool) → All (λ c. c < 256) (magic_of binary)
magic_of-bytes true = byte_string magic_gnu refl
magic_of-bytes false = magic_ustar-bytes

version_of-bytes : (binary : Bool) → All (λ c. c < 256) (version_of binary)
version_of-bytes true = byte_string version_gnu refl
version_of-bytes false = version_ustar-bytes

with_magic-IsBlock : (binary : Bool) (b : Bytes) → IsBlock b → IsBlock (with_magic binary b)
with_magic-IsBlock binary b h =
    magics-IsBlock (magic_of binary) (version_of binary) b (magic_of-bytes binary)
      (version_of-bytes binary) h

sealed-update_checksum :
    (binary : Bool) (b : Bytes) → sealed binary b ≡ update_checksum (with_magic binary b)
unfolding sealed set_format
sealed-update_checksum true b = refl
sealed-update_checksum false b = refl

pub sealed-puts :
    (binary : Bool) (ws : List (Field × Bytes))
    → IsBlock (puts ws zero_block)
    → sealed binary (puts ws zero_block)
      ≡ puts (seal_writes binary (puts ws zero_block) ++ ws) zero_block
sealed-puts binary ws h =
    sealed-update_checksum binary (puts ws zero_block)
    ∙ update_checksum_lem (with_magic binary (puts ws zero_block))
        (with_magic-IsBlock binary (puts ws zero_block) h)

magic_of-le : (binary : Bool) → (length (version_of binary) ≡ 2) × (length (magic_of binary) ≡ 6)
magic_of-le true = (refl, refl)
magic_of-le false = (refl, refl)

pub seal_writes-Fitting : (binary : Bool) (b : Bytes) → IsBlock b → Fitting (seal_writes binary b)
seal_writes-Fitting binary b h =
    let l = digits-length (with_magic binary b) (with_magic-IsBlock binary b h) in
    let (v, m) = magic_of-le binary in
    (omega arith, (omega (arith, l), (omega (arith, v), (omega (arith, m), tt))))

zero_block-bytes : All (λ c. c < 256) zero_block
zero_block-bytes = byte_string zero_block refl

-- Fields of bytes that are written to zeros give a block.
pub puts-IsBlock :
    (ws : List (Field × Bytes))
    → All (λ w. All (λ c. c < 256) w.1) ws
    → IsBlock (puts ws zero_block)
puts-IsBlock ws h =
    (length-puts ws zero_block, puts-All (λ c. c < 256) ws zero_block h zero_block-bytes)

Octal-bytes : (s : Bytes) → Octal s → All (λ c. c < 256) s
Octal-bytes [] h = tt
Octal-bytes (c ∷ s) (h, hs) = (ground arith, Octal-bytes s hs)

pub octal_field-bytes : (n x : ℕ) → All (λ c. c < 256) (octal_field n x)
octal_field-bytes n x =
    All-append _ (padded n x) (0 ∷ []) (Octal-bytes (padded n x) (padded-Octal n x))
      (omega arith, tt)

ascii-bytes : (s : Bytes) → is_ascii s ≡ true → All (λ c. c < 256) s
unfolding is_ascii
ascii-bytes [] h = tt
ascii-bytes (c ∷ s) h = (ground arith, ascii-bytes s (ground arith))

pub text_field-bytes : (n m : ℕ) (s : Bytes) → IsText m s → All (λ c. c < 256) (text_field n s)
text_field-bytes n m s (a, l, z) = elim (Bool-cases (ltb (length s) n)) [
  | inl e ↦ rw e (All-append _ s (0 ∷ []) (ascii-bytes s a) (omega arith, tt))
  | inr e ↦ rw e (ascii-bytes s a)
]

-- A sealed block is not the guess of no format.
guess_format-known :
    (binary : Bool) (t : Bytes) → guess_format (magic_of binary) (version_of binary) t ≢ unknown
unfolding guess_format
guess_format-known true t = cc
guess_format-known false t = elim (Bool-cases (bytes_eq t trailer_star)) [
  | inl e ↦ rw e cc
  | inr e ↦ rw e cc
]

pub get_format-sealed :
    (binary : Bool) (b : Bytes) → IsBlock b → get_format (sealed binary b) ≢ unknown
get_format-sealed binary b h e =
    let (v, m) = magic_of-le binary in
    guess_format-known binary (slice star_trailer b) (
      sym (
        get_format-magics (magic_of binary) (version_of binary) b m v (magic_of-bytes binary)
          (version_of-bytes binary) h)
      ∙ ap get_format (sym (sealed-update_checksum binary b))
      ∙ e)
