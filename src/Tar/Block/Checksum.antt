-- ===== src/Tar/Block/Checksum.antt =====
-- deb/tar/format.go: `SetFormat`, `GetFormat` and the checksum between them.
use mkdeb.Prelude.{
  ◌<◌, ◌≡◌, refl, ap, ◌∙◌, Bool, true, false, ◌&&◌, [], ◌∷◌, Option, none, some, Bytes, bytes_eq,
  All, ltb, arith, &&_iff,
}
use mkdeb.Tar.Block.{
  slice, put, Format, gnu, star, ustar, pax, magic_gnu, version_gnu, magic_ustar, version_ustar,
  trailer_star, update_checksum, set_format, guess_format, get_format, star_trailer,
}
use mkdeb.Tar.Block.Splice.{slice-put_below}
use mkdeb.Tar.Block.Sealing.{
  IsBlock, slice-put_field, get_format-update_checksum, put-IsBlock, magics-IsBlock, slice-magics,
  get_format-magics,
}

-- The format that `get_format` reads of a block whose format was set.
abbrev pub format_read : Option Bytes → Option Format
format_read none = none
format_read (some b) = some (get_format b)

abbrev pub is_byte_string : Bytes → Bool
is_byte_string [] = true
is_byte_string (c ∷ s) = ltb c 256 && is_byte_string s

pub byte_string : (s : Bytes) → is_byte_string s ≡ true → All (λ c. c < 256) s
byte_string [] h = tt
byte_string (c ∷ s) h =
    let (k, ks) = (&&_iff (ltb c 256) (is_byte_string s)).0 h in (ground arith, byte_string s ks)

pub magic_ustar-bytes : All (λ c. c < 256) magic_ustar
magic_ustar-bytes = byte_string magic_ustar refl

pub version_ustar-bytes : All (λ c. c < 256) version_ustar
version_ustar-bytes = byte_string version_ustar refl

gnu_lem : (b : Bytes) → IsBlock b → format_read (set_format gnu b) ≡ some gnu
unfolding set_format guess_format
gnu_lem b h = ap some (
    get_format-magics magic_gnu version_gnu b refl refl (byte_string magic_gnu refl)
      (byte_string version_gnu refl) h)

ustar_lem :
    (b : Bytes)
    → IsBlock b
    → bytes_eq (slice star_trailer b) trailer_star ≡ false
    → get_format (update_checksum (put 263 version_ustar (put 257 magic_ustar b))) ≡ ustar
unfolding guess_format
ustar_lem b h k =
    get_format-magics magic_ustar version_ustar b refl refl magic_ustar-bytes version_ustar-bytes h
    ∙ rw k

star_lem : (b : Bytes) → IsBlock b → format_read (set_format star b) ≡ some star
unfolding set_format guess_format
star_lem b (l, h) =
    let c : Bytes = put 263 version_ustar (put 257 magic_ustar b) in
    let hc : IsBlock c =
      magics-IsBlock magic_ustar version_ustar b magic_ustar-bytes version_ustar-bytes (l, h) in
    let (em, _, _) = slice-magics magic_ustar version_ustar b refl refl (l, h) in
    ap some (
      get_format-update_checksum (put 508 trailer_star c)
        (put-IsBlock 508 trailer_star c (byte_string trailer_star refl) hc)
      ∙ rw (
        slice-put_below 257 6 508 trailer_star c (omega arith),
        slice-put_field 508 4 trailer_star c refl (omega (arith, hc.0)),
        em,
      ))

-- A header block whose format was set to GNU or STAR is read as that format. One that was set to
-- USTAR or to PAX is read as USTAR, when its last four bytes are not the trailer of STAR.
pub get_format-set_format :
    (b : Bytes)
    → IsBlock b
    → (format_read (set_format gnu b) ≡ some gnu)
      × (format_read (set_format star b) ≡ some star)
      × (bytes_eq (slice star_trailer b) trailer_star ≡ false
          → (format_read (set_format ustar b) ≡ some ustar)
            × (format_read (set_format pax b) ≡ some ustar))
unfolding set_format
get_format-set_format b h =
    (gnu_lem b h, star_lem b h, λ k. (ap some (ustar_lem b h k), ap some (ustar_lem b h k)))
