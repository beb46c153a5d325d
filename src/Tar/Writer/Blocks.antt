-- ===== src/Tar/Writer/Blocks.antt =====
-- deb/tar/writer.go: the lengths of the header blocks that are sent.
use mkdeb.Prelude.{
  Bool, true, false, not, ◌&&◌, ◌||◌, ◌≡◌, refl, ◌∙◌, Bytes, length, Bool-cases, inl, inr, Result,
  ok, err, ℤ, pos, ltb,
}
use mkdeb.Tar.Strconv.{TarError, is_ascii, format_string, format_int, format_octal, format_numeric}
use mkdeb.Tar.Block.{Field, put, set_format, magic_gnu, version_gnu, magic_ustar, version_ustar}
use mkdeb.Tar.Block.Splice.{length-put}
use mkdeb.Tar.Block.Sealing.{length-update_checksum}
use mkdeb.Tar.Header.{Header}
use mkdeb.Tar.Writer.{
  Writer, Draft, draft_field, draft_string, draft_numeric, draft_header, draft_long_name, sealed,
  is_empty,
}

length-draft_field :
    (f : Field) (r : Result TarError Bytes) (d : Draft)
    → length (draft_field f r d).bytes ≡ length d.bytes
unfolding draft_field
length-draft_field f (ok s) d = length-put f.offset s d.bytes
length-draft_field f (err e) d = refl

length-draft_string :
    (f : Field) (s keyword : Bytes) (d : Draft)
    → length (draft_string f s keyword d).bytes ≡ length d.bytes
unfolding draft_string
length-draft_string f s keyword d =
    elim (Bool-cases (not (is_empty keyword) && ltb f.size (length s) || not (is_ascii s))) [
      | inl e ↦ rw e refl
      | inr e ↦ rw e (length-draft_field f (format_string f.size s) d)
    ]

length-draft_numeric :
    (prefer : Bool) (f : Field) (x : ℤ) (keyword : Bytes) (d : Draft)
    → length (draft_numeric prefer f x keyword d).bytes ≡ length d.bytes
unfolding draft_numeric
length-draft_numeric prefer f x keyword d =
    elim (Bool-cases (ltb (length (format_int 8 x)) f.size)) [
      | inl e ↦ rw e (length-draft_field f (format_octal f.size x) d)
      | inr e ↦ rw e (elim (Bool-cases (not (is_empty keyword) && prefer)) [
        | inl k ↦ rw k (length-draft_field f (format_octal f.size (pos 0)) _)
        | inr k ↦ rw k (length-draft_field f (format_numeric f.size x) _)
      ])
    ]

pub length-draft_header : (w : Writer) (h : Header) → length (draft_header w h).bytes ≡ 512
unfolding draft_header
length-draft_header w h = simp (length-draft_field, length-draft_string, length-draft_numeric)

pub length-draft_long_name : (s : Bytes) → length (draft_long_name s).bytes ≡ 512
unfolding draft_long_name
length-draft_long_name s = simp (length-draft_field)

pub length-sealed : (binary : Bool) (b : Bytes) → length (sealed binary b) ≡ length b
unfolding sealed set_format
length-sealed true b =
    length-update_checksum (put 263 version_gnu (put 257 magic_gnu b))
    ∙ length-put 263 version_gnu (put 257 magic_gnu b)
    ∙ length-put 257 magic_gnu b
length-sealed false b =
    length-update_checksum (put 263 version_ustar (put 257 magic_ustar b))
    ∙ length-put 263 version_ustar (put 257 magic_ustar b)
    ∙ length-put 257 magic_ustar b
