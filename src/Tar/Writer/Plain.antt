-- ===== src/Tar/Writer/Plain.antt =====
-- deb/tar/writer.go: the block of a header whose fields all fit, without binary numbers and PAX records.
use mkdeb.Prelude.{
  ℕ, suc, ◌^◌, ◌<◌, Bool, true, false, not, ◌&&◌, ◌||◌, ◌≡◌, refl, ◌∙◌, ap, List, [], ◌∷◌, ◌++◌,
  none, Bytes, codes, length, length-append, ltb, Bool-cases, if_false, inl, inr, Result, ok, ℤ,
  pos, negsuc, format_uint, length-format_uint, arith,
}
use mkdeb.Disk.{Time}
use mkdeb.Tar.Strconv.{TarError, is_ascii, format_string, format_int, format_octal}
use mkdeb.Tar.Strconv.Octal.{padded, length-padded, format_octal-padded}
use mkdeb.Tar.Block.{
  Field, at, zero_block, put, v7_name, v7_mode, v7_uid, v7_gid, v7_size, v7_mod_time, v7_type_flag,
  v7_link_name, ustar_user_name, ustar_group_name, ustar_dev_major, ustar_dev_minor,
}
use mkdeb.Tar.Block.Fields.{puts, IsText, text_field, format_string-IsText}
use mkdeb.Tar.Header.{Header}
use mkdeb.Tar.Writer.{
  Writer, Draft, draft_field, draft_string, draft_numeric, draft_header, in_range, clamp_time,
  is_empty, empty_draft,
}

-- A number that seven octal digits hold.
abbrev pub IsSmall : ℤ → Type 0
IsSmall (pos n) = n < 8 ^ 7
IsSmall (negsuc n) = ⊥

abbrev pub magnitude : ℤ → ℕ
magnitude (pos n) = n
magnitude (negsuc n) = 0

pub small-pos : (x : ℤ) → IsSmall x → (x ≡ pos (magnitude x)) × (magnitude x < 8 ^ 7)
small-pos (pos n) h = (refl, h)
small-pos (negsuc n) h = absurd h

-- A header that the USTAR format holds as it is.
pub record IsPlain (h : Header) : Type 0 where
  pub plain_name : IsText 100 h.name
  pub plain_mode : h.mode < 8 ^ 7
  pub plain_uid : IsSmall h.uid
  pub plain_gid : IsSmall h.gid
  pub plain_size : h.size < 8 ^ 11
  pub plain_flag : h.type_flag < 256
  pub plain_link : IsText 100 h.link_name
  pub plain_uname : IsText 32 h.uname
  pub plain_gname : IsText 32 h.gname
  pub plain_major : IsSmall h.dev_major
  pub plain_minor : IsSmall h.dev_minor

-- The seconds of a time that the field holds, and zero for any other.
abbrev seconds_if : Bool → ℤ → ℕ
seconds_if true x = magnitude x
seconds_if false x = 0

pub seconds_of : Time → ℕ
unfolding in_range
seconds_of t = seconds_if (in_range t.seconds t.nanos) t.seconds

in_range-lt :
    (x : ℤ) (n : ℕ) → in_range x n ≡ true → (x ≡ pos (magnitude x)) × (magnitude x < 8 ^ 11)
unfolding in_range
in_range-lt (pos s) n h = (refl, ground arith)
in_range-lt (negsuc s) n h = cc

pub clamp_time-seconds_of :
    (t : Time) → (clamp_time t ≡ pos (seconds_of t)) × (seconds_of t < 8 ^ 11)
unfolding clamp_time seconds_of
clamp_time-seconds_of t = elim (Bool-cases (in_range t.seconds t.nanos)) [
  | inl e ↦ rw e (in_range-lt t.seconds t.nanos e)
  | inr e ↦ rw e (refl, omega arith)
]

-- A number in an octal field of `n` bytes.
abbrev pub octal_field : ℕ → ℕ → Bytes
octal_field n x = padded n x ++ 0 ∷ []

pub length-octal_field :
    (k x : ℕ) → x < 8 ^ suc k → length (octal_field (suc (suc k)) x) ≡ suc (suc k)
length-octal_field k x h =
    omega (arith, length-padded k x h, length-append (padded (suc (suc k)) x) (0 ∷ []))

pub draft_field-ok :
    (f : Field) (r : Result TarError Bytes) (s : Bytes) (d : Draft)
    → r ≡ ok s
    → draft_field f r d ≡ record d { bytes = put f.offset s d.bytes }
unfolding draft_field
draft_field-ok f r s d e = ap (λ (x : Result TarError Bytes). draft_field f x d) e

draft_string-IsText :
    (f : Field) (s keyword : Bytes) (d : Draft)
    → IsText f.size s
    → draft_string f s keyword d ≡ record d { bytes = put f.offset (text_field f.size s) d.bytes }
unfolding draft_string
draft_string-IsText f s keyword d (a, l, z) =
    let test = not (is_empty keyword) && ltb f.size (length s) || not (is_ascii s) in
    let k : test ≡ false = ground arith in
    if_false test (record d { pax = (keyword, s) ∷ d.pax })
      (draft_field f (format_string f.size s) d) k
    ∙ draft_field-ok f (format_string f.size s) (text_field f.size s) d
        (format_string-IsText f.size s (a, l, z))

draft_numeric-octal :
    (prefer : Bool) (o k x : ℕ) (keyword : Bytes) (d : Draft)
    → x < 8 ^ suc k
    → draft_numeric prefer (at o (suc (suc k))) (pos x) keyword d
      ≡ record d { bytes = put o (octal_field (suc (suc k)) x) d.bytes }
unfolding draft_numeric format_int
draft_numeric-octal prefer o k x keyword d h =
    let t : ltb (length (format_uint 8 x)) (suc (suc k)) ≡ true =
      ground (arith, length-format_uint 8 (omega arith) k x h) in
    rw t (
      draft_field-ok (at o (suc (suc k))) (format_octal (suc (suc k)) (pos x))
        (octal_field (suc (suc k)) x) d (format_octal-padded k x h))

draft_numeric-small :
    (prefer : Bool) (o : ℕ) (x : ℤ) (keyword : Bytes) (d : Draft)
    → IsSmall x
    → draft_numeric prefer (at o 8) x keyword d
      ≡ record d { bytes = put o (octal_field 8 (magnitude x)) d.bytes }
draft_numeric-small prefer o (pos x) keyword d h = draft_numeric-octal prefer o 6 x keyword d h
draft_numeric-small prefer o (negsuc x) keyword d h = absurd h

-- The fields of a plain header, the last one first.
unfoldable pub plain_writes : Header → List (Field × Bytes)
plain_writes h =
    (ustar_dev_minor, octal_field 8 (magnitude h.dev_minor))
    ∷ (ustar_dev_major, octal_field 8 (magnitude h.dev_major))
    ∷ (ustar_group_name, text_field 32 h.gname)
    ∷ (ustar_user_name, text_field 32 h.uname)
    ∷ (v7_link_name, text_field 100 h.link_name)
    ∷ (v7_type_flag, h.type_flag ∷ [])
    ∷ (v7_mod_time, octal_field 12 (seconds_of h.mod_time))
    ∷ (v7_size, octal_field 12 h.size)
    ∷ (v7_gid, octal_field 8 (magnitude h.gid))
    ∷ (v7_uid, octal_field 8 (magnitude h.uid))
    ∷ (v7_mode, octal_field 8 h.mode)
    ∷ (v7_name, text_field 100 h.name)
    ∷ []

-- The draft that holds these fields and nothing amiss.
abbrev pub filled : Writer → List (Field × Bytes) → Draft
filled w ws = record { bytes = puts ws zero_block; binary = w.used_binary; bad = none; pax = [] }

pub draft_header-IsPlain :
    (w : Writer) (h : Header) → IsPlain h → draft_header w h ≡ filled w (plain_writes h)
unfolding draft_header plain_writes
draft_header-IsPlain w h v =
    let p = w.prefer_pax in
    let (et, bt) = clamp_time-seconds_of h.mod_time in
    let w1 : List (Field × Bytes) = (v7_name, text_field 100 h.name) ∷ [] in
    let w2 : List (Field × Bytes) = (v7_mode, octal_field 8 h.mode) ∷ w1 in
    let w3 : List (Field × Bytes) = (v7_uid, octal_field 8 (magnitude h.uid)) ∷ w2 in
    let w4 : List (Field × Bytes) = (v7_gid, octal_field 8 (magnitude h.gid)) ∷ w3 in
    let w5 : List (Field × Bytes) = (v7_size, octal_field 12 h.size) ∷ w4 in
    let w6 : List (Field × Bytes) = (v7_mod_time, octal_field 12 (seconds_of h.mod_time)) ∷ w5 in
    let w7 : List (Field × Bytes) = (v7_type_flag, h.type_flag ∷ []) ∷ w6 in
    let w8 : List (Field × Bytes) = (v7_link_name, text_field 100 h.link_name) ∷ w7 in
    let w9 : List (Field × Bytes) = (ustar_user_name, text_field 32 h.uname) ∷ w8 in
    let w10 : List (Field × Bytes) = (ustar_group_name, text_field 32 h.gname) ∷ w9 in
    let w11 : List (Field × Bytes) =
      (ustar_dev_major, octal_field 8 (magnitude h.dev_major)) ∷ w10 in
    let e1 =
      draft_string-IsText v7_name h.name (codes "path") (empty_draft w.used_binary) v.plain_name in
    let e2 =
      ap (draft_field v7_mode (format_octal 8 (pos h.mode))) e1
      ∙ draft_field-ok v7_mode (format_octal 8 (pos h.mode)) (octal_field 8 h.mode) (filled w w1)
          (format_octal-padded 6 h.mode v.plain_mode) in
    let e3 =
      ap (draft_numeric p v7_uid h.uid (codes "uid")) e2
      ∙ draft_numeric-small p 108 h.uid (codes "uid") (filled w w2) v.plain_uid in
    let e4 =
      ap (draft_numeric p v7_gid h.gid (codes "gid")) e3
      ∙ draft_numeric-small p 116 h.gid (codes "gid") (filled w w3) v.plain_gid in
    let e5 =
      ap (draft_numeric p v7_size (pos h.size) (codes "size")) e4
      ∙ draft_numeric-octal p 124 10 h.size (codes "size") (filled w w4) v.plain_size in
    let e6 =
      ap (draft_numeric p v7_mod_time (clamp_time h.mod_time) []) e5
      ∙ ap (λ (x : ℤ). draft_numeric p v7_mod_time x [] (filled w w5)) et
      ∙ draft_numeric-octal p 136 10 (seconds_of h.mod_time) [] (filled w w5) bt in
    let e7 =
      ap (draft_field v7_type_flag (ok (h.type_flag ∷ []))) e6
      ∙ draft_field-ok v7_type_flag (ok (h.type_flag ∷ [])) (h.type_flag ∷ []) (filled w w6) refl in
    let e8 =
      ap (draft_string v7_link_name h.link_name (codes "linkpath")) e7
      ∙ draft_string-IsText v7_link_name h.link_name (codes "linkpath") (filled w w7)
          v.plain_link in
    let e9 =
      ap (draft_string ustar_user_name h.uname (codes "uname")) e8
      ∙ draft_string-IsText ustar_user_name h.uname (codes "uname") (filled w w8) v.plain_uname in
    let e10 =
      ap (draft_string ustar_group_name h.gname (codes "gname")) e9
      ∙ draft_string-IsText ustar_group_name h.gname (codes "gname") (filled w w9) v.plain_gname in
    let e11 =
      ap (draft_numeric p ustar_dev_major h.dev_major []) e10
      ∙ draft_numeric-small p 329 h.dev_major [] (filled w w10) v.plain_major in
    ap (draft_numeric p ustar_dev_minor h.dev_minor []) e11
    ∙ draft_numeric-small p 337 h.dev_minor [] (filled w w11) v.plain_minor
