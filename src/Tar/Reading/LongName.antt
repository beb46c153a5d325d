-- ===== src/Tar/Reading/LongName.antt =====
-- deb/tar/writer.go: the block of a long name that is read back.
use mkdeb.Prelude.{
  ℕ, suc, ◌^◌, ◌≤◌, ◌<◌, true, false, ◌≡◌, refl, ◌∙◌, ap, List, [], ◌∷◌, ◌++◌, Bytes, codes, All,
  length, ok, pos, arith,
}
use mkdeb.Tar.Strconv.{
  is_ascii, format_octal, format_string, parse_string, parse_numeric, parse_octal,
}
use mkdeb.Tar.Strconv.Octal.{format_octal-padded}
use mkdeb.Tar.Block.{
  Field, at, slice, zero_block, v7_name, v7_mode, v7_uid, v7_gid, v7_size, v7_mod_time,
  v7_type_flag, v7_link_name, ustar_user_name, ustar_group_name, ustar_dev_major, ustar_dev_minor,
}
use mkdeb.Tar.Block.Sealing.{IsBlock}
use mkdeb.Tar.Block.Fields.{
  puts, Fitting, all_apart, slice-puts_apart, IsText, text_field, format_string-IsText,
}
use mkdeb.Tar.Header.{Header, type_gnu_long_name}
use mkdeb.Tar.Writer.{Draft, draft_field, draft_long_name, sealed, empty_draft, new_writer}
use mkdeb.Tar.Writer.Plain.{octal_field, length-octal_field, draft_field-ok, filled}
use mkdeb.Tar.Writer.Sealed.{
  seal_writes, seal_writes-Fitting, sealed-puts, puts-IsBlock, octal_field-bytes, text_field-bytes,
}
use mkdeb.Tar.Reading.{read_header}
use mkdeb.Tar.Reading.Headers.{append-Fitting}
use mkdeb.Tar.Reading.Fields.{text_at, number_at, flag_at}

abbrev pub link_text : Bytes
link_text = codes "././@LongLink"

link_text-IsText : IsText 100 link_text
unfolding is_ascii
link_text-IsText = (refl, omega arith, refl)

-- The fields of the block in front of a long name.
abbrev pub long_writes : Bytes → List (Field × Bytes)
long_writes s =
    (v7_mod_time, octal_field 12 0)
    ∷ (v7_size, octal_field 12 (length s))
    ∷ (v7_gid, octal_field 8 0)
    ∷ (v7_uid, octal_field 8 0)
    ∷ (v7_mode, octal_field 8 0o644)
    ∷ (v7_name, text_field 100 link_text)
    ∷ (v7_type_flag, type_gnu_long_name ∷ [])
    ∷ []

-- The header in front of a long name.
abbrev pub long_header : Bytes → Header
long_header s = record {
  name = link_text;
  mode = 0o644;
  uid = pos 0;
  gid = pos 0;
  size = length s;
  mod_time = record { seconds = pos 0; nanos = 0 };
  type_flag = type_gnu_long_name;
  link_name = [];
  uname = [];
  gname = [];
  dev_major = pos 0;
  dev_minor = pos 0;
}

module _ (s : Bytes) (l : length s < 8 ^ 11) where
  octal_put :
      (o k x : ℕ) (ws : List (Field × Bytes))
      → x < 8 ^ suc k
      → draft_field (at o (suc (suc k))) (format_octal (suc (suc k)) (pos x)) (filled new_writer ws)
        ≡ filled new_writer ((at o (suc (suc k)), octal_field (suc (suc k)) x) ∷ ws)
  octal_put o k x ws h =
      draft_field-ok (at o (suc (suc k))) (format_octal (suc (suc k)) (pos x))
        (octal_field (suc (suc k)) x) (filled new_writer ws) (format_octal-padded k x h)

  pub draft_long_name_lem : draft_long_name s ≡ filled new_writer (long_writes s)
  unfolding draft_long_name
  draft_long_name_lem =
      let w1 : List (Field × Bytes) = (v7_type_flag, type_gnu_long_name ∷ []) ∷ [] in
      let w2 : List (Field × Bytes) = (v7_name, text_field 100 link_text) ∷ w1 in
      let w3 : List (Field × Bytes) = (v7_mode, octal_field 8 0o644) ∷ w2 in
      let w4 : List (Field × Bytes) = (v7_uid, octal_field 8 0) ∷ w3 in
      let w5 : List (Field × Bytes) = (v7_gid, octal_field 8 0) ∷ w4 in
      let w6 : List (Field × Bytes) = (v7_size, octal_field 12 (length s)) ∷ w5 in
      let e1 =
        draft_field-ok v7_type_flag (ok (type_gnu_long_name ∷ [])) (type_gnu_long_name ∷ [])
          (empty_draft false) refl in
      let e2 =
        ap (draft_field v7_name (format_string 100 link_text)) e1
        ∙ draft_field-ok v7_name (format_string 100 link_text) (text_field 100 link_text)
            (filled new_writer w1) (format_string-IsText 100 link_text link_text-IsText) in
      let e3 =
        ap (draft_field v7_mode (format_octal 8 (pos 0o644))) e2
        ∙ octal_put 100 6 0o644 w2 (omega arith) in
      let e4 =
        ap (draft_field v7_uid (format_octal 8 (pos 0))) e3 ∙ octal_put 108 6 0 w3 (omega arith) in
      let e5 =
        ap (draft_field v7_gid (format_octal 8 (pos 0))) e4 ∙ octal_put 116 6 0 w4 (omega arith) in
      let e6 =
        ap (draft_field v7_size (format_octal 12 (pos (length s)))) e5
        ∙ octal_put 124 10 (length s) w5 l in
      ap (draft_field v7_mod_time (format_octal 12 (pos 0))) e6
      ∙ octal_put 136 10 0 w6 (omega arith)

  pub long_writes-Fitting : Fitting (long_writes s)
  long_writes-Fitting =
      let num : (k x : ℕ) → x < 8 ^ suc k → length (octal_field (suc (suc k)) x) ≤ suc (suc k) =
        λ k x b. omega (arith, length-octal_field k x b) in
      (
        num 10 0 (omega arith),
        (
          num 10 (length s) l,
          (
            num 6 0 (omega arith),
            (num 6 0 (omega arith), (num 6 0o644 (omega arith), (omega arith, (omega arith, tt)))),
          ),
        ),
      )

  long_writes-bytes : All (λ w. All (λ c. c < 256) w.1) (long_writes s)
  long_writes-bytes =
      let num = octal_field-bytes in
      (
        num 12 0,
        (
          num 12 (length s),
          (
            num 8 0,
            (
              num 8 0,
              (
                num 8 0o644,
                (text_field-bytes 100 100 link_text link_text-IsText, ((omega arith, tt), tt)),
              ),
            ),
          ),
        ),
      )

  pub long_writes-IsBlock : IsBlock (puts (long_writes s) zero_block)
  long_writes-IsBlock = puts-IsBlock (long_writes s) long_writes-bytes

  abbrev long_all : List (Field × Bytes)
  long_all = seal_writes true (puts (long_writes s) zero_block) ++ long_writes s

  long_all-Fitting : Fitting long_all
  long_all-Fitting =
      append-Fitting (seal_writes true (puts (long_writes s) zero_block)) (long_writes s)
        (seal_writes-Fitting true (puts (long_writes s) zero_block) long_writes-IsBlock)
        long_writes-Fitting

  -- A field that nothing was written to.
  unwritten :
      (f : Field)
      → all_apart f (long_all ++ []) ≡ true
      → slice f (puts (long_all ++ []) zero_block) ≡ slice f zero_block
  unwritten f a = slice-puts_apart f long_all [] zero_block long_all-Fitting a

  read_long : read_header (puts long_all zero_block) ≡ ok (long_header s)
  unfolding read_header parse_numeric parse_octal parse_string
  read_long =
      let f = long_all-Fitting in
      rw
        (
          number_at long_all f 8 100 6 0o644 refl refl (omega arith) (omega arith) (omega arith),
          number_at long_all f 7 108 6 0 refl refl (omega arith) (omega arith) (omega arith),
          number_at long_all f 6 116 6 0 refl refl (omega arith) (omega arith) (omega arith),
          number_at long_all f 5 124 10 (length s) refl refl l (omega (arith, l)) (omega arith),
          number_at long_all f 4 136 10 0 refl refl (omega arith) (omega arith) (omega arith),
          unwritten ustar_dev_major refl,
          unwritten ustar_dev_minor refl,
          text_at long_all f 9 v7_name link_text refl refl link_text-IsText (omega arith),
          flag_at long_all f 10 v7_type_flag type_gnu_long_name refl refl refl (omega arith),
          unwritten v7_link_name refl,
          unwritten ustar_user_name refl,
          unwritten ustar_group_name refl,
        )
        refl

  -- The block in front of a long name is read back as the header of that name.
  pub read_header-long_name :
      read_header (sealed true (draft_long_name s).bytes) ≡ ok (long_header s)
  read_header-long_name =
      ap (λ (d : Draft). read_header (sealed true d.bytes)) draft_long_name_lem
      ∙ ap read_header (sealed-puts true (long_writes s) long_writes-IsBlock)
      ∙ read_long
