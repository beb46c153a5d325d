-- ===== src/Tar/Reading/Layout.antt =====
-- deb/tar/writer.go: the bytes of a whole archive, and what is read from them.
use mkdeb.Prelude.{
  ℕ, zero, suc, ◌+◌, ◌^◌, ◌≤◌, ◌<◌, Bool, true, false, ◌≡◌, refl, sym, ◌∙◌, ap, List, [], ◌∷◌, ◌++◌,
  Option, none, some, Bytes, All, map, take, length, length-append, ltb, ◌==◌, Lacks, ok, arith,
}
use mkdeb.Tar.Strconv.{parse_string}
use mkdeb.Tar.Block.{zero_block, get_format}
use mkdeb.Tar.Block.Fields.{puts, length-puts, parse_string-nul}
use mkdeb.Tar.Header.{Header, type_gnu_long_name}
use mkdeb.Tar.Writer.{Draft, draft_long_name, sealed, padding}
use mkdeb.Tar.Writer.Blocks.{length-sealed, length-draft_long_name}
use mkdeb.Tar.Writer.Padding.{zeros}
use mkdeb.Tar.Writer.Steps.{take_whole}
use mkdeb.Tar.Writer.Plain.{IsPlain, plain_writes}
use mkdeb.Tar.Writer.Sealed.{get_format-sealed}
use mkdeb.Tar.Reading.{Entry, with_entry, named, read_entries}
use mkdeb.Tar.Reading.Headers.{stored, plain_writes-IsBlock, read_header-sealed}
use mkdeb.Tar.Reading.LongName.{
  long_header, long_writes, draft_long_name_lem, long_writes-IsBlock, read_header-long_name,
}
use mkdeb.Tar.Reading.Entries.{
  Holds, entry_onto, trailer, read_entries-trailer, read_entries-entry, read_entries-long,
}

-- The header with the name that fits its block.
abbrev pub cut_name : Header → Header
cut_name h = record h { name = take 100 h.name }

-- A header that an archive holds, with a name of any length that eleven octal digits count.
pub record IsStorable (h : Header) : Type 0 where
  pub storable_name : Lacks 0 h.name
  pub storable_length : length h.name < 8 ^ 10
  pub storable_fields : IsPlain (cut_name h)
  pub storable_flag : (h.type_flag == type_gnu_long_name) ≡ false

-- An entry whose content has the size that its header says.
abbrev pub IsEntry : Entry → Type 0
IsEntry e = IsStorable e.header × (length e.content ≡ e.header.size)

abbrev pub plain_block : Header → Bytes
plain_block h = sealed false (puts (plain_writes h) zero_block)

abbrev pub long_block : Bytes → Bytes
long_block s = sealed true (draft_long_name s).bytes

-- The bytes of an entry in front of `t`: the long name when there is one, the header, the content and
-- its padding.
abbrev pub long_onto : Bool → Bytes → Bytes → Bytes
long_onto false name t = t
long_onto true name t =
    entry_onto (long_block (name ++ 0 ∷ [])) (length (name ++ 0 ∷ [])) (name ++ 0 ∷ []) t

abbrev pub body_onto : Entry → Bytes → Bytes
body_onto e t = entry_onto (plain_block (cut_name e.header)) e.header.size e.content t

abbrev pub layout : List Entry → Bytes
layout [] = trailer
layout (e ∷ es) = long_onto (ltb 100 (length e.header.name)) e.header.name (body_onto e (layout es))

abbrev pub stored_entry : Entry → Entry
stored_entry e = record { header = stored e.header; content = e.content }

plain_block-Holds : (h : Header) → IsPlain h → Holds (plain_block h) (stored h)
plain_block-Holds h v = record {
  is_whole =
      length-sealed false (puts (plain_writes h) zero_block)
      ∙ length-puts (plain_writes h) zero_block;
  is_known =
      get_format-sealed false (puts (plain_writes h) zero_block) (plain_writes-IsBlock false h v);
  is_read = read_header-sealed false h v;
}

long_block-Holds : (s : Bytes) → length s < 8 ^ 11 → Holds (long_block s) (long_header s)
long_block-Holds s l = record {
  is_whole = length-sealed true (draft_long_name s).bytes ∙ length-draft_long_name s;
  is_known = λ e.
      get_format-sealed true (puts (long_writes s) zero_block) (long_writes-IsBlock s l)
        (ap (λ (d : Draft). get_format (sealed true d.bytes)) (sym (draft_long_name_lem s l)) ∙ e);
  is_read = read_header-long_name s l;
}

block-le :
    (b content t : Bytes) (size : ℕ)
    → length b ≡ 512
    → 512 + length t ≤ length (entry_onto b size content t)
block-le b content t size l = omega (
  arith,
  l,
  length-append b (content ++ (zeros (padding size) ++ t)),
  length-append content (zeros (padding size) ++ t),
  length-append (zeros (padding size)) t,
)

-- The header and the content behind a name that was given or cut.
read_body :
    (e : Entry) (t : Bytes) (fuel : ℕ) (pending : Option Bytes)
    → IsEntry e
    → named pending (stored (cut_name e.header)) ≡ stored e.header
    → read_entries (suc fuel) pending (body_onto e t)
      ≡ with_entry (stored_entry e) (read_entries fuel none t)
read_body e t fuel pending (v, l) q =
    let h = stored (cut_name e.header) in
    let b = plain_block-Holds (cut_name e.header) v.storable_fields in
    read_entries-entry (plain_block (cut_name e.header)) h b e.content t l fuel pending
      v.storable_flag
    ∙ ap
        (λ (x : Header).
          with_entry (record { header = x; content = e.content }) (read_entries fuel none t))
        q

pub not_over : (n : ℕ) → ltb 100 n ≡ false → n ≤ 100
not_over n h = ground arith

long-le :
    (e : Entry) (t : Bytes)
    → IsEntry e
    → 1024 + length t ≤ length (long_onto true e.header.name (body_onto e t))
long-le e t (v, l) =
    let s : Bytes = e.header.name ++ 0 ∷ [] in
    omega (
      arith,
      block-le (long_block s) s (body_onto e t) (length s)
          (length-sealed true (draft_long_name s).bytes ∙ length-draft_long_name s),
      block-le (plain_block (cut_name e.header)) e.content t e.header.size
          (plain_block-Holds (cut_name e.header) v.storable_fields).is_whole,
    )

-- One entry is read and the rest behind it.
read_entry :
    (long : Bool) (e : Entry) (t : Bytes) (fuel : ℕ)
    → ltb 100 (length e.header.name) ≡ long
    → IsEntry e
    → length (long_onto long e.header.name (body_onto e t)) ≤ fuel
    → (rest : ℕ) × (length t ≤ rest)
      × (read_entries fuel none (long_onto long e.header.name (body_onto e t))
          ≡ with_entry (stored_entry e) (read_entries rest none t))
read_entry false e t zero k (v, l) f = absurd (
    omega (
      arith,
      block-le (plain_block (cut_name e.header)) e.content t e.header.size
          (plain_block-Holds (cut_name e.header) v.storable_fields).is_whole,
    ))
read_entry false e t (suc fuel) k (v, l) f =
    let b = plain_block-Holds (cut_name e.header) v.storable_fields in
    let whole : take 100 e.header.name ≡ e.header.name =
      take_whole 100 e.header.name (not_over (length e.header.name) k) in
    (
      fuel,
      omega (
        arith,
        f,
        block-le (plain_block (cut_name e.header)) e.content t e.header.size b.is_whole,
      ),
      read_body e t fuel none (v, l)
          (ap (λ (n : Bytes). stored (record e.header { name = n })) whole),
    )
read_entry true e t zero k (v, l) f = absurd (omega (arith, long-le e t (v, l)))
read_entry true e t (suc zero) k (v, l) f = absurd (omega (arith, long-le e t (v, l)))
read_entry true e t (suc (suc fuel)) k (v, l) f =
    let name = e.header.name in
    let s : Bytes = name ++ 0 ∷ [] in
    let n : length s < 8 ^ 11 = omega (arith, v.storable_length, length-append name (0 ∷ [])) in
    (
      fuel,
      omega (arith, f, long-le e t (v, l)),
      read_entries-long (long_block s) (long_header s) (long_block-Holds s n) s (body_onto e t) refl
            (suc fuel) none refl
          ∙ read_body e t fuel (some (parse_string s)) (v, l)
              (ap (λ (x : Bytes). stored (record e.header { name = x }))
                (parse_string-nul name [] v.storable_name)),
    )

pub read_layout :
    (es : List Entry) (fuel : ℕ)
    → All IsEntry es
    → length (layout es) ≤ fuel
    → read_entries fuel none (layout es) ≡ ok (map stored_entry es)
read_layout [] zero vs f = absurd (omega arith)
read_layout [] (suc fuel) vs f = read_entries-trailer fuel none
read_layout (e ∷ es) fuel (v, vs) f =
    let (rest, l, q) = read_entry (ltb 100 (length e.header.name)) e (layout es) fuel refl v f in
    q ∙ ap (with_entry (stored_entry e)) (read_layout es rest vs l)
