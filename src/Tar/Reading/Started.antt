-- ===== src/Tar/Reading/Started.antt =====
-- deb/tar/writer.go: what `WriteHeader` lays out in front of the contents, with and without a long name.
use mathlib.Core.Path.{subst}
use mkdeb.Prelude.{
  ℕ, ◌-◌, ◌^◌, ◌≤◌, ◌<◌, Bool, true, false, ◌≡◌, refl, sym, ◌∙◌, ap, [], ◌∷◌, ◌++◌, append_assoc,
  Option, none, some, Bytes, take, length, length-append, length-take, ltb, arith, if_true,
}
use mkdeb.Tar.Strconv.{TarError}
use mkdeb.Tar.Block.{zero_block}
use mkdeb.Tar.Block.Fields.{puts}
use mkdeb.Tar.Header.{Header}
use mkdeb.Tar.Writer.{
  Sink, Writer, Draft, draft_header, draft_long_name, sealed, padding, send_long_name,
  put_long_name, write_long_name, write_fields, write_names, unless_fault, flush_unless,
  start_header, write_header, flush,
}
use mkdeb.Tar.Writer.Padding.{IsReliable, zeros}
use mkdeb.Tar.Writer.Steps.{
  flush-padding, take_whole, start_entry_lem, write-fitting, write_header_open,
}
use mkdeb.Tar.Writer.Layout.{Fits, header_block, behind_header, write_fields_lem, write_header-Fits}
use mkdeb.Tar.Writer.Plain.{IsPlain, plain_writes, draft_header-IsPlain}
use mkdeb.Tar.Reading.LongName.{draft_long_name_lem}
use mkdeb.Tar.Reading.Layout.{cut_name, not_over, IsStorable, plain_block, long_block, long_onto}

-- An open writer between two entries, on which nothing failed.
pub record IsReady (w : Writer) : Type 0 where
  pub is_open : w.closed ≡ false
  pub no_fault : w.fault ≡ none
  pub no_bytes : w.nb ≡ 0
  pub no_binary : w.used_binary ≡ false

-- The writer behind a header, and the bytes that went out.
pub record IsStarted (sink : Sink) (h : Header) (w w' : Writer) (long : Bool) : Type 0 where
  pub started : write_header sink h w ≡ (w', none)
  pub still_open : w'.closed ≡ false
  pub still_good : w'.fault ≡ none
  pub bytes_left : w'.nb ≡ h.size
  pub pad_left : w'.pad ≡ padding h.size
  pub still_octal : w'.used_binary ≡ false
  pub laid_out :
      (t : Bytes)
      → w'.out ++ t
        ≡ (w.out ++ zeros w.pad) ++ long_onto long h.name (plain_block (cut_name h) ++ t)

module _ (w : Writer) (h : Header) (v : IsPlain h) where
  plain-Fits : ltb 100 (length h.name) ≡ false → Fits w h
  plain-Fits k =
      let e = draft_header-IsPlain w h v in
      (ap (λ (d : Draft). d.bad) e, ap (λ (d : Draft). d.pax) e, k)

  header_block-plain : w.used_binary ≡ false → header_block w h ≡ plain_block h
  header_block-plain b =
      ap (λ (d : Draft). sealed d.binary d.bytes) (draft_header-IsPlain w h v)
      ∙ ap (λ (x : Bool). sealed x (puts (plain_writes h) zero_block)) b

  binary-plain : w.used_binary ≡ false → (draft_header w h).binary ≡ false
  binary-plain b = ap (λ (d : Draft). d.binary) (draft_header-IsPlain w h v) ∙ b

same_name : (h : Header) → ltb 100 (length h.name) ≡ false → h ≡ cut_name h
same_name h k =
    ap (λ (n : Bytes). let x : Header = record h { name = n } in x)
      (sym (take_whole 100 h.name (not_over (length h.name) k)))

fits_name : (n : ℕ) → n ≤ 100 → ltb 100 n ≡ false
fits_name n h = ground arith

cut_fits : (h : Header) → ltb 100 (length (take 100 h.name)) ≡ false
cut_fits h = fits_name (length (take 100 h.name)) (omega (arith, length-take 100 h.name))

module _ (sink : Sink) (r : IsReliable sink) where
  -- The long name and its padding go out.
  pub write_long_name_lem :
      (name : Bytes) (w : Writer)
      → length (name ++ 0 ∷ []) < 8 ^ 11
      → w.closed ≡ false
      → write_long_name sink name w ≡ record w {
        out =
            ((w.out ++ long_block (name ++ 0 ∷ [])) ++ (name ++ 0 ∷ []))
            ++ zeros (padding (length (name ++ 0 ∷ [])));
        fault = none;
        nb = 0;
        pad = 0;
      }
  unfolding write_long_name put_long_name send_long_name
  write_long_name_lem name w l c =
      let s : Bytes = name ++ 0 ∷ [] in
      let d = draft_long_name s in
      let w1 : Writer = record w {
        out = w.out ++ long_block s;
        fault = none;
        nb = length s;
        pad = padding (length s);
      } in
      let bad : d.bad ≡ none = ap (λ (x : Draft). x.bad) (draft_long_name_lem s l) in
      let z : length s - length s ≡ 0 = omega arith in
      let after : Writer × ℕ × Option TarError → Writer =
        λ x. elim x.2 [ none ↦ flush sink x.0 | some e ↦ record x.0 { fault = some e } ] in
      ap (λ (e : Option TarError). put_long_name sink s d e w) bad
      ∙ ap (λ (x : Writer). elim x.fault [ none ↦ send_long_name sink s x | some e ↦ x ])
          (start_entry_lem sink r (long_block s) (length s) w)
      ∙ ap after (write-fitting sink r s w1 c (omega arith))
      ∙ flush-padding sink r
          (record w1 { out = w1.out ++ s; nb = length s - length s; fault = none }) refl z

  start_short :
      (h : Header) (w : Writer)
      → IsReady w
      → IsStorable h
      → ltb 100 (length h.name) ≡ false
      → (w' : Writer) × IsStarted sink h w w' false
  start_short h w a v k =
      let same : h ≡ cut_name h = same_name h k in
      let p : IsPlain h = subst IsPlain (sym same) v.storable_fields in
      (
        behind_header w h,
        record {
          started =
              write_header-Fits sink r h w a.is_open a.no_fault a.no_bytes (plain-Fits w h p k);
          still_open = a.is_open;
          still_good = refl;
          bytes_left = refl;
          pad_left = refl;
          still_octal = binary-plain w h p a.no_binary;
          laid_out = λ t.
              ap (λ (b : Bytes). ((w.out ++ zeros w.pad) ++ b) ++ t)
                (header_block-plain w h p a.no_binary ∙ ap plain_block same)
              ∙ append_assoc (w.out ++ zeros w.pad) (plain_block (cut_name h)) t;
        },
      )

  start_long :
      (h : Header) (w : Writer)
      → IsReady w
      → IsStorable h
      → ltb 100 (length h.name) ≡ true
      → (w' : Writer) × IsStarted sink h w w' true
  unfolding start_header unless_fault flush_unless write_names
  start_long h w a v k =
      let s : Bytes = h.name ++ 0 ∷ [] in
      let l : length s < 8 ^ 11 = omega (arith, v.storable_length, length-append h.name (0 ∷ [])) in
      let c = cut_name h in
      let w0 : Writer = record w { out = w.out ++ zeros w.pad; fault = none; nb = 0; pad = 0 } in
      let w1 : Writer = record w0 {
        out = ((w0.out ++ long_block s) ++ s) ++ zeros (padding (length s));
      } in
      let fits = plain-Fits w1 c v.storable_fields (cut_fits h) in
      let w2 : Writer = record w1 {
        out = w1.out ++ header_block w1 c;
        nb = h.size;
        pad = padding h.size;
        used_binary = (draft_header w1 c).binary;
      } in
      let named : Writer → Writer × Option TarError =
        λ x. unless_fault x.fault x (write_fields sink c x) in
      (
        w2,
        record {
          started =
              write_header_open sink h w a.is_open
              ∙ ap (λ (e : Option TarError). start_header sink h (flush_unless sink e w)) a.no_fault
              ∙ ap (start_header sink h) (flush-padding sink r w a.no_fault a.no_bytes)
              ∙ if_true (ltb 100 (length h.name)) (named (write_long_name sink h.name w0))
                  (write_fields sink h w0) k
              ∙ ap named (write_long_name_lem h.name w0 l a.is_open)
              ∙ write_fields_lem sink r c w1 fits;
          still_open = a.is_open;
          still_good = refl;
          bytes_left = refl;
          pad_left = refl;
          still_octal = binary-plain w1 c v.storable_fields a.no_binary;
          laid_out = λ t.
              ap (λ (b : Bytes). (w1.out ++ b) ++ t)
                (header_block-plain w1 c v.storable_fields a.no_binary)
              ∙ append_assoc w1.out (plain_block c) t
              ∙ append_assoc ((w0.out ++ long_block s) ++ s) (zeros (padding (length s)))
                  (plain_block c ++ t)
              ∙ append_assoc (w0.out ++ long_block s) s
                  (zeros (padding (length s)) ++ (plain_block c ++ t))
              ∙ append_assoc w0.out (long_block s)
                  (s ++ (zeros (padding (length s)) ++ (plain_block c ++ t)));
        },
      )

  pub start_either :
      (long : Bool) (h : Header) (w : Writer)
      → IsReady w
      → IsStorable h
      → ltb 100 (length h.name) ≡ long
      → (w' : Writer) × IsStarted sink h w w' long
  start_either false h w a v k = start_short h w a v k
  start_either true h w a v k = start_long h w a v k
