-- ===== src/Tar/Writer/Layout.antt =====
-- deb/tar/writer.go: where the bytes of an entry lie in the archive.
use mkdeb.Prelude.{
  false, ◌≡◌, ◌∙◌, ap, List, [], ◌++◌, Option, none, Bytes, length, take, ltb, if_false,
}
use mkdeb.Tar.Strconv.{TarError}
use mkdeb.Tar.Header.{Header}
use mkdeb.Tar.Writer.{
  Sink, Writer, draft_header, sealed, padding, end_header, write_fields, write_long_name,
  write_names, unless_fault, flush_unless, start_header, write_header,
}
use mkdeb.Tar.Writer.Padding.{IsReliable, zeros}
use mkdeb.Tar.Writer.Steps.{flush-padding, start_entry_lem, write_header_open}

-- The header fits its block: no field has an error, and none would need a PAX record.
abbrev pub Fits : Writer → Header → Type 0
Fits w h =
    ((draft_header w h).bad ≡ none)
    × ((draft_header w h).pax ≡ [])
    × (ltb 100 (length h.name) ≡ false)

abbrev pub header_block : Writer → Header → Bytes
header_block w h = sealed (draft_header w h).binary (draft_header w h).bytes

-- The writer behind a header.
abbrev pub behind_header : Writer → Header → Writer
behind_header w h = record w {
  out = (w.out ++ zeros w.pad) ++ header_block w h;
  fault = none;
  nb = h.size;
  pad = padding h.size;
  used_binary = (draft_header w h).binary;
}

pub write_fields_lem :
    (sink : Sink)
    → IsReliable sink
    → (h : Header) (w : Writer) → Fits w h
    → write_fields sink h w ≡ (
      record w {
        out = w.out ++ header_block w h;
        fault = none;
        nb = h.size;
        pad = padding h.size;
        used_binary = (draft_header w h).binary;
      },
      none,
    )
unfolding write_fields end_header
write_fields_lem sink r h w (b, p, l) =
    let d = draft_header w h in
    let w' : Writer = record w { used_binary = d.binary } in
    ap (λ (e : Option TarError). end_header sink h d e d.pax w') b
    ∙ ap (λ (x : List (Bytes × Bytes)). end_header sink h d none x w') p
    ∙ ap (λ (x : Writer). (x, x.fault)) (start_entry_lem sink r (sealed d.binary d.bytes) h.size w')

-- A header that fits goes out behind the padding of the entry before.
pub write_header-Fits :
    (sink : Sink)
    → IsReliable sink
    → (h : Header) (w : Writer) → w.closed ≡ false
    → w.fault ≡ none
    → w.nb ≡ 0
    → Fits w h
    → write_header sink h w ≡ (behind_header w h, none)
unfolding start_header unless_fault flush_unless write_names
write_header-Fits sink r h w c f n (b, p, l) =
    let w' : Writer = record w { out = w.out ++ zeros w.pad; fault = none; nb = 0; pad = 0 } in
    write_header_open sink h w c
    ∙ ap (λ (e : Option TarError). start_header sink h (flush_unless sink e w)) f
    ∙ ap (start_header sink h) (flush-padding sink r w f n)
    ∙ if_false (ltb 100 (length h.name))
        (unless_fault (write_long_name sink h.name w').fault (write_long_name sink h.name w') (
          write_fields sink (record h { name = take 100 h.name }) (write_long_name sink h.name w')))
        (write_fields sink h w') l
    ∙ write_fields_lem sink r h w' (b, p, l)
