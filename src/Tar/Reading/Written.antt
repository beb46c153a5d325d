-- ===== src/Tar/Reading/Written.antt =====
-- deb/tar/writer.go: the bytes that the calls of the writer lay out, and what is read from them.
use mathlib.Core.Path.{subst}
use mkdeb.Prelude.{
  ℕ, ◌-◌, false, ◌≡◌, refl, sym, ◌∙◌, ap, List, [], ◌∷◌, ◌++◌, append_assoc, Option, none, Bytes,
  All, map, length, ltb, ok, arith,
}
use mkdeb.Tar.Strconv.{TarError}
use mkdeb.Tar.Block.{zero_block}
use mkdeb.Tar.Writer.{Sink, Writer, new_writer, padding, write_header, write, close}
use mkdeb.Tar.Writer.Padding.{IsReliable, zeros}
use mkdeb.Tar.Writer.Steps.{write-fitting, close_whole}
use mkdeb.Tar.Reading.{Entry, read_archive}
use mkdeb.Tar.Reading.Entries.{trailer}
use mkdeb.Tar.Reading.Layout.{IsEntry, long_onto, body_onto, layout, stored_entry, read_layout}
use mkdeb.Tar.Reading.Started.{IsReady, start_either}

-- An entry is written by `WriteHeader` and `Write`, as the archives of the program write theirs.
abbrev pub add : Sink → Entry → Writer → Writer
add sink e w = (write sink e.content (write_header sink e.header w).0).0

abbrev pub add_all : Sink → List Entry → Writer → Writer
add_all sink [] w = w
add_all sink (e ∷ es) w = add_all sink es (add sink e w)

module _ (sink : Sink) (r : IsReliable sink) where
  -- The writer behind the contents of an entry.
  abbrev pub filled_up : Bytes → Writer → Writer
  filled_up content w = record w {
    out = w.out ++ content;
    nb = w.nb - length content;
    fault = none;
  }

  -- However the contents were written, the entry is laid out behind the padding of the entry before.
  pub write_header-IsEntry :
      (e : Entry) (w : Writer)
      → IsReady w
      → IsEntry e
      → (w1 : Writer) × (write_header sink e.header w ≡ (w1, none))
        × (w1.closed ≡ false)
        × (w1.fault ≡ none)
        × (w1.nb ≡ length e.content)
        × IsReady (filled_up e.content w1)
        × ((t : Bytes)
            → ((w1.out ++ e.content) ++ zeros w1.pad) ++ t
              ≡ (w.out ++ zeros w.pad)
                ++ long_onto (ltb 100 (length e.header.name)) e.header.name (body_onto e t))
  write_header-IsEntry e w a (v, l) =
      let (w1, s) = start_either sink r (ltb 100 (length e.header.name)) e.header w a v refl in
      (
        w1,
        s.started,
        s.still_open,
        s.still_good,
        s.bytes_left ∙ sym l,
        record {
          is_open = s.still_open;
          no_fault = refl;
          no_bytes = omega (arith, l, s.bytes_left);
          no_binary = s.still_octal;
        },
        λ t.
            append_assoc (w1.out ++ e.content) (zeros w1.pad) t
            ∙ append_assoc w1.out e.content (zeros w1.pad ++ t)
            ∙ ap (λ (n : ℕ). w1.out ++ (e.content ++ (zeros n ++ t))) s.pad_left
            ∙ s.laid_out (e.content ++ (zeros (padding e.header.size) ++ t)),
      )

  -- The entry `e` was written: the writer is ready for the next one, behind the bytes of `e`.
  abbrev pub IsWritten : Entry → Writer → Writer → Type 0
  IsWritten e w w' =
      IsReady w'
      × ((t : Bytes)
          → (w'.out ++ zeros w'.pad) ++ t
            ≡ (w.out ++ zeros w.pad)
              ++ long_onto (ltb 100 (length e.header.name)) e.header.name (body_onto e t))

  -- `WriteHeader` and `Write` of an entry.
  pub add-IsWritten :
      (e : Entry) (w : Writer) → IsReady w → IsEntry e → IsWritten e w (add sink e w)
  add-IsWritten e w a v =
      let (w1, q, c, f, n, ready, t) = write_header-IsEntry e w a v in
      subst (IsWritten e w)
        (sym (
          ap (λ (x : Writer × Option TarError). (write sink e.content x.0).0) q
          ∙ ap (λ (x : Writer × ℕ × Option TarError). x.0)
              (write-fitting sink r e.content w1 c (omega (arith, n)))))
        (ready, t)

  -- The entries `es` were written.
  abbrev pub AreWritten : List Entry → Writer → Writer → Type 0
  AreWritten es w w' =
      IsReady w' × ((w'.out ++ zeros w'.pad) ++ trailer ≡ (w.out ++ zeros w.pad) ++ layout es)

  pub written_cons :
      (e : Entry) (es : List Entry) (w w1 w2 : Writer)
      → IsWritten e w w1
      → AreWritten es w1 w2
      → AreWritten (e ∷ es) w w2
  written_cons e es w w1 w2 (a, q) (b, t) = (b, t ∙ q (layout es))

  add_all-AreWritten :
      (es : List Entry) (w : Writer)
      → IsReady w
      → All IsEntry es
      → AreWritten es w (add_all sink es w)
  add_all-AreWritten [] w a vs = (a, refl)
  add_all-AreWritten (e ∷ es) w a (v, vs) =
      let x = add-IsWritten e w a v in
      written_cons e es w (add sink e w) (add_all sink es (add sink e w)) x
        (add_all-AreWritten es (add sink e w) x.0 vs)

  pub new_writer-IsReady : IsReady new_writer
  new_writer-IsReady = record { is_open = refl; no_fault = refl; no_bytes = refl; no_binary = refl }

  -- What is read of the archive that is closed behind written entries.
  pub read_archive-AreWritten :
      (es : List Entry) (w : Writer)
      → All IsEntry es
      → AreWritten es new_writer w
      → ((close sink w).1 ≡ none) × (read_archive (close sink w).0.out ≡ ok (map stored_entry es))
  read_archive-AreWritten es w vs (a, q) =
      let c = close_whole sink r w a.is_open a.no_fault a.no_bytes in
      let bytes : (close sink w).0.out ≡ layout es =
        ap (λ (x : Writer × Option TarError). x.0.out) c
        ∙ append_assoc (w.out ++ zeros w.pad) zero_block zero_block
        ∙ q in
      (
        ap (λ (x : Writer × Option TarError). x.1) c,
        ap read_archive bytes ∙ read_layout es (length (layout es)) vs (omega arith),
      )

  -- On a sink that takes every chunk whole, entries that are written one behind the other to a new
  -- writer and closed without an error give an archive from which an independent reader reads the
  -- same entries in the same order, with the times cut to the seconds that the archive holds. Names may be
  -- longer than the field of the header; all else fits its field, and contents have the size their
  -- header says.
  pub read_archive-close :
      (es : List Entry)
      → All IsEntry es
      → ((close sink (add_all sink es new_writer)).1 ≡ none)
        × (read_archive (close sink (add_all sink es new_writer)).0.out ≡ ok (map stored_entry es))
  read_archive-close es vs =
      read_archive-AreWritten es (add_all sink es new_writer) vs
        (add_all-AreWritten es new_writer new_writer-IsReady vs)
