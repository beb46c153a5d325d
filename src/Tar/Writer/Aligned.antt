-- ===== src/Tar/Writer/Aligned.antt =====
-- deb/tar/writer.go: the blocks of the archive, over sequences of calls.
use mathlib.Core.Path.{subst}
use mkdeb.Prelude.{
  ◌+◌, ◌%◌, true, false, ◌≡◌, ◌≢◌, refl, sym, ◌∙◌, ap, List, [], ◌∷◌, ◌++◌, Option, none, some,
  Bytes, length, length-append, ltb, Bool-cases, inl, inr, arith,
}
use mkdeb.Tar.Strconv.{TarError}
use mkdeb.Tar.Block.{zero_block}
use mkdeb.Tar.Header.{Header}
use mkdeb.Tar.Writer.{
  Sink, Writer, flush, write, unless_fault, flush_unless, write_header, close_flushed, close,
}
use mkdeb.Tar.Writer.Padding.{IsReliable, zeros}
use mkdeb.Tar.Writer.Steps.{
  flush-padding, flush_missed, write_header_closed, write_header_open, close_open, close_closed,
  close_whole, close_missed,
}
use mkdeb.Tar.Writer.Flushed.{
  IsAligned, IsFlushed, flushed-IsAligned, length-zeros, flush-IsFlushed, write-IsAligned,
  start_header-IsAligned,
}

-- The operations that this program calls.
pub data Call : Type 0 where
  start : Header → Call
  content : Bytes → Call
  finish : Call

abbrev pub called : Sink → Call → Writer → Writer
called sink (start h) w = (write_header sink h w).0
called sink (content b) w = (write sink b w).0
called sink finish w = (close sink w).0

abbrev pub run : Sink → List Call → Writer → Writer
run sink [] w = w
run sink (c ∷ calls) w = run sink calls (called sink c w)

-- The length of an archive with its padding and its trailer.
pub trailer-length :
    (w : Writer)
    → w.nb ≡ 0
    → IsAligned w
    → (length (((w.out ++ zeros w.pad) ++ zero_block) ++ zero_block) + (0 + 0)) % 512 ≡ 0
trailer-length w n t = omega (
  arith,
  length-append ((w.out ++ zeros w.pad) ++ zero_block) zero_block,
  length-append (w.out ++ zeros w.pad) zero_block,
  length-append w.out (zeros w.pad),
  length-zeros w.pad,
)

module _ (sink : Sink) (r : IsReliable sink) where
  -- A writer that was flushed: its error is kept, or the entry is over.
  flush-state :
      (w : Writer)
      → w.fault ≡ none
      → IsAligned w
      → IsAligned (flush sink w)
        × ((flush sink w).closed ≡ w.closed)
        × ((flush sink w).fault ≡ none → IsFlushed (flush sink w))
  flush-state w f t = elim (Bool-cases (ltb 0 w.nb)) [
    | inl e ↦
        subst (λ (x : Writer). IsAligned x × (x.closed ≡ w.closed) × (x.fault ≡ none → IsFlushed x))
          (sym (flush_missed sink w e)) (t, refl, λ g. absurd (ground (arith, g)))
    | inr e ↦
        let n : w.nb ≡ 0 = ground arith in
        let u : IsFlushed (flush sink w) = flush-IsFlushed sink r w f n t in
        (
          flushed-IsAligned (flush sink w) u,
          ap (λ (x : Writer). x.closed) (flush-padding sink r w f n),
          λ g. u,
        )
  ]

  flush_unless-state :
      (w : Writer) (f : Option TarError)
      → w.fault ≡ f
      → IsAligned w
      → IsAligned (flush_unless sink f w)
        × ((flush_unless sink f w).closed ≡ w.closed)
        × ((flush_unless sink f w).fault ≡ none → IsFlushed (flush_unless sink f w))
  unfolding flush_unless
  flush_unless-state w none e t = flush-state w e t
  flush_unless-state w (some x) e t = (t, refl, λ g. absurd (some_none (sym e ∙ g)))
    where
      some_none : some x ≢ none
      some_none k = cc

  write_header-IsAligned :
      (h : Header) (w : Writer) → IsAligned w → IsAligned (write_header sink h w).0
  unfolding write_header
  write_header-IsAligned h w t =
      let w' : Writer = flush_unless sink w.fault w in
      let (a, b, c) = flush_unless-state w w.fault refl t in
      elim (Bool-cases w.closed) [
        | inl k ↦
            subst (λ (x : Writer × Option TarError). IsAligned x.0)
              (sym (write_header_closed sink h w k)) t
        | inr k ↦
            subst (λ (x : Writer × Option TarError). IsAligned x.0)
              (sym (write_header_open sink h w k))
              (start_header-IsAligned sink r h w' a (λ f. (b ∙ k, c f)))
      ]

  close_ok-IsAligned :
      (w : Writer) → w.closed ≡ false → w.fault ≡ none → IsAligned w → IsAligned (close sink w).0
  close_ok-IsAligned w c f t = elim (Bool-cases (ltb 0 w.nb)) [
    | inl e ↦
        subst (λ (x : Writer × Option TarError). IsAligned x.0) (sym (close_missed sink w c f e)) t
    | inr e ↦
        let n : w.nb ≡ 0 = ground arith in
        subst (λ (x : Writer × Option TarError). IsAligned x.0) (sym (close_whole sink r w c f n))
          (trailer-length w n t)
  ]

  close_open-IsAligned :
      (w : Writer) (f : Option TarError)
      → w.fault ≡ f
      → w.closed ≡ false
      → IsAligned w
      → IsAligned (close sink w).0
  unfolding unless_fault
  close_open-IsAligned w none f c t = close_ok-IsAligned w c f t
  close_open-IsAligned w (some e) f c t =
      let rest : Writer × Option TarError =
        close_flushed sink (record (flush sink w) { closed = true }) in
      subst (λ (x : Writer × Option TarError). IsAligned x.0)
        (sym (close_open sink w c ∙ ap (λ (o : Option TarError). unless_fault o w rest) f)) t

  close-IsAligned : (w : Writer) → IsAligned w → IsAligned (close sink w).0
  close-IsAligned w t = elim (Bool-cases w.closed) [
    | inl k ↦
        subst (λ (x : Writer × Option TarError). IsAligned x.0) (sym (close_closed sink w k)) t
    | inr k ↦ close_open-IsAligned w w.fault refl k t
  ]

  called-IsAligned : (c : Call) (w : Writer) → IsAligned w → IsAligned (called sink c w)
  called-IsAligned (start h) w t = write_header-IsAligned h w t
  called-IsAligned (content b) w t = write-IsAligned sink r b w t
  called-IsAligned finish w t = close-IsAligned w t

  -- On a sink that takes every chunk whole, the program's calls keep the archive in whole blocks: after
  -- any of them the bytes written, the bytes that the entry expects and its padding are together a
  -- multiple of 512.
  pub run-IsAligned : (calls : List Call) (w : Writer) → IsAligned w → IsAligned (run sink calls w)
  run-IsAligned [] w t = t
  run-IsAligned (c ∷ calls) w t = run-IsAligned calls (called sink c w) (called-IsAligned c w t)
