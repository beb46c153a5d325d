-- ===== src/Tar/Writer/Closing.antt =====
-- deb/tar/writer.go: `Close`, and the calls of a closed writer.
use mkdeb.Prelude.{
  ℕ, zero, suc, ◌%◌, true, false, ◌≡◌, refl, ◌∙◌, ap, List, [], ◌∷◌, ◌++◌, Option, none, some,
  length, ltb, Bool-cases, inl, inr, arith,
}
use mkdeb.Tar.Strconv.{TarError, missed_writing}
use mkdeb.Tar.Block.{zero_block}
use mkdeb.Tar.Writer.{
  Sink, Writer, send, flush, send_trailer, trailer_unless, or_break, close_flushed, unless_fault,
  close,
}
use mkdeb.Tar.Writer.Padding.{IsReliable, zeros}
use mkdeb.Tar.Writer.Steps.{
  write_closed, write_header_closed, close_closed, close_open, close_whole, close_missed,
}
use mkdeb.Tar.Writer.Flushed.{IsAligned}
use mkdeb.Tar.Writer.Aligned.{Call, start, content, finish, called, run, trailer-length}

-- On a sink that takes every chunk whole, `Close` of an open writer without an error and in whole blocks
-- closes it. When the entry still expects bytes, it returns how many, and writes nothing. Otherwise it
-- returns no error, and writes the padding of the entry and two blocks of zeros, which makes a whole
-- number of blocks.
pub close-trailer :
    (sink : Sink)
    → IsReliable sink
    → (w : Writer) → w.closed ≡ false
    → w.fault ≡ none
    → IsAligned w
    → ((close sink w).0.closed ≡ true)
      × (ltb 0 w.nb ≡ true
          → ((close sink w).1 ≡ some (missed_writing w.nb)) × ((close sink w).0.out ≡ w.out))
      × (w.nb ≡ 0
          → ((close sink w).1 ≡ none)
            × ((close sink w).0.out ≡ ((w.out ++ zeros w.pad) ++ zero_block) ++ zero_block)
            × (length (close sink w).0.out % 512 ≡ 0))
close-trailer sink r w c f t = (
  elim (Bool-cases (ltb 0 w.nb)) [
    | inl e ↦ ap (λ (x : Writer × Option TarError). x.0.closed) (close_missed sink w c f e)
    | inr e ↦
        let n : w.nb ≡ 0 = ground arith in
        ap (λ (x : Writer × Option TarError). x.0.closed) (close_whole sink r w c f n)
  ],
  λ e. (
    ap (λ (x : Writer × Option TarError). x.1) (close_missed sink w c f e),
    ap (λ (x : Writer × Option TarError). x.0.out) (close_missed sink w c f e),
  ),
  λ n.
      let o = ap (λ (x : Writer × Option TarError). x.0.out) (close_whole sink r w c f n) in
      (
        ap (λ (x : Writer × Option TarError). x.1) (close_whole sink r w c f n),
        o,
        omega (arith, trailer-length w n t, ap length o),
      ),
)

called_closed : (sink : Sink) (c : Call) (w : Writer) → w.closed ≡ true → called sink c w ≡ w
called_closed sink (start h) w k =
    ap (λ (x : Writer × Option TarError). x.0) (write_header_closed sink h w k)
called_closed sink (content b) w k =
    ap (λ (x : Writer × ℕ × Option TarError). x.0) (write_closed sink b w k)
called_closed sink finish w k = ap (λ (x : Writer × Option TarError). x.0) (close_closed sink w k)

run_closed : (sink : Sink) (calls : List Call) (w : Writer) → w.closed ≡ true → run sink calls w ≡ w
run_closed sink [] w k = refl
run_closed sink (c ∷ calls) w k =
    ap (run sink calls) (called_closed sink c w k) ∙ run_closed sink calls w k

send_trailer-closed : (sink : Sink) (n : ℕ) (w : Writer) → (send_trailer sink n w).closed ≡ w.closed
unfolding send_trailer
send_trailer-closed sink zero w = refl
send_trailer-closed sink (suc n) w =
    let s = send sink w.out zero_block in
    let w' : Writer = record w { out = s.received; fault = s.failure } in
    or_break-closed s.failure w' (send_trailer sink n w') (send_trailer-closed sink n w')
  where
    or_break-closed :
        (f : Option TarError) (w rest : Writer)
        → rest.closed ≡ w.closed
        → (or_break f w rest).closed ≡ w.closed
    or_break-closed none w rest k = k
    or_break-closed (some e) w rest k = refl

trailer_unless-closed :
    (sink : Sink) (f : Option TarError) (w : Writer) → (trailer_unless sink f w).closed ≡ w.closed
unfolding trailer_unless
trailer_unless-closed sink none w = send_trailer-closed sink 2 w
trailer_unless-closed sink (some e) w = refl

closes :
    (sink : Sink) (w : Writer) → w.closed ≡ false → w.fault ≡ none → (close sink w).0.closed ≡ true
unfolding close_flushed unless_fault
closes sink w c f =
    let w' : Writer = record (flush sink w) { closed = true } in
    ap (λ (x : Writer × Option TarError). x.0.closed)
      (close_open sink w c
        ∙ ap (λ (e : Option TarError). unless_fault e w (close_flushed sink w')) f)
    ∙ trailer_unless-closed sink w'.fault w'

-- Whatever the sink does, a writer without an error that was closed is closed for good: no call of the
-- program changes it, and none writes a byte.
pub run-close :
    (sink : Sink) (calls : List Call) (w : Writer)
    → w.fault ≡ none
    → run sink calls (close sink w).0 ≡ (close sink w).0
run-close sink calls w f = run_closed sink calls (close sink w).0 (elim (Bool-cases w.closed) [
  | inl c ↦ ap (λ (x : Writer × Option TarError). x.0.closed) (close_closed sink w c) ∙ c
  | inr c ↦ closes sink w c f
])
