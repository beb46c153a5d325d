-- ===== src/Tar/Writer/Steps.antt =====
-- deb/tar/writer.go: the steps of the writer, as equations.
use mkdeb.Prelude.{
  ℕ, zero, suc, ◌-◌, ◌≤◌, true, false, ◌≡◌, refl, ◌∙◌, ap, [], ◌∷◌, ◌++◌, Option, none, some, Bytes,
  length, length-take, take, if_false, if_true, ltb, arith,
}
use mkdeb.Tar.Strconv.{TarError, missed_writing, err_write_too_long, err_write_after_close}
use mkdeb.Tar.Block.{zero_block}
use mkdeb.Tar.Header.{Header}
use mkdeb.Tar.Writer.{
  Sink, Writer, Sent, send, flush, write, write_sent, padding, start_entry, write_header, close,
  trailer_unless, or_break, start_header, flush_unless, unless_fault, close_flushed, send_trailer,
}
use mkdeb.Tar.Writer.Padding.{IsReliable, send_lem, zeros, pad_out-zeros}

-- The rest of an entry is padding: it goes out.
pub flush-padding :
    (sink : Sink)
    → IsReliable sink
    → (w : Writer) → w.fault ≡ none
    → w.nb ≡ 0
    → flush sink w ≡ record w { out = w.out ++ zeros w.pad; fault = none; nb = 0; pad = 0 }
unfolding flush
flush-padding sink r w f n =
    let (a, b) = pad_out-zeros sink r w.pad w.pad w.out (omega arith) in rw (n, f, a, b) refl

-- Bytes of an entry are missing: the error is kept.
pub flush_missed :
    (sink : Sink) (w : Writer)
    → ltb 0 w.nb ≡ true
    → flush sink w ≡ record w { fault = some (missed_writing w.nb) }
unfolding flush
flush_missed sink w h = rw h refl

-- A header goes out.
pub start_entry_lem :
    (sink : Sink)
    → IsReliable sink
    → (block : Bytes) (size : ℕ) (w : Writer)
    → start_entry sink block size w
      ≡ record w { out = w.out ++ block; fault = none; nb = size; pad = padding size }
unfolding start_entry
start_entry_lem sink r block size w = rw (send_lem sink r w.out block) refl

pub take_whole : (n : ℕ) (b : Bytes) → length b ≤ n → take n b ≡ b
take_whole zero [] h = refl
take_whole zero (c ∷ b) h = absurd (omega arith)
take_whole (suc n) [] h = refl
take_whole (suc n) (c ∷ b) h = ap (λ (l : Bytes). c ∷ l) (take_whole n b (omega arith))

-- Content that fits goes out whole.
pub write-fitting :
    (sink : Sink)
    → IsReliable sink
    → (b : Bytes) (w : Writer) → w.closed ≡ false
    → length b ≤ w.nb
    → write sink b w
      ≡ (record w { out = w.out ++ b; nb = w.nb - length b; fault = none }, length b, none)
unfolding write write_sent
write-fitting sink r b w c h =
    let k : ltb w.nb (length b) ≡ false = ground arith in
    if_false w.closed (w, 0, some err_write_after_close)
      (write_sent (ltb w.nb (length b)) w (send sink w.out (take w.nb b))) c
    ∙ ap (write_sent (ltb w.nb (length b)) w) (send_lem sink r w.out (take w.nb b))
    ∙ rw (k, take_whole w.nb b h) refl

-- A closed writer takes nothing.
pub write_closed :
    (sink : Sink) (b : Bytes) (w : Writer)
    → w.closed ≡ true
    → write sink b w ≡ (w, 0, some err_write_after_close)
unfolding write
write_closed sink b w c =
    if_true w.closed (w, 0, some err_write_after_close)
      (write_sent (ltb w.nb (length b)) w (send sink w.out (take w.nb b))) c

pub write_header_closed :
    (sink : Sink) (h : Header) (w : Writer)
    → w.closed ≡ true
    → write_header sink h w ≡ (w, some err_write_after_close)
unfolding write_header
write_header_closed sink h w c = if_true w.closed (w, some err_write_after_close) _ c

pub write_header_open :
    (sink : Sink) (h : Header) (w : Writer)
    → w.closed ≡ false
    → write_header sink h w ≡ start_header sink h (flush_unless sink w.fault w)
unfolding write_header
write_header_open sink h w c =
    if_false w.closed (w, some err_write_after_close)
      (start_header sink h (flush_unless sink w.fault w)) c

pub close_open :
    (sink : Sink) (w : Writer)
    → w.closed ≡ false
    → close sink w
      ≡ unless_fault w.fault w (close_flushed sink (record (flush sink w) { closed = true }))
unfolding close
close_open sink w c =
    if_false w.closed (w, w.fault)
      (unless_fault w.fault w (close_flushed sink (record (flush sink w) { closed = true }))) c

pub close_closed : (sink : Sink) (w : Writer) → w.closed ≡ true → close sink w ≡ (w, w.fault)
unfolding close
close_closed sink w c = if_true w.closed (w, w.fault) _ c

-- Content that is too long is cut, and the error is returned but not kept.
pub write_cut :
    (sink : Sink)
    → IsReliable sink
    → (b : Bytes) (w : Writer) → w.closed ≡ false
    → ltb w.nb (length b) ≡ true
    → write sink b w
      ≡ (record w { out = w.out ++ take w.nb b; nb = 0 }, w.nb, some err_write_too_long)
unfolding write write_sent
write_cut sink r b w c h =
    let k : length (take w.nb b) ≡ w.nb = ground (arith, length-take w.nb b) in
    let z : w.nb - w.nb ≡ 0 = omega arith in
    if_false w.closed (w, 0, some err_write_after_close)
      (write_sent (ltb w.nb (length b)) w (send sink w.out (take w.nb b))) c
    ∙ ap (write_sent (ltb w.nb (length b)) w) (send_lem sink r w.out (take w.nb b))
    ∙ rw (h, k, z) refl

-- The trailer goes out.
send_trailer-suc :
    (sink : Sink)
    → IsReliable sink
    → (n : ℕ) (w : Writer)
    → send_trailer sink (suc n) w
      ≡ send_trailer sink n (record w { out = w.out ++ zero_block; fault = none })
unfolding send_trailer
send_trailer-suc sink r n w =
    ap
      (λ (s : Sent).
        let w' = record w { out = s.received; fault = s.failure } in
        or_break s.failure w' (send_trailer sink n w'))
      (send_lem sink r w.out zero_block)

pub send_trailer_lem :
    (sink : Sink)
    → IsReliable sink
    → (w : Writer)
    → send_trailer sink 2 w ≡ record w { out = (w.out ++ zero_block) ++ zero_block; fault = none }
unfolding send_trailer
send_trailer_lem sink r w =
    send_trailer-suc sink r 1 w
    ∙ send_trailer-suc sink r 0 (record w { out = w.out ++ zero_block; fault = none })

-- `Close` of an open writer on which nothing failed: the padding and the trailer go out, or the error
-- is that bytes of the entry are missing.
pub close_whole :
    (sink : Sink)
    → IsReliable sink
    → (w : Writer) → w.closed ≡ false
    → w.fault ≡ none
    → w.nb ≡ 0
    → close sink w ≡ (
      record w {
        out = ((w.out ++ zeros w.pad) ++ zero_block) ++ zero_block;
        fault = none;
        nb = 0;
        pad = 0;
        closed = true;
      },
      none,
    )
unfolding unless_fault close_flushed trailer_unless
close_whole sink r w c f n =
    let w' : Writer = record w {
      out = w.out ++ zeros w.pad;
      fault = none;
      nb = 0;
      pad = 0;
      closed = true;
    } in
    close_open sink w c
    ∙ ap
        (λ (e : Option TarError).
          unless_fault e w (close_flushed sink (record (flush sink w) { closed = true })))
        f
    ∙ ap (λ (x : Writer). close_flushed sink (record x { closed = true }))
        (flush-padding sink r w f n)
    ∙ ap (λ (x : Writer). (x, x.fault)) (send_trailer_lem sink r w')

pub close_missed :
    (sink : Sink) (w : Writer)
    → w.closed ≡ false
    → w.fault ≡ none
    → ltb 0 w.nb ≡ true
    → close sink w
      ≡ (record w { fault = some (missed_writing w.nb); closed = true }, some (missed_writing w.nb))
unfolding unless_fault close_flushed trailer_unless
close_missed sink w c f n =
    close_open sink w c
    ∙ ap
        (λ (e : Option TarError).
          unless_fault e w (close_flushed sink (record (flush sink w) { closed = true })))
        f
    ∙ ap (λ (x : Writer). close_flushed sink (record x { closed = true })) (flush_missed sink w n)
