-- ===== src/Tar/Writer.antt =====
-- deb/tar/writer.go: the writer. What it writes to is a parameter, the sink: it sees what it has
-- received and a chunk, and answers `none` when it takes the chunk, and `some n` when it fails after
-- `n` bytes, as `io.Writer` is documented. `WriteHeader` always passes false for `allowPax`, so the
-- PAX records are collected and never written.
pub mod Blocks
pub mod Padding
pub mod Steps
pub mod Flushed
pub mod Aligned
pub mod Closing
pub mod Layout
pub mod Plain
pub mod Sealed
pub mod Prefix
pub mod PrefixSearch
pub mod PrefixSplit
pub mod PaxHeader
use mkdeb.Prelude.{
  ℕ, zero, suc, ◌+◌, ◌-◌, ◌%◌, ◌^◌, Bool, true, false, not, ◌&&◌, ◌||◌, List, [], ◌∷◌, ◌++◌, Option,
  none, some, Bytes, codes, length, take, replicate, min, ltb, leb, ◌==◌, if◌then◌else◌, Result, ok,
  err, ℤ, pos, negsuc,
}
use mkdeb.Disk.{Time}
use mkdeb.Tar.Strconv.{
  TarError, err_write_too_long, err_field_too_long, err_write_after_close, err_invalid_header,
  missed_writing, io_error, is_ascii, format_string, format_int, format_octal, format_numeric,
}
use mkdeb.Tar.Block.{
  Field, block_size, zero_block, put, Format, gnu, ustar, set_format, v7_name, v7_mode, v7_uid,
  v7_gid, v7_size, v7_mod_time, v7_type_flag, v7_link_name, ustar_user_name, ustar_group_name,
  ustar_dev_major, ustar_dev_minor,
}
use mkdeb.Tar.Header.{Header, type_gnu_long_name}

abbrev pub Sink : Type 0
Sink = Bytes → Bytes → Option ℕ

-- `Writer`, with what the sink has received.
pub record Writer : Type 0 where
  pub out : Bytes
  pub fault : Option TarError
  pub nb : ℕ
  pub pad : ℕ
  pub closed : Bool
  pub used_binary : Bool
  pub prefer_pax : Bool

-- `NewWriter`.
abbrev pub new_writer : Writer
new_writer = record {
  out = [];
  fault = none;
  nb = 0;
  pad = 0;
  closed = false;
  used_binary = false;
  prefer_pax = false;
}

-- One call of the sink: what it has received then, how many bytes it took, and the error.
pub record Sent : Type 0 where
  pub received : Bytes
  pub count : ℕ
  pub failure : Option TarError

sent_by : Bytes → Bytes → Option ℕ → Sent
sent_by out chunk none = record { received = out ++ chunk; count = length chunk; failure = none }
sent_by out chunk (some n) = record {
  received = out ++ take n chunk;
  count = min n (length chunk);
  failure = some io_error;
}

unfoldable pub send : Sink → Bytes → Bytes → Sent
unfolding sent_by
send sink out chunk = sent_by out chunk (sink out chunk)

-- The loop of `Flush` on `n` bytes of padding. It takes at least one byte in a round that does not
-- fail, so `n` rounds are enough.
unfoldable pub pad_out : Sink → ℕ → ℕ → Bytes → Sent
unfolding send
pad_out sink zero n out = record { received = out; count = 0; failure = none }
pad_out sink (suc fuel) n out =
    let s = send sink out (replicate (min n block_size) 0) in
    let rest = pad_out sink fuel (n - s.count) s.received in
    if n == 0
    then record { received = out; count = 0; failure = none }
    else elim s.failure [ none ↦ rest | some e ↦ s ]

-- `Flush`. The error is kept, and returned.
unfoldable pub flush : Sink → Writer → Writer
unfolding pad_out
flush sink w =
    if ltb 0 w.nb then record w { fault = some (missed_writing w.nb) } else elim w.fault [
      | none ↦
          let s = pad_out sink w.pad w.pad w.out in
          record w { out = s.received; fault = s.failure; nb = 0; pad = 0 }
      | some e ↦ record w { nb = 0; pad = 0 }
    ]

-- `Write`: the writer, how many bytes it took, and the error it returns. When the content was cut and
-- the sink took it, the error is returned and not kept.
write_sent : Bool → Writer → Sent → Writer × ℕ × Option TarError
write_sent overwrite w s =
    let w' = record w { out = s.received; nb = w.nb - s.count } in
    elim s.failure [
      | none ↦
          if overwrite
          then (w', s.count, some err_write_too_long)
          else (record w' { fault = none }, s.count, none)
      | some e ↦ (record w' { fault = some e }, s.count, some e)
    ]

unfoldable pub write : Sink → Bytes → Writer → Writer × ℕ × Option TarError
unfolding send write_sent
write sink b w =
    if w.closed
    then (w, 0, some err_write_after_close)
    else write_sent (ltb w.nb (length b)) w (send sink w.out (take w.nb b))

-- A header block in the making: its bytes, whether a number went in as binary, the formatter's error,
-- and the PAX records that would be needed.
pub record Draft : Type 0 where
  pub bytes : Bytes
  pub binary : Bool
  pub bad : Option TarError
  pub pax : List (Bytes × Bytes)

abbrev pub empty_draft : Bool → Draft
empty_draft binary = record { bytes = zero_block; binary = binary; bad = none; pax = [] }

-- A field filled in, or the error kept.
pub draft_field : Field → Result TarError Bytes → Draft → Draft
draft_field f (ok s) d = record d { bytes = put f.offset s d.bytes }
draft_field f (err e) d = record d { bad = some e }

abbrev is_empty : Bytes → Bool
is_empty [] = true
is_empty (c ∷ s) = false

-- The local `formatString` of `writeHeader`.
unfoldable pub draft_string : Field → Bytes → Bytes → Draft → Draft
unfolding draft_field
draft_string f s keyword d =
    if not (is_empty keyword) && ltb f.size (length s) || not (is_ascii s)
    then record d { pax = (keyword, s) ∷ d.pax }
    else draft_field f (format_string f.size s) d

-- The local `formatNumeric`: octal, a PAX record where that is preferred, or binary.
unfoldable pub draft_numeric : Bool → Field → ℤ → Bytes → Draft → Draft
unfolding draft_field
draft_numeric prefer_pax f x keyword d =
    if ltb (length (format_int 8 x)) f.size
    then draft_field f (format_octal f.size x) d
    else if not (is_empty keyword) && prefer_pax
    then draft_field f (format_octal f.size (pos 0))
        (record d { pax = (keyword, format_int 10 x) ∷ d.pax })
    else draft_field f (format_numeric f.size x) (record d { binary = true })

-- The modification time, or zero when it is outside of what 11 octal digits hold.
in_range : ℤ → ℕ → Bool
in_range (pos s) nanos = ltb s (2 ^ 33 - 1) || (s == 2 ^ 33 - 1 && nanos == 0)
in_range (negsuc s) nanos = false

unfoldable pub clamp_time : Time → ℤ
unfolding in_range
clamp_time t = if in_range t.seconds t.nanos then t.seconds else pos 0

-- The fields of `writeHeader`, in its order.
unfoldable pub draft_header : Writer → Header → Draft
unfolding draft_string draft_numeric
draft_header w h =
    let num = draft_numeric w.prefer_pax in
    let d = draft_string v7_name h.name (codes "path") (empty_draft w.used_binary) in
    let d = draft_field v7_mode (format_octal 8 (pos h.mode)) d in
    let d = num v7_uid h.uid (codes "uid") d in
    let d = num v7_gid h.gid (codes "gid") d in
    let d = num v7_size (pos h.size) (codes "size") d in
    let d = num v7_mod_time (clamp_time h.mod_time) [] d in
    let d = draft_field v7_type_flag (ok (h.type_flag ∷ [])) d in
    let d = draft_string v7_link_name h.link_name (codes "linkpath") d in
    let d = draft_string ustar_user_name h.uname (codes "uname") d in
    let d = draft_string ustar_group_name h.gname (codes "gname") d in
    let d = num ustar_dev_major h.dev_major [] d in num ustar_dev_minor h.dev_minor [] d

-- `SetFormat` with GNU or USTAR, on which it does not panic.
unfoldable pub sealed : Bool → Bytes → Bytes
unfolding set_format
sealed binary b = elim (set_format (if binary then gnu else ustar) b) [ none ↦ b | some c ↦ c ]

abbrev pub padding : ℕ → ℕ
padding n = (block_size - n % block_size) % block_size

-- The header block goes out, and the writer expects `size` bytes.
unfoldable pub start_entry : Sink → Bytes → ℕ → Writer → Writer
unfolding send
start_entry sink block size w =
    let s = send sink w.out block in
    record w { out = s.received; fault = s.failure; nb = size; pad = padding size }

-- The end of `writeHeader`: the formatter's error is kept; a header that would need a PAX record is
-- refused, and that is not kept.
pub end_header :
    Sink
    → Header
    → Draft
    → Option TarError
    → List (Bytes × Bytes)
    → Writer
    → Writer × Option TarError
unfolding start_entry sealed
end_header sink h d (some e) pax w = (record w { fault = some e }, some e)
end_header sink h d none (record' ∷ pax) w = (w, some err_invalid_header)
end_header sink h d none [] w =
    let w = start_entry sink (sealed d.binary d.bytes) h.size w in (w, w.fault)

unfoldable pub write_fields : Sink → Header → Writer → Writer × Option TarError
unfolding draft_header end_header
write_fields sink h w =
    let d = draft_header w h in
    end_header sink h d d.bad d.pax (record w { used_binary = d.binary })

-- The block of a GNU long name entry.
unfoldable pub draft_long_name : Bytes → Draft
unfolding draft_field
draft_long_name long_name =
    let d = draft_field v7_type_flag (ok (type_gnu_long_name ∷ [])) (empty_draft false) in
    let d = draft_field v7_name (format_string 100 (codes "././@LongLink")) d in
    let d = draft_field v7_mode (format_octal 8 (pos 0o644)) d in
    let d = draft_field v7_uid (format_octal 8 (pos 0)) d in
    let d = draft_field v7_gid (format_octal 8 (pos 0)) d in
    let d = draft_field v7_size (format_octal 12 (pos (length long_name))) d in
    draft_field v7_mod_time (format_octal 12 (pos 0)) d

-- The name that follows, and its padding.
unfoldable pub send_long_name : Sink → Bytes → Writer → Writer
unfolding write flush
send_long_name sink long_name w =
    let (w, _, failure) = write sink long_name w in
    elim failure [ none ↦ flush sink w | some e ↦ record w { fault = some e } ]

unfoldable pub put_long_name : Sink → Bytes → Draft → Option TarError → Writer → Writer
unfolding start_entry send_long_name sealed
put_long_name sink long_name d (some e) w = record w { fault = some e }
put_long_name sink long_name d none w =
    let w = start_entry sink (sealed true d.bytes) (length long_name) w in
    elim w.fault [ none ↦ send_long_name sink long_name w | some e ↦ w ]

unfoldable pub write_long_name : Sink → Bytes → Writer → Writer
unfolding put_long_name draft_long_name
write_long_name sink name w =
    let long_name = name ++ 0 ∷ [] in
    let d = draft_long_name long_name in put_long_name sink long_name d d.bad w

-- `if tw.err != nil { return tw.err }` in front of the rest.
unfoldable pub unless_fault :
    Option TarError → Writer → Writer × Option TarError → Writer × Option TarError
unless_fault none w rest = rest
unless_fault (some e) w rest = (w, some e)

-- `if tw.err == nil { tw.Flush() }`.
unfoldable pub flush_unless : Sink → Option TarError → Writer → Writer
unfolding flush
flush_unless sink none w = flush sink w
flush_unless sink (some e) w = w

-- `writeHeader` with allowPax false, which is `WriteHeader`: the writer and the error it returns.
unfoldable pub write_names : Sink → Header → Writer → Writer × Option TarError
unfolding write_long_name write_fields unless_fault
write_names sink h w =
    if ltb 100 (length h.name)
    then (let w = write_long_name sink h.name w in
        unless_fault w.fault w (write_fields sink (record h { name = take 100 h.name }) w))
    else write_fields sink h w

unfoldable pub start_header : Sink → Header → Writer → Writer × Option TarError
unfolding write_names unless_fault
start_header sink h w = unless_fault w.fault w (write_names sink h w)

unfoldable pub write_header : Sink → Header → Writer → Writer × Option TarError
unfolding start_header flush_unless
write_header sink h w =
    if w.closed
    then (w, some err_write_after_close)
    else start_header sink h (flush_unless sink w.fault w)

-- `Close`: the rest of the entry, and two zero blocks, up to an error.
abbrev pub or_break : Option TarError → Writer → Writer → Writer
or_break none w rest = rest
or_break (some e) w rest = w

unfoldable pub send_trailer : Sink → ℕ → Writer → Writer
unfolding send
send_trailer sink zero w = w
send_trailer sink (suc n) w =
    let s = send sink w.out zero_block in
    let w' = record w { out = s.received; fault = s.failure } in
    let rest = send_trailer sink n w' in or_break s.failure w' rest

-- The trailer, unless the flush failed.
pub trailer_unless : Sink → Option TarError → Writer → Writer
unfolding send_trailer
trailer_unless sink none w = send_trailer sink 2 w
trailer_unless sink (some e) w = w

pub close_flushed : Sink → Writer → Writer × Option TarError
unfolding trailer_unless
close_flushed sink w = let w = trailer_unless sink w.fault w in (w, w.fault)

unfoldable pub close : Sink → Writer → Writer × Option TarError
unfolding close_flushed unless_fault flush
close sink w =
    if w.closed
    then (w, w.fault)
    else unless_fault w.fault w (close_flushed sink (record (flush sink w) { closed = true }))
