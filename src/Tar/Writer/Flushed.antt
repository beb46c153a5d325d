-- ===== src/Tar/Writer/Flushed.antt =====
-- deb/tar/writer.go: the header and the long name keep the archive in whole blocks.
use mathlib.Core.Path.{subst}
use mkdeb.Prelude.{
  ℕ, ◌+◌, ◌-◌, ◌%◌, ◌≤◌, Bool, true, false, ◌≡◌, refl, sym, ◌∙◌, List, [], ◌∷◌, ◌++◌, Option, none,
  some, Bytes, length, length-append, length-take, length-replicate, take, ltb, if◌then◌else◌,
  Bool-cases, inl, inr, arith,
}
use mkdeb.Tar.Strconv.{TarError}
use mkdeb.Tar.Header.{Header}
use mkdeb.Tar.Writer.{
  Sink, Writer, flush, write, Draft, draft_header, draft_long_name, sealed, padding, start_entry,
  end_header, write_fields, send_long_name, put_long_name, write_long_name, write_names,
  unless_fault, start_header,
}
use mkdeb.Tar.Writer.Blocks.{length-draft_header, length-draft_long_name, length-sealed}
use mkdeb.Tar.Writer.Padding.{IsReliable, zeros}
use mkdeb.Tar.Writer.Steps.{flush-padding, start_entry_lem, write-fitting, write_cut, write_closed}

-- What was written, the bytes that the entry expects, and its padding fill whole blocks.
abbrev pub IsAligned : Writer → Type 0
IsAligned w = (length w.out + (w.nb + w.pad)) % 512 ≡ 0

-- Whole blocks were written, and the entry is over.
abbrev pub IsFlushed : Writer → Type 0
IsFlushed w = (length w.out % 512 ≡ 0) × (w.nb ≡ 0) × (w.pad ≡ 0)

pub flushed-IsAligned : (w : Writer) → IsFlushed w → IsAligned w
flushed-IsAligned w (a, b, c) = omega arith

padding_lem : (n : ℕ) → (n + padding n) % 512 ≡ 0
padding_lem n = omega arith

pub length-zeros : (n : ℕ) → length (zeros n) ≡ n
length-zeros n = length-replicate {A = ℕ} n 0

module _ (sink : Sink) (r : IsReliable sink) where
  -- After a flush without an error the entry is over.
  pub flush-IsFlushed :
      (w : Writer) → w.fault ≡ none → w.nb ≡ 0 → IsAligned w → IsFlushed (flush sink w)
  flush-IsFlushed w f n h =
      subst IsFlushed (sym (flush-padding sink r w f n))
        (omega (arith, length-append w.out (zeros w.pad), length-zeros w.pad), refl, refl)

  start_entry-IsAligned :
      (block : Bytes) (size : ℕ) (w : Writer)
      → length block ≡ 512
      → IsFlushed w
      → IsAligned (start_entry sink block size w)
  start_entry-IsAligned block size w k (a, b, c) =
      subst IsAligned (sym (start_entry_lem sink r block size w))
        (omega (arith, length-append w.out block, padding_lem size))

  end_header-IsAligned :
      (h : Header) (d : Draft) (bad : Option TarError) (pax : List (Bytes × Bytes)) (w : Writer)
      → length d.bytes ≡ 512
      → IsFlushed w
      → IsAligned (end_header sink h d bad pax w).0
  unfolding end_header
  end_header-IsAligned h d (some e) pax w k t = flushed-IsAligned w t
  end_header-IsAligned h d none (p ∷ pax) w k t = flushed-IsAligned w t
  end_header-IsAligned h d none [] w k t =
      start_entry-IsAligned (sealed d.binary d.bytes) h.size w (length-sealed d.binary d.bytes ∙ k)
        t

  write_fields-IsAligned :
      (h : Header) (w : Writer) → IsFlushed w → IsAligned (write_fields sink h w).0
  unfolding write_fields
  write_fields-IsAligned h w t =
      let d = draft_header w h in
      end_header-IsAligned h d d.bad d.pax (record w { used_binary = d.binary })
        (length-draft_header w h) t

  pub write-IsAligned : (b : Bytes) (w : Writer) → IsAligned w → IsAligned (write sink b w).0
  unfolding write
  write-IsAligned b w h = elim (Bool-cases w.closed) [
    | inl c ↦
        subst (λ (t : Writer × ℕ × Option TarError). IsAligned t.0) (sym (write_closed sink b w c))
          h
    | inr c ↦ elim (Bool-cases (ltb w.nb (length b))) [
      | inl k ↦
          subst (λ (t : Writer × ℕ × Option TarError). IsAligned t.0)
            (sym (write_cut sink r b w c k))
            (ground (arith, length-append w.out (take w.nb b), length-take w.nb b))
      | inr k ↦
          let i : length b ≤ w.nb = ground arith in
          subst (λ (t : Writer × ℕ × Option TarError). IsAligned t.0)
            (sym (write-fitting sink r b w c i)) (omega (arith, length-append w.out b))
    ]
  ]

  -- The long name goes out whole, with its padding.
  send_long_name-IsFlushed :
      (long_name : Bytes) (w : Writer)
      → w.closed ≡ false
      → w.nb ≡ length long_name
      → IsAligned w
      → IsFlushed (send_long_name sink long_name w)
  unfolding send_long_name
  send_long_name-IsFlushed long_name w c n h =
      let w' : Writer = record w {
        out = w.out ++ long_name;
        nb = w.nb - length long_name;
        fault = none;
      } in
      subst
        (λ (t : Writer × ℕ × Option TarError).
          IsFlushed (elim t.2 [ none ↦ flush sink t.0 | some e ↦ record (t.0) { fault = some e } ]))
        (sym (write-fitting sink r long_name w c (omega arith)))
        (flush-IsFlushed w' refl (omega arith) (omega (arith, length-append w.out long_name)))

  put_long_name-IsFlushed :
      (long_name : Bytes) (d : Draft) (bad : Option TarError) (w : Writer)
      → length d.bytes ≡ 512
      → w.closed ≡ false
      → IsFlushed w
      → IsFlushed (put_long_name sink long_name d bad w)
  unfolding put_long_name
  put_long_name-IsFlushed long_name d (some e) w k c t = t
  put_long_name-IsFlushed long_name d none w k c t =
      let block : Bytes = sealed true d.bytes in
      let w' : Writer = record w {
        out = w.out ++ block;
        fault = none;
        nb = length long_name;
        pad = padding (length long_name);
      } in
      let e : start_entry sink block (length long_name) w ≡ w' =
        start_entry_lem sink r block (length long_name) w in
      subst
        (λ (x : Writer).
          IsFlushed (elim x.fault [ none ↦ send_long_name sink long_name x | some f ↦ x ]))
        (sym e)
        (send_long_name-IsFlushed long_name w' c refl (
          subst IsAligned e
            (start_entry-IsAligned block (length long_name) w (length-sealed true d.bytes ∙ k) t)))

  write_long_name-IsFlushed :
      (name : Bytes) (w : Writer)
      → w.closed ≡ false
      → IsFlushed w
      → IsFlushed (write_long_name sink name w)
  unfolding write_long_name
  write_long_name-IsFlushed name w c t =
      let d : Draft = draft_long_name (name ++ 0 ∷ []) in
      put_long_name-IsFlushed (name ++ 0 ∷ []) d d.bad w (length-draft_long_name (name ++ 0 ∷ [])) c
        t

  unless_fault-IsAligned :
      (f : Option TarError) (w : Writer) (rest : Writer × Option TarError)
      → IsAligned w
      → (f ≡ none → IsAligned rest.0)
      → IsAligned (unless_fault f w rest).0
  unfolding unless_fault
  unless_fault-IsAligned none w rest t k = k refl
  unless_fault-IsAligned (some e) w rest t k = t

  if-IsAligned :
      (b : Bool) (x y : Writer × Option TarError)
      → IsAligned x.0
      → IsAligned y.0
      → IsAligned (if b then x else y).0
  if-IsAligned true x y t u = t
  if-IsAligned false x y t u = u

  write_names-IsAligned :
      (h : Header) (w : Writer)
      → w.closed ≡ false
      → IsFlushed w
      → IsAligned (write_names sink h w).0
  unfolding write_names
  write_names-IsAligned h w c t =
      let w' : Writer = write_long_name sink h.name w in
      let h' : Header = record h { name = take 100 h.name } in
      let t' : IsFlushed w' = write_long_name-IsFlushed h.name w c t in
      if-IsAligned (ltb 100 (length h.name)) (unless_fault w'.fault w' (write_fields sink h' w'))
        (write_fields sink h w)
        (unless_fault-IsAligned w'.fault w' (write_fields sink h' w') (flushed-IsAligned w' t')
          (λ f. write_fields-IsAligned h' w' t'))
        (write_fields-IsAligned h w t)

  pub start_header-IsAligned :
      (h : Header) (w : Writer)
      → IsAligned w
      → (w.fault ≡ none → (w.closed ≡ false) × IsFlushed w)
      → IsAligned (start_header sink h w).0
  unfolding start_header
  start_header-IsAligned h w t k =
      unless_fault-IsAligned w.fault w (write_names sink h w) t
        (λ f. let (c, u) = k f in write_names-IsAligned h w c u)
