-- ===== src/Tar/Writer/Padding.antt =====
-- deb/tar/writer.go: the loop of `Flush` on a sink that takes every chunk whole.
use mathlib.Core.Path.{subst}
use mkdeb.Prelude.{
  ℕ, zero, suc, Option, ◌+◌, ◌-◌, ◌≤◌, true, false, ◌≡◌, refl, sym, ◌∙◌, ap, ◌∷◌, ◌++◌, append-nil,
  append_assoc, none, some, Bytes, length, length-replicate, replicate, min, ◌==◌, Bool-cases, inl,
  inr, arith, ==_iff,
}
use mkdeb.Tar.Writer.{Sink, Sent, send, sent_by, pad_out}

-- A sink that takes every chunk whole.
abbrev pub IsReliable : Sink → Type 0
IsReliable sink = (out chunk : Bytes) → sink out chunk ≡ none

abbrev pub all_sent : Bytes → Bytes → Sent
all_sent out chunk = record { received = out ++ chunk; count = length chunk; failure = none }

pub send_lem :
    (sink : Sink) → IsReliable sink → (out chunk : Bytes) → send sink out chunk ≡ all_sent out chunk
unfolding send sent_by
send_lem sink h out chunk = rw (h out chunk)

abbrev pub zeros : ℕ → Bytes
zeros n = replicate n 0

zeros_add : (m n : ℕ) → zeros (m + n) ≡ zeros m ++ zeros n
zeros_add zero n = ap zeros (omega arith)
zeros_add (suc m) n =
    ap zeros (let e : suc m + n ≡ suc (m + n) = omega arith in e)
    ∙ ap (λ (l : Bytes). 0 ∷ l) (zeros_add m n)

-- A round of the loop takes as much as a block holds.
pad_out-round :
    (sink : Sink)
    → IsReliable sink
    → (fuel n : ℕ) (out : Bytes) → (n == 0) ≡ false
    → pad_out sink (suc fuel) n out ≡ pad_out sink fuel (n - min n 512) (out ++ zeros (min n 512))
unfolding pad_out
pad_out-round sink r fuel n out e = rw e (
    ap
      (λ (s : Sent). elim s.failure [
        | none ↦ pad_out sink fuel (n - s.count) s.received
        | some f ↦ s
      ])
      (send_lem sink r out (zeros (min n 512)))
    ∙ ap (λ (k : ℕ). pad_out sink fuel (n - k) (out ++ zeros (min n 512)))
        (length-replicate {A = ℕ} (min n 512) 0))

-- With as many rounds as there are bytes of padding, the loop writes them all.
pub pad_out-zeros :
    (sink : Sink)
    → IsReliable sink
    → (fuel n : ℕ) (out : Bytes) → n ≤ fuel
    → ((pad_out sink fuel n out).received ≡ out ++ zeros n)
      × ((pad_out sink fuel n out).failure ≡ none)
unfolding pad_out
pad_out-zeros sink r zero n out h =
    (sym (ap (λ (k : ℕ). out ++ zeros k) (let e : n ≡ 0 = omega arith in e) ∙ append-nil out), refl)
pad_out-zeros sink r (suc fuel) n out h = elim (Bool-cases (n == 0)) [
  | inl e ↦ rw e (sym (ap (λ (k : ℕ). out ++ zeros k) ((==_iff n 0).0 e) ∙ append-nil out), refl)
  | inr e ↦
      let k : n - min n 512 ≤ fuel = ground arith in
      let (a, b) = pad_out-zeros sink r fuel (n - min n 512) (out ++ zeros (min n 512)) k in
      let t : zeros (min n 512) ++ zeros (n - min n 512) ≡ zeros n =
        sym (zeros_add (min n 512) (n - min n 512)) ∙ ap zeros (omega arith) in
      subst (λ (s : Sent). (s.received ≡ out ++ zeros n) × (s.failure ≡ none))
        (sym (pad_out-round sink r fuel n out e))
        (
          a
              ∙ append_assoc out (zeros (min n 512)) (zeros (n - min n 512))
              ∙ ap (λ (z : Bytes). out ++ z) t,
          b,
        )
]

-- What a round of the loop on any sink comes to.
abbrev behind_round : Sink → ℕ → ℕ → Sent → Sent
behind_round sink fuel n s = elim s.failure [
  | none ↦ pad_out sink fuel (n - s.count) s.received
  | some e ↦ s
]

pad_out-suc :
    (sink : Sink) (fuel n : ℕ) (out : Bytes)
    → (n == 0) ≡ false
    → pad_out sink (suc fuel) n out ≡ behind_round sink fuel n (send sink out (zeros (min n 512)))
unfolding pad_out
pad_out-suc sink fuel n out z = rw z refl

-- The loop goes on when the sink has taken the chunk whole, and ends when it failed.
pad_out-step :
    (sink : Sink) (fuel fuel' n : ℕ) (out : Bytes) (o : Option ℕ)
    → sink out (zeros (min n 512)) ≡ o
    → ((out' : Bytes)
        → pad_out sink fuel (n - min n 512) out' ≡ pad_out sink fuel' (n - min n 512) out')
    → behind_round sink fuel n (send sink out (zeros (min n 512)))
      ≡ behind_round sink fuel' n (send sink out (zeros (min n 512)))
unfolding send sent_by
pad_out-step sink fuel fuel' n out none e h =
    let chunk = zeros (min n 512) in
    let k : length chunk ≡ min n 512 = length-replicate {A = ℕ} (min n 512) 0 in
    let q : send sink out chunk ≡ all_sent out chunk = rw e refl in
    ap (behind_round sink fuel n) q
    ∙ ap (λ (c : ℕ). pad_out sink fuel (n - c) (out ++ chunk)) k
    ∙ h (out ++ chunk)
    ∙ ap (λ (c : ℕ). pad_out sink fuel' (n - c) (out ++ chunk)) (sym k)
    ∙ ap (behind_round sink fuel' n) (sym q)
pad_out-step sink fuel fuel' n out (some m) e h = rw e refl

pad_out-more :
    (sink : Sink) (fuel n : ℕ) (out : Bytes)
    → n ≤ fuel
    → pad_out sink fuel n out ≡ pad_out sink (suc fuel) n out
unfolding pad_out
pad_out-more sink zero n out h = let z : (n == 0) ≡ true = (==_iff n 0).1 (omega arith) in rw z refl
pad_out-more sink (suc fuel) n out h = elim (Bool-cases (n == 0)) [
  | inl e ↦ rw e refl
  | inr e ↦
      let k : n - min n 512 ≤ fuel = ground arith in
      pad_out-suc sink fuel n out e
      ∙ pad_out-step sink fuel (suc fuel) n out (sink out (zeros (min n 512))) refl
          (λ out'. pad_out-more sink fuel (n - min n 512) out' k)
      ∙ sym (pad_out-suc sink (suc fuel) n out e)
]

pad_out_add :
    (sink : Sink) (k n : ℕ) (out : Bytes) → pad_out sink n n out ≡ pad_out sink (n + k) n out
pad_out_add sink zero n out = ap (λ (f : ℕ). pad_out sink f n out) (omega arith)
pad_out_add sink (suc k) n out =
    pad_out_add sink k n out
    ∙ pad_out-more sink (n + k) n out (omega arith)
    ∙ ap (λ (f : ℕ). pad_out sink f n out) (omega arith)

-- The loop of `Flush` ends within as many rounds as there are bytes of padding, on any sink: more
-- rounds give the same result. On a sink that takes every chunk whole, they write the padding and
-- return no error.
pub pad_out-rounds :
    (sink : Sink) (fuel n : ℕ) (out : Bytes)
    → n ≤ fuel
    → (pad_out sink fuel n out ≡ pad_out sink n n out)
      × (IsReliable sink
          → ((pad_out sink fuel n out).received ≡ out ++ zeros n)
            × ((pad_out sink fuel n out).failure ≡ none))
pad_out-rounds sink fuel n out h =
    let e : fuel ≡ n + (fuel - n) = omega (arith, h) in
    (
      ap (λ (f : ℕ). pad_out sink f n out) e ∙ sym (pad_out_add sink (fuel - n) n out),
      λ r. pad_out-zeros sink r fuel n out h,
    )
