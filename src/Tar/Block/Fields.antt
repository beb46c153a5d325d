-- ===== src/Tar/Block/Fields.antt =====
-- deb/tar/format.go: a block as the fields that were written to it, and what a field holds then.
use mathlib.Core.Path.{subst}
use mkdeb.Prelude.{
  ℕ, zero, suc, ◌+◌, ◌≤◌, ◌<◌, ◌≡◌, refl, ap, ◌∙◌, Bool, true, ◌&&◌, ◌||◌, &&_iff, List, [], ◌∷◌,
  ◌++◌, Bytes, All, take, length, length-append, ltb, leb, if◌then◌else◌, Bool-cases, inl, inr,
  arith, Lacks, ok,
}
use mkdeb.Tar.Strconv.{is_ascii, to_ascii, parse_string, format_string}
use mkdeb.Tar.Block.{Field, at, slice, overlay, put}
use mkdeb.Tar.Block.Splice.{length-put, slice-put_self, slice-put_below, slice-put_above, put-All}

-- The fields written to a block, the last one first.
abbrev pub puts : List (Field × Bytes) → Bytes → Bytes
puts [] b = b
puts ((f, s) ∷ ws) b = put f.offset s (puts ws b)

abbrev pub Fitting : List (Field × Bytes) → Type 0
Fitting = All (λ w. length w.1 ≤ w.0.size)

abbrev pub apart : Field → Field → Bool
apart f g = leb (f.offset + f.size) g.offset || leb (g.offset + g.size) f.offset

abbrev pub all_apart : Field → List (Field × Bytes) → Bool
all_apart f [] = true
all_apart f ((g, s) ∷ ws) = apart f g && all_apart f ws

pub length-puts : (ws : List (Field × Bytes)) (b : Bytes) → length (puts ws b) ≡ length b
length-puts [] b = refl
length-puts ((f, s) ∷ ws) b = length-put f.offset s (puts ws b) ∙ length-puts ws b

slice-put-apart :
    (f g : Field) (s b : Bytes)
    → length s ≤ g.size
    → apart f g ≡ true
    → slice f (put g.offset s b) ≡ slice f b
slice-put-apart f g s b h k = elim (Bool-cases (leb (f.offset + f.size) g.offset)) [
  | inl e ↦ slice-put_below f.offset f.size g.offset s b (ground arith)
  | inr e ↦
      let i : g.offset + length s ≤ f.offset = ground arith in
      slice-put_above f.offset f.size g.offset s b i
]

-- A field keeps what it holds when fields apart from it are written.
pub slice-puts_apart :
    (f : Field) (front back : List (Field × Bytes)) (b : Bytes)
    → Fitting front
    → all_apart f front ≡ true
    → slice f (puts (front ++ back) b) ≡ slice f (puts back b)
slice-puts_apart f [] back b h k = refl
slice-puts_apart f ((g, s) ∷ front) back b (h, hs) k =
    let (k1, k2) = (&&_iff (apart f g) (all_apart f front)).0 k in
    slice-put-apart f g s (puts (front ++ back) b) h k1 ∙ slice-puts_apart f front back b hs k2

-- A field that is filled up holds what was written to it last.
pub slice-puts_self :
    (f : Field) (s : Bytes) (front back : List (Field × Bytes)) (b : Bytes)
    → Fitting front
    → all_apart f front ≡ true
    → length s ≡ f.size
    → f.offset + f.size ≤ length b
    → slice f (puts (front ++ (f, s) ∷ back) b) ≡ s
slice-puts_self f s front back b h k e i =
    slice-puts_apart f front ((f, s) ∷ back) b h k
    ∙ subst (λ (n : ℕ). slice (at f.offset n) (put f.offset s (puts back b)) ≡ s) e
        (slice-put_self f.offset s (puts back b) (omega (arith, e, length-puts back b)))

pub puts-All :
    (P : ℕ → Type 0) (ws : List (Field × Bytes)) (b : Bytes)
    → All (λ w. All P w.1) ws
    → All P b
    → All P (puts ws b)
puts-All P [] b h k = k
puts-All P ((f, s) ∷ ws) b (h, hs) k = put-All P f.offset s (puts ws b) h (puts-All P ws b hs k)

-- A text in a field of `n` bytes, with a NUL behind it if there is room.
abbrev pub text_field : ℕ → Bytes → Bytes
text_field n s = if ltb (length s) n then s ++ 0 ∷ [] else s

-- A text that a field of `n` bytes holds and that is read back.
abbrev pub IsText : ℕ → Bytes → Type 0
IsText n s = (is_ascii s ≡ true) × (length s ≤ n) × Lacks 0 s

to_ascii-is_ascii : (s : Bytes) → is_ascii s ≡ true → to_ascii s ≡ s
unfolding to_ascii is_ascii
to_ascii-is_ascii [] h = refl
to_ascii-is_ascii (c ∷ s) h = ground (arith, to_ascii-is_ascii s)

pub format_string-IsText :
    (n : ℕ) (s : Bytes) → IsText n s → format_string n s ≡ ok (text_field n s)
unfolding format_string
format_string-IsText n s (a, l, z) = rw (to_ascii-is_ascii s a) (ground arith)

pub text_field-le : (n : ℕ) (s : Bytes) → length s ≤ n → length (text_field n s) ≤ n
text_field-le n s h = elim (Bool-cases (ltb (length s) n)) [
  | inl e ↦ rw e (ground (arith, length-append s (0 ∷ [])))
  | inr e ↦ rw e h
]

parse_string-Lacks : (s : Bytes) → Lacks 0 s → parse_string s ≡ s
unfolding parse_string
parse_string-Lacks [] h = refl
parse_string-Lacks (c ∷ s) h = ground (arith, parse_string-Lacks s)

-- A text with a NUL behind it is read up to the NUL, whatever stands behind.
pub parse_string-nul : (s t : Bytes) → Lacks 0 s → parse_string (s ++ 0 ∷ t) ≡ s
unfolding parse_string
parse_string-nul [] t h = refl
parse_string-nul (c ∷ s) t h = ground (arith, parse_string-nul s t)

take-overlay_nul :
    (n : ℕ) (s b : Bytes)
    → Lacks 0 s
    → length s < n
    → n ≤ length b
    → parse_string (take n (overlay (s ++ 0 ∷ []) b)) ≡ s
unfolding parse_string
take-overlay_nul zero s b h k i = absurd (omega arith)
take-overlay_nul (suc n) s [] h k i = absurd (omega arith)
take-overlay_nul (suc n) [] (d ∷ b) h k i = refl
take-overlay_nul (suc n) (c ∷ s) (d ∷ b) h k i =
    let ih = take-overlay_nul n s b in ground (arith, ih)

parse_string-slice_nul :
    (o n : ℕ) (s b : Bytes)
    → Lacks 0 s
    → length s < n
    → o + n ≤ length b
    → parse_string (slice (at o n) (put o (s ++ 0 ∷ []) b)) ≡ s
parse_string-slice_nul zero n s b h k i = take-overlay_nul n s b h k (omega arith)
parse_string-slice_nul (suc o) n s [] h k i = absurd (omega arith)
parse_string-slice_nul (suc o) n s (d ∷ b) h k i = parse_string-slice_nul o n s b h k (omega arith)

-- A text that was written to a field is read back from it.
pub parse_string-puts_self :
    (f : Field) (s : Bytes) (front back : List (Field × Bytes)) (b : Bytes)
    → Fitting front
    → all_apart f front ≡ true
    → IsText f.size s
    → f.offset + f.size ≤ length b
    → parse_string (slice f (puts (front ++ (f, text_field f.size s) ∷ back) b)) ≡ s
parse_string-puts_self f s front back b h k (a, l, z) i =
    elim (Bool-cases (ltb (length s) f.size)) [
      | inl e ↦ rw e (
          ap parse_string (slice-puts_apart f front ((f, s ++ 0 ∷ []) ∷ back) b h k)
          ∙ parse_string-slice_nul f.offset f.size s (puts back b) z (ground arith)
              (omega (arith, length-puts back b)))
      | inr e ↦ rw e (
          ap parse_string (slice-puts_self f s front back b h k (ground arith) i)
          ∙ parse_string-Lacks s z)
    ]
