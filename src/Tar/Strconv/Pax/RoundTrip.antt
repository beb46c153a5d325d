-- ===== src/Tar/Strconv/Pax/RoundTrip.antt =====
-- deb/tar/strconv.go: a PAX record that is formatted is parsed.
use mkdeb.Prelude.{
  ℕ, ◌+◌, ◌-◌, ◌*◌, ◌^◌, ◌≤◌, ◌<◌, false, ◌≡◌, ◌≢◌, refl, sym, ◌∙◌, ap, [], ◌∷◌, ◌++◌, append_assoc,
  some, Bytes, All, Lacks, take, drop, take-append, drop-append, length, length-append, ltb, ◌==◌,
  ◌||◌, lt→ltb, ok, pos, arith, format_uint, value_onto, IsDigit, value-format_uint,
  format_uint-IsDigit,
}
use native.Mathlib.Nat.{pow-zero}
use mkdeb.Tar.Strconv.Pax.{
  split_at, parse_digits, parse_int, record_at, sized, parse_pax_record, record_of,
  format_pax_record,
}
use mkdeb.Tar.Strconv.Pax.Sizes.{
  lt-digits, digits-le_one, length-record_of, format_pax_record-length,
}

split_at-Lacks : (sep : ℕ) (s t : Bytes) → Lacks sep s → split_at sep (s ++ sep ∷ t) ≡ some (s, t)
unfolding split_at
split_at-Lacks sep [] t h = ground arith
split_at-Lacks sep (c ∷ s) t h = ground (arith, split_at-Lacks sep s t)

digits-Lacks : (s : Bytes) → All (IsDigit 10) s → Lacks b' ' s
digits-Lacks [] h = refl
digits-Lacks (c ∷ s) (h, hs) = ground (arith, digits-Lacks s hs)

parse_digits-value :
    (n : ℕ) (s : Bytes) → All (IsDigit 10) s → parse_digits n s ≡ some (value_onto 10 n s)
unfolding parse_digits
parse_digits-value n [] h = refl
parse_digits-value n (c ∷ s) (h, hs) = ground (arith, parse_digits-value (n * 10 + (c - b'0')) s hs)

parse_int-digits :
    (s : Bytes)
    → All (IsDigit 10) s
    → s ≢ []
    → value_onto 10 0 s < 2 ^ 63
    → parse_int s ≡ some (pos (value_onto 10 0 s))
unfolding parse_int
parse_int-digits [] h q l = absurd (q refl)
parse_int-digits (c ∷ s) ((a, b), hs) q l =
    let m : (c == b'-') ≡ false = ground arith in
    let p : (c == b'+') ≡ false = ground arith in
    rw
      (m, p, parse_digits-value 0 (c ∷ s) ((a, b), hs), lt→ltb (value_onto 10 0 (c ∷ s)) (2 ^ 63) l)
      refl

pub parse_int-format_uint :
    (n : ℕ) → 1 ≤ n → n < 2 ^ 63 → parse_int (format_uint 10 n) ≡ some (pos n)
parse_int-format_uint n z l =
    let v = value-format_uint 10 (omega arith) n in
    let filled : format_uint 10 n ≢ [] =
      λ e. omega (arith, lt-digits n, ap (λ (x : Bytes). 10 ^ length x) e, pow-zero 10, z) in
    parse_int-digits (format_uint 10 n) (format_uint-IsDigit 10 (omega arith) n) filled
      (omega (arith, v, l))
    ∙ ap (λ (x : ℕ). some (pos x)) v

-- The text of a record, between the space and the newline.
abbrev text_of : Bytes → Bytes → Bytes
text_of k v = k ++ (b'=' ∷ v)

-- A record whose parts are found.
record_at-parts :
    (start n : ℕ) (s text rem k v : Bytes)
    → ltb n 5 || ltb (length s) n ≡ false
    → ltb (n - 1) start ≡ false
    → drop (n - 1) s ≡ b'\n' ∷ rem
    → drop n s ≡ rem
    → take (n - 1 - start) (drop start s) ≡ text
    → split_at b'=' text ≡ some (k, v)
    → record_at start s (some (pos n)) ≡ some (ok (k, v, rem))
record_at-parts start n s text rem k v a b c e f g = rw (a, b, c, e, f, g) refl

fits_lem : (n l : ℕ) → 5 ≤ n → n ≤ l → ltb n 5 || ltb l n ≡ false
fits_lem n l a b = ground arith

le→ltb : (m n : ℕ) → n ≤ m → ltb m n ≡ false
le→ltb m n h = ground arith

module _ (k v r : Bytes) (n : ℕ) (h : Lacks b'=' k) where
  -- The bytes of a record in front of others.
  record_at_lem :
      (d : Bytes)
      → length (d ++ (b' ' ∷ (text_of k v ++ b'\n' ∷ []))) ≡ n
      → 5 ≤ n
      → record_at (length d + 1) (d ++ (b' ' ∷ (text_of k v ++ b'\n' ∷ r))) (some (pos n))
        ≡ some (ok (k, v, r))
  record_at_lem d l f =
      let text = text_of k v in
      let s : Bytes = d ++ (b' ' ∷ (text ++ b'\n' ∷ r)) in
      let front : Bytes = d ++ (b' ' ∷ text) in
      let whole : Bytes = d ++ (b' ' ∷ (text ++ b'\n' ∷ [])) in
      let e1 : front ++ b'\n' ∷ r ≡ s = append_assoc d (b' ' ∷ text) (b'\n' ∷ r) in
      let e2 : whole ++ r ≡ s =
        append_assoc d (b' ' ∷ (text ++ b'\n' ∷ [])) r
        ∙ ap (λ (x : Bytes). d ++ (b' ' ∷ x)) (append_assoc text (b'\n' ∷ []) r) in
      let e3 : (d ++ b' ' ∷ []) ++ (text ++ b'\n' ∷ r) ≡ s =
        append_assoc d (b' ' ∷ []) (text ++ b'\n' ∷ r) in
      let lw : length d + length text + 2 ≡ n = omega (
        arith,
        l,
        length-append d (b' ' ∷ (text ++ b'\n' ∷ [])),
        length-append text (b'\n' ∷ []),
      ) in
      let lf : length front ≡ n - 1 = omega (arith, lw, length-append d (b' ' ∷ text)) in
      let ld : length (d ++ b' ' ∷ []) ≡ length d + 1 = length-append d (b' ' ∷ []) in
      let ls : n ≤ length s = omega (arith, l, ap length e2, length-append whole r) in
      record_at-parts (length d + 1) n s text r k v (fits_lem n (length s) f ls)
        (le→ltb (n - 1) (length d + 1) (omega (arith, lw)))
        (ap (drop (n - 1)) (sym e1) ∙ drop-append (n - 1) front (b'\n' ∷ r) lf)
        (ap (drop n) (sym e2) ∙ drop-append n whole r l)
        (ap (λ (x : Bytes). take (n - 1 - (length d + 1)) (drop (length d + 1) x)) (sym e3)
          ∙ ap (take (n - 1 - (length d + 1)))
              (drop-append (length d + 1) (d ++ b' ' ∷ []) (text ++ b'\n' ∷ r) ld)
          ∙ take-append (n - 1 - (length d + 1)) text (b'\n' ∷ r) (omega (arith, lw)))
        (split_at-Lacks b'=' k v h)

five-le : (k v : Bytes) (n : ℕ) → k ≢ [] → length (record_of n k v) ≡ n → 5 ≤ n
five-le [] v n q l = absurd (q refl)
five-le (c ∷ k) v n q l =
    let e = length-record_of n (c ∷ k) v in
    omega (arith, l, e, digits-le_one n (omega (arith, l, e)))

-- A PAX record is parsed to the key and the value that it was made of, and the bytes behind it are
-- left, when the key is not empty and has no equals sign and the length of the record is an int64.
pub parse_pax_record-format_pax_record :
    (k v r : Bytes)
    → Lacks b'=' k
    → k ≢ []
    → length (format_pax_record k v) < 2 ^ 63
    → parse_pax_record (format_pax_record k v ++ r) ≡ some (ok (k, v, r))
unfolding parse_pax_record
parse_pax_record-format_pax_record k v r h q b =
    let (n, e, l) = format_pax_record-length k v in
    let d = format_uint 10 n in
    let text : Bytes = text_of k v in
    let same : record_of n k v ≡ d ++ (b' ' ∷ (text ++ b'\n' ∷ [])) =
      ap (λ (x : Bytes). d ++ (b' ' ∷ x)) (sym (append_assoc k (b'=' ∷ v) (b'\n' ∷ []))) in
    let five : 5 ≤ n = five-le k v n q l in
    let s : Bytes = d ++ (b' ' ∷ (text ++ b'\n' ∷ r)) in
    let bytes : format_pax_record k v ++ r ≡ s =
      ap (λ (x : Bytes). x ++ r) (e ∙ same)
      ∙ append_assoc d (b' ' ∷ (text ++ b'\n' ∷ [])) r
      ∙ ap (λ (x : Bytes). d ++ (b' ' ∷ x)) (append_assoc text (b'\n' ∷ []) r) in
    let int : parse_int d ≡ some (pos n) =
      parse_int-format_uint n (omega (arith, five)) (omega (arith, b, ap length e, l)) in
    ap (λ (x : Bytes). sized x (split_at b' ' x)) bytes
    ∙ ap (sized s) (
        split_at-Lacks b' ' d (text ++ b'\n' ∷ r)
          (digits-Lacks d (format_uint-IsDigit 10 (omega arith) n)))
    ∙ ap (record_at (length d + 1) s) int
    ∙ record_at_lem k v r n h d (ap length (sym same) ∙ l) five
