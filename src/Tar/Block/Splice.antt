-- ===== src/Tar/Block/Splice.antt =====
-- deb/tar/format.go: fields that are written and read.
use mkdeb.Prelude.{
  ℕ, zero, suc, ◌+◌, ◌≤◌, ◌≡◌, refl, ap, ◌∙◌, [], ◌∷◌, ◌++◌, Bytes, All, take, drop, length, arith,
}
use mkdeb.Tar.Block.{at, slice, overlay, put}

length-overlay : (s b : Bytes) → length (overlay s b) ≡ length b
length-overlay [] b = refl
length-overlay (x ∷ s) [] = refl
length-overlay (x ∷ s) (c ∷ b) = ap suc (length-overlay s b)

pub length-put : (o : ℕ) (s b : Bytes) → length (put o s b) ≡ length b
length-put zero s b = length-overlay s b
length-put (suc o) s [] = refl
length-put (suc o) s (c ∷ b) = ap suc (length-put o s b)

take-overlay : (s b : Bytes) → length s ≤ length b → take (length s) (overlay s b) ≡ s
take-overlay [] b h = refl
take-overlay (x ∷ s) [] h = absurd (omega arith)
take-overlay (x ∷ s) (c ∷ b) h = ap (λ (l : Bytes). x ∷ l) (take-overlay s b (omega arith))

-- A field that was written holds what was written.
pub slice-put_self :
    (o : ℕ) (s b : Bytes) → o + length s ≤ length b → slice (at o (length s)) (put o s b) ≡ s
slice-put_self zero s b h = take-overlay s b (omega arith)
slice-put_self (suc o) s [] h = absurd (omega arith)
slice-put_self (suc o) s (c ∷ b) h = slice-put_self o s b (omega arith)

-- A field in front of the written bytes, and one behind them, stay.
pub slice-put_below :
    (o n p : ℕ) (s b : Bytes) → o + n ≤ p → slice (at o n) (put p s b) ≡ slice (at o n) b
slice-put_below zero zero p s b h = refl
slice-put_below zero (suc n) zero s b h = absurd (omega arith)
slice-put_below zero (suc n) (suc p) s [] h = refl
slice-put_below zero (suc n) (suc p) s (c ∷ b) h =
    ap (λ (l : Bytes). c ∷ l) (slice-put_below zero n p s b (omega arith))
slice-put_below (suc o) n zero s b h = absurd (omega arith)
slice-put_below (suc o) n (suc p) s [] h = refl
slice-put_below (suc o) n (suc p) s (c ∷ b) h = slice-put_below o n p s b (omega arith)

drop-overlay : (o : ℕ) (s b : Bytes) → length s ≤ o → drop o (overlay s b) ≡ drop o b
drop-overlay o [] b h = refl
drop-overlay zero (x ∷ s) b h = absurd (omega arith)
drop-overlay (suc o) (x ∷ s) [] h = refl
drop-overlay (suc o) (x ∷ s) (c ∷ b) h = drop-overlay o s b (omega arith)

pub drop-put_above : (o p : ℕ) (s b : Bytes) → p + length s ≤ o → drop o (put p s b) ≡ drop o b
drop-put_above o zero s b h = drop-overlay o s b (omega arith)
drop-put_above zero (suc p) s b h = absurd (omega arith)
drop-put_above (suc o) (suc p) s [] h = refl
drop-put_above (suc o) (suc p) s (c ∷ b) h = drop-put_above o p s b (omega arith)

pub slice-put_above :
    (o n p : ℕ) (s b : Bytes) → p + length s ≤ o → slice (at o n) (put p s b) ≡ slice (at o n) b
slice-put_above o n p s b h = ap (take n) (drop-put_above o p s b h)

take_add : (m n : ℕ) (b : Bytes) → take (m + n) b ≡ take m b ++ take n (drop m b)
take_add zero n b = ap (λ (k : ℕ). take k b) (omega arith)
take_add (suc m) n [] =
    ap (λ (k : ℕ). take k []) (let e : suc m + n ≡ suc (m + n) = omega arith in e) ∙ take_nil n
  where
    take_nil : (n : ℕ) → ◌≡◌ {A = Bytes} [] (take n [])
    take_nil zero = refl
    take_nil (suc n) = refl
take_add (suc m) n (c ∷ b) =
    ap (λ (k : ℕ). take k (c ∷ b)) (let e : suc m + n ≡ suc (m + n) = omega arith in e)
    ∙ ap (λ (l : Bytes). c ∷ l) (take_add m n b)

drop-drop : (o m : ℕ) (b : Bytes) → drop m (drop o b) ≡ drop (o + m) b
drop-drop zero m b = ap (λ (k : ℕ). drop k b) (omega arith)
drop-drop (suc o) m [] =
    drop_nil m ∙ ap (λ (k : ℕ). drop k []) (let e : suc (o + m) ≡ suc o + m = omega arith in e)
  where
    drop_nil : (n : ℕ) → ◌≡◌ {A = Bytes} (drop n []) []
    drop_nil zero = refl
    drop_nil (suc n) = refl
drop-drop (suc o) m (c ∷ b) =
    drop-drop o m b
    ∙ ap (λ (k : ℕ). drop k (c ∷ b)) (let e : suc (o + m) ≡ suc o + m = omega arith in e)

-- Two fields side by side.
pub slice_add :
    (o m n : ℕ) (b : Bytes) → slice (at o (m + n)) b ≡ slice (at o m) b ++ slice (at (o + m) n) b
slice_add o m n b =
    take_add m n (drop o b) ∙ ap (λ (l : Bytes). take m (drop o b) ++ take n l) (drop-drop o m b)

overlay-All : (P : ℕ → Type 0) (s b : Bytes) → All P s → All P b → All P (overlay s b)
overlay-All P [] b h k = k
overlay-All P (x ∷ s) [] h k = tt
overlay-All P (x ∷ s) (c ∷ b) (h, hs) (k, ks) = (h, overlay-All P s b hs ks)

pub put-All : (P : ℕ → Type 0) (o : ℕ) (s b : Bytes) → All P s → All P b → All P (put o s b)
put-All P zero s b h k = overlay-All P s b h k
put-All P (suc o) s [] h k = tt
put-All P (suc o) s (c ∷ b) h (k, ks) = (k, put-All P o s b h ks)
