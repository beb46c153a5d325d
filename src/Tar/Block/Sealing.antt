-- ===== src/Tar/Block/Sealing.antt =====
-- deb/tar/format.go: what `SetFormat` writes to a block, and what `GetFormat` makes of it.
use mathlib.Core.Path.{subst}
use mkdeb.Prelude.{
  ℕ, zero, suc, ◌+◌, ◌*◌, ◌≤◌, ◌<◌, ◌≡◌, refl, ap, ◌∙◌, true, [], ◌∷◌, ◌++◌, append_assoc,
  length-append, Bytes, All, length, arith, Result, ok, err, pos, int_eq, ==_iff,
}
use mkdeb.Tar.Strconv.{TarError, parse_octal}
use mkdeb.Tar.Strconv.Octal.{
  padded, length-padded, format_octal-padded, parse_octal-padded, nul_space-IsTail,
}
use mkdeb.Tar.Block.{
  at, slice, overlay, put, sum_from, compute_checksum, write_chksum, update_checksum, guess_format,
  format_by, get_format, v7_chksum, ustar_magic, ustar_version, star_trailer,
}
use mkdeb.Tar.Block.Splice.{
  length-put, slice-put_self, slice-put_below, slice-put_above, slice_add, put-All,
}

-- A header block.
abbrev pub IsBlock : Bytes → Type 0
IsBlock b = (length b ≡ 512) × All (λ c. c < 256) b

-- The checksum does not see its own field.
sum-overlay :
    (i : ℕ) (s b : Bytes) → 148 ≤ i → i + length s ≤ 156 → sum_from i (overlay s b) ≡ sum_from i b
unfolding sum_from
sum-overlay i [] b h k = refl
sum-overlay i (x ∷ s) [] h k = refl
sum-overlay i (x ∷ s) (c ∷ b) h k =
    ground (arith, sum-overlay (suc i) s b (omega arith) (omega arith))

sum-put :
    (i o : ℕ) (s b : Bytes)
    → 148 ≤ i + o
    → i + o + length s ≤ 156
    → sum_from i (put o s b) ≡ sum_from i b
unfolding sum_from
sum-put i zero s b h k = sum-overlay i s b (omega arith) (omega arith)
sum-put i (suc o) s [] h k = refl
sum-put i (suc o) s (c ∷ b) h k = omega (arith, sum-put (suc i) o s b (omega arith) (omega arith))

-- It is small enough for six octal digits.
sum-le : (i : ℕ) (b : Bytes) → All (λ c. c < 256) b → sum_from i b ≤ 255 * length b
unfolding sum_from
sum-le i [] h = omega arith
sum-le i (c ∷ b) (h, hs) = ground (arith, sum-le (suc i) b hs)

int_eq_refl : (x : ℕ) → int_eq (pos x) (pos x) ≡ true
int_eq_refl x = (==_iff x x).1 refl

-- What `update_checksum` writes.
pub update_checksum_lem :
    (b : Bytes)
    → IsBlock b
    → update_checksum b ≡ put 155 (32 ∷ []) (put 148 (padded 7 (sum_from 0 b) ++ 0 ∷ []) b)
unfolding update_checksum
update_checksum_lem b (l, h) =
    rw (format_octal-padded 5 (sum_from 0 b) (omega (arith, sum-le 0 b h)))

length-write_chksum : (b : Bytes) (r : Result TarError Bytes) → length (write_chksum b r) ≡ length b
unfolding write_chksum
length-write_chksum b (ok s) = length-put 155 (32 ∷ []) (put 148 s b) ∙ length-put 148 s b
length-write_chksum b (err e) = length-put 155 (32 ∷ []) b

pub length-update_checksum : (b : Bytes) → length (update_checksum b) ≡ length b
unfolding update_checksum
length-update_checksum b = length-write_chksum b _

-- A field that is as long as what is written to it.
pub slice-put_field :
    (o n : ℕ) (s b : Bytes) → length s ≡ n → o + n ≤ length b → slice (at o n) (put o s b) ≡ s
slice-put_field o n s b e h =
    subst (λ (k : ℕ). slice (at o k) (put o s b) ≡ s) e (slice-put_self o s b (omega (arith, e)))

pub digits-length : (b : Bytes) → IsBlock b → length (padded 7 (sum_from 0 b) ++ 0 ∷ []) ≡ 7
digits-length b (l, h) = omega (
  arith,
  length-append (padded 7 (sum_from 0 b)) (0 ∷ []),
  length-padded 5 (sum_from 0 b) (omega (arith, sum-le 0 b h)),
)

-- What the checksum field holds.
chksum_field :
    (b : Bytes)
    → IsBlock b
    → slice v7_chksum (update_checksum b) ≡ (padded 7 (sum_from 0 b) ++ 0 ∷ []) ++ 32 ∷ []
chksum_field b (l, h) =
    let s : Bytes = padded 7 (sum_from 0 b) ++ 0 ∷ [] in
    let k : length (put 148 s b) ≡ length b = length-put 148 s b in
    ap (slice v7_chksum) (update_checksum_lem b (l, h))
    ∙ slice_add 148 7 1 (put 155 (32 ∷ []) (put 148 s b))
    ∙ ap (λ (x : Bytes). x ++ slice (at 155 1) (put 155 (32 ∷ []) (put 148 s b)))
        (slice-put_below 148 7 155 (32 ∷ []) (put 148 s b) (omega arith)
          ∙ slice-put_field 148 7 s b (digits-length b (l, h)) (omega arith))
    ∙ ap (λ (x : Bytes). s ++ x) (slice-put_field 155 1 (32 ∷ []) (put 148 s b) refl (omega arith))

update_checksum-sum : (b : Bytes) → IsBlock b → sum_from 0 (update_checksum b) ≡ sum_from 0 b
update_checksum-sum b (l, h) =
    let s : Bytes = padded 7 (sum_from 0 b) ++ 0 ∷ [] in
    ap (sum_from 0) (update_checksum_lem b (l, h))
    ∙ sum-put 0 155 (32 ∷ []) (put 148 s b) (omega arith) (omega arith)
    ∙ sum-put 0 148 s b (omega arith) (omega (arith, digits-length b (l, h)))

-- The checksum is read back.
parse-chksum :
    (b : Bytes)
    → IsBlock b
    → parse_octal (slice v7_chksum (update_checksum b)) ≡ ok (pos (sum_from 0 b))
parse-chksum b (l, h) =
    ap parse_octal
      (chksum_field b (l, h) ∙ append_assoc (padded 7 (sum_from 0 b)) (0 ∷ []) (32 ∷ []))
    ∙ parse_octal-padded 7 (sum_from 0 b) _ (0 ∷ 32 ∷ []) refl (omega (arith, sum-le 0 b h))
        nul_space-IsTail
        (λ e.
          omega (arith, length-padded 5 (sum_from 0 b) (omega (arith, sum-le 0 b h)), ap length e))

slice-update_checksum :
    (o n : ℕ) (b : Bytes)
    → IsBlock b
    → 156 ≤ o
    → slice (at o n) (update_checksum b) ≡ slice (at o n) b
slice-update_checksum o n b (l, h) k =
    let s : Bytes = padded 7 (sum_from 0 b) ++ 0 ∷ [] in
    ap (slice (at o n)) (update_checksum_lem b (l, h))
    ∙ slice-put_above o n 155 (32 ∷ []) (put 148 s b) (omega arith)
    ∙ slice-put_above o n 148 s b (omega (arith, digits-length b (l, h)))

-- The format is the guess of the magic values, which the checksum leaves alone.
pub get_format-update_checksum :
    (b : Bytes)
    → IsBlock b
    → get_format (update_checksum b)
      ≡ guess_format (slice ustar_magic b) (slice ustar_version b) (slice star_trailer b)
unfolding get_format format_by compute_checksum
get_format-update_checksum b (l, h) = rw (
  parse-chksum b (l, h),
  update_checksum-sum b (l, h),
  int_eq_refl (sum_from 0 b),
  slice-update_checksum 257 6 b (l, h) (omega arith),
  slice-update_checksum 263 2 b (l, h) (omega arith),
  slice-update_checksum 508 4 b (l, h) (omega arith),
)

pub put-IsBlock : (o : ℕ) (s b : Bytes) → All (λ c. c < 256) s → IsBlock b → IsBlock (put o s b)
put-IsBlock o s b k (l, h) = (omega (arith, length-put o s b), put-All (λ c. c < 256) o s b k h)

-- A block with a magic and a version of their lengths.
pub magics-IsBlock :
    (m v b : Bytes)
    → All (λ c. c < 256) m
    → All (λ c. c < 256) v
    → IsBlock b
    → IsBlock (put 263 v (put 257 m b))
magics-IsBlock m v b hm hv h = put-IsBlock 263 v (put 257 m b) hv (put-IsBlock 257 m b hm h)

pub slice-magics :
    (m v b : Bytes)
    → length m ≡ 6
    → length v ≡ 2
    → IsBlock b
    → (slice ustar_magic (put 263 v (put 257 m b)) ≡ m)
      × (slice ustar_version (put 263 v (put 257 m b)) ≡ v)
      × (slice star_trailer (put 263 v (put 257 m b)) ≡ slice star_trailer b)
slice-magics m v b em ev (l, h) =
    let k : length (put 257 m b) ≡ length b = length-put 257 m b in
    (
      slice-put_below 257 6 263 v (put 257 m b) (omega arith)
          ∙ slice-put_field 257 6 m b em (omega arith),
      slice-put_field 263 2 v (put 257 m b) ev (omega arith),
      slice-put_above 508 4 263 v (put 257 m b) (omega arith)
          ∙ slice-put_above 508 4 257 m b (omega arith),
    )

-- What is read of a block that carries a magic and a version.
pub get_format-magics :
    (m v b : Bytes)
    → length m ≡ 6
    → length v ≡ 2
    → All (λ c. c < 256) m
    → All (λ c. c < 256) v
    → IsBlock b
    → get_format (update_checksum (put 263 v (put 257 m b)))
      ≡ guess_format m v (slice star_trailer b)
get_format-magics m v b em ev hm hv h =
    let (a, c, d) = slice-magics m v b em ev h in
    get_format-update_checksum (put 263 v (put 257 m b)) (magics-IsBlock m v b hm hv h)
    ∙ rw (a, c, d)
