-- ===== src/Tar/Reading/Headers.antt =====
-- deb/tar/writer.go: the block of a plain header that is read back.
use mkdeb.Prelude.{
  ℕ, suc, ◌+◌, ◌^◌, ◌≤◌, ◌<◌, Bool, true, ◌≡◌, refl, sym, ◌∙◌, ap, List, ◌∷◌, ◌++◌, Bytes, All,
  All-append, length, take, drop, ok, ℤ, pos, arith,
}
use mkdeb.Tar.Strconv.{parse_numeric}
use mkdeb.Tar.Block.{
  Field, at, slice, zero_block, v7_name, v7_type_flag, v7_link_name, ustar_user_name,
  ustar_group_name,
}
use mkdeb.Tar.Block.Sealing.{IsBlock}
use mkdeb.Tar.Block.Fields.{puts, Fitting, all_apart, IsText, text_field, text_field-le}
use mkdeb.Tar.Header.{Header}
use mkdeb.Tar.Writer.{sealed}
use mkdeb.Tar.Writer.Plain.{
  IsSmall, IsPlain, plain_writes, octal_field, length-octal_field, magnitude, small-pos, seconds_of,
  clamp_time-seconds_of,
}
use mkdeb.Tar.Writer.Sealed.{
  seal_writes, seal_writes-Fitting, sealed-puts, puts-IsBlock, octal_field-bytes, text_field-bytes,
}
use mkdeb.Tar.Reading.{read_header}
use mkdeb.Tar.Reading.Fields.{text_at, number_at, flag_at}

small_field-le : (x : ℤ) → magnitude x < 8 ^ 7 → length (octal_field 8 (magnitude x)) ≤ 8
small_field-le x h = omega (arith, length-octal_field 6 (magnitude x) h)

pub plain_writes-Fitting : (h : Header) → IsPlain h → Fitting (plain_writes h)
unfolding plain_writes
plain_writes-Fitting h v =
    let small : (x : ℤ) → IsSmall x → length (octal_field 8 (magnitude x)) ≤ 8 =
      λ x s. small_field-le x (small-pos x s).1 in
    let num : (k x : ℕ) → x < 8 ^ suc k → length (octal_field (suc (suc k)) x) ≤ suc (suc k) =
      λ k x l. omega (arith, length-octal_field k x l) in
    let text : (n : ℕ) (s : Bytes) → IsText n s → length (text_field n s) ≤ n =
      λ n s (a, l, z). text_field-le n s l in
    (
      small h.dev_minor v.plain_minor,
      (
        small h.dev_major v.plain_major,
        (
          text 32 h.gname v.plain_gname,
          (
            text 32 h.uname v.plain_uname,
            (
              text 100 h.link_name v.plain_link,
              (
                omega arith,
                (
                  num 10 (seconds_of h.mod_time) (clamp_time-seconds_of h.mod_time).1,
                  (
                    num 10 h.size v.plain_size,
                    (
                      small h.gid v.plain_gid,
                      (
                        small h.uid v.plain_uid,
                        (num 6 h.mode v.plain_mode, (text 100 h.name v.plain_name, tt)),
                      ),
                    ),
                  ),
                ),
              ),
            ),
          ),
        ),
      ),
    )

pub plain_writes-bytes :
    (h : Header) → IsPlain h → All (λ w. All (λ c. c < 256) w.1) (plain_writes h)
unfolding plain_writes
plain_writes-bytes h v =
    let num = octal_field-bytes in
    let text = text_field-bytes in
    (
      num 8 (magnitude h.dev_minor),
      (
        num 8 (magnitude h.dev_major),
        (
          text 32 32 h.gname v.plain_gname,
          (
            text 32 32 h.uname v.plain_uname,
            (
              text 100 100 h.link_name v.plain_link,
              (
                (v.plain_flag, tt),
                (
                  num 12 (seconds_of h.mod_time),
                  (
                    num 12 h.size,
                    (
                      num 8 (magnitude h.gid),
                      (
                        num 8 (magnitude h.uid),
                        (num 8 h.mode, (text 100 100 h.name v.plain_name, tt)),
                      ),
                    ),
                  ),
                ),
              ),
            ),
          ),
        ),
      ),
    )

-- The header with the time that its block holds.
abbrev pub stored : Header → Header
stored h = record h { mod_time = record { seconds = pos (seconds_of h.mod_time); nanos = 0 } }

pub append-Fitting : (vs ws : List (Field × Bytes)) → Fitting vs → Fitting ws → Fitting (vs ++ ws)
append-Fitting vs ws h k = All-append _ vs ws h k

abbrev pub all_writes : Bool → Header → List (Field × Bytes)
all_writes binary h = seal_writes binary (puts (plain_writes h) zero_block) ++ plain_writes h

module _ (binary : Bool) (h : Header) (v : IsPlain h) where
  pub plain_writes-IsBlock : IsBlock (puts (plain_writes h) zero_block)
  plain_writes-IsBlock = puts-IsBlock (plain_writes h) (plain_writes-bytes h v)

  all_writes-Fitting : Fitting (all_writes binary h)
  all_writes-Fitting =
      append-Fitting (seal_writes binary (puts (plain_writes h) zero_block)) (plain_writes h)
        (seal_writes-Fitting binary (puts (plain_writes h) zero_block) plain_writes-IsBlock)
        (plain_writes-Fitting h v)

  small_at :
      (k o : ℕ) (x : ℤ)
      → IsSmall x
      → all_writes binary h
        ≡ take k (all_writes binary h)
          ++ (at o 8, octal_field 8 (magnitude x)) ∷ drop (suc k) (all_writes binary h)
      → all_apart (at o 8) (take k (all_writes binary h)) ≡ true
      → o + 8 ≤ 512
      → parse_numeric (slice (at o 8) (puts (all_writes binary h) zero_block)) ≡ ok x
  small_at k o x s e a b =
      let (q, l) = small-pos x s in
      number_at (all_writes binary h) all_writes-Fitting k o 6 (magnitude x) e a l
        (omega (arith, l)) b
      ∙ ap (λ (y : ℤ). ok y) (sym q)

  read_writes : read_header (puts (all_writes binary h) zero_block) ≡ ok (stored h)
  unfolding read_header plain_writes
  read_writes =
      let ws = all_writes binary h in
      let f = all_writes-Fitting in
      let t = (clamp_time-seconds_of h.mod_time).1 in
      rw
        (
          number_at ws f 14 100 6 h.mode refl refl v.plain_mode (omega (arith, v.plain_mode))
              (omega arith),
          small_at 13 108 h.uid v.plain_uid refl refl (omega arith),
          small_at 12 116 h.gid v.plain_gid refl refl (omega arith),
          number_at ws f 11 124 10 h.size refl refl v.plain_size (omega (arith, v.plain_size))
              (omega arith),
          number_at ws f 10 136 10 (seconds_of h.mod_time) refl refl t (omega (arith, t))
              (omega arith),
          small_at 5 329 h.dev_major v.plain_major refl refl (omega arith),
          small_at 4 337 h.dev_minor v.plain_minor refl refl (omega arith),
          text_at ws f 15 v7_name h.name refl refl v.plain_name (omega arith),
          flag_at ws f 9 v7_type_flag h.type_flag refl refl refl (omega arith),
          text_at ws f 8 v7_link_name h.link_name refl refl v.plain_link (omega arith),
          text_at ws f 7 ustar_user_name h.uname refl refl v.plain_uname (omega arith),
          text_at ws f 6 ustar_group_name h.gname refl refl v.plain_gname (omega arith),
        )
        refl

  -- The block of a header whose texts are ASCII without NUL and whose fields all fit is read back as
  -- that header, with the time cut to the seconds that the field holds.
  pub read_header-sealed :
      read_header (sealed binary (puts (plain_writes h) zero_block)) ≡ ok (stored h)
  read_header-sealed =
      ap read_header (sealed-puts binary (plain_writes h) plain_writes-IsBlock) ∙ read_writes
