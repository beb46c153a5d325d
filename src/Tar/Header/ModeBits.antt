-- ===== src/Tar/Header/ModeBits.antt =====
-- deb/tar/common.go: the bits of a mode, written by `FileInfoHeader` and read by `Mode`.
use mkdeb.Prelude.{
  ℕ, ◌+◌, ◌*◌, ◌/◌, ◌%◌, ◌^◌, ◌<◌, Bool, true, false, ◌||◌, ◌==◌, ==_iff, ◌≡◌, refl, sym, ◌∙◌, ap,
  arith, if◌then◌else◌,
}
use mkdeb.Disk.{
  FileKind, regular, directory, symlink, char_device, block_device, named_pipe, socket, irregular,
  FileInfo,
}
use mkdeb.Tar.Header.{
  set_bits, kind_bits, kind_flag, type_dir, type_fifo, type_symlink, type_char, type_block,
}
use mkdeb.Tar.Header.Info.{FileMode, has_bit, type_bits}

abbrev pub is_kind : FileKind → FileKind → Bool
is_kind regular k = elim k [ regular ↦ true | _ ↦ false ]
is_kind directory k = elim k [ directory ↦ true | _ ↦ false ]
is_kind symlink k = elim k [ symlink ↦ true | _ ↦ false ]
is_kind char_device k = elim k [ char_device ↦ true | _ ↦ false ]
is_kind block_device k = elim k [ block_device ↦ true | _ ↦ false ]
is_kind named_pipe k = elim k [ named_pipe ↦ true | _ ↦ false ]
is_kind socket k = elim k [ socket ↦ true | _ ↦ false ]
is_kind irregular k = elim k [ irregular ↦ true | _ ↦ false ]

abbrev pub mode_as : FileInfo → FileKind → FileMode
mode_as info kind = record {
  perm = info.perm;
  setuid = info.setuid;
  setgid = info.setgid;
  sticky = info.sticky;
  dir = is_kind directory kind;
  pipe = is_kind named_pipe kind;
  link = is_kind symlink kind;
  device = is_kind char_device kind || is_kind block_device kind;
  char = is_kind char_device kind;
  sock = is_kind socket kind;
}

abbrev digit : Bool → ℕ
digit b = if b then 1 else 0

digit-lt : (b : Bool) → digit b < 2
digit-lt true = omega arith
digit-lt false = omega arith

bit_lem : (b : Bool) (n : ℕ) → (if b then n else 0) ≡ n * digit b
bit_lem true n = omega arith
bit_lem false n = omega arith

one_iff : (b : Bool) (n : ℕ) → n ≡ digit b → (n == 1) ≡ b
one_iff true n e = (==_iff n 1).1 e
one_iff false n e = rw e refl

-- The mode of a header: permissions, the type in the bits above, and the set-id bits.
abbrev mode_with : ℕ → ℕ → ℕ → ℕ → ℕ → ℕ
mode_with perm j a b c = perm + 4096 * j + (2048 * a + 1024 * b + 512 * c)

mode_parts :
    (perm j a b c : ℕ)
    → perm < 512
    → j < 16
    → a < 2
    → b < 2
    → c < 2
    → (mode_with perm j a b c % 2 ^ 32 % 512 ≡ perm)
      × (mode_with perm j a b c / 2048 % 2 ≡ a)
      × (mode_with perm j a b c / 1024 % 2 ≡ b)
      × (mode_with perm j a b c / 512 % 2 ≡ c)
      × (type_bits (mode_with perm j a b c) ≡ 4096 * j)
mode_parts perm j a b c p q x y z =
    (omega arith, omega arith, omega arith, omega arith, omega arith)

abbrev pub full_mode : FileInfo → FileKind → ℕ
full_mode info kind = info.perm + kind_bits kind + set_bits info

-- What is read of the mode of a header.
pub read_mode :
    (info : FileInfo) (kind : FileKind) (j : ℕ)
    → info.perm < 512
    → kind_bits kind ≡ 4096 * j
    → j < 16
    → (full_mode info kind % 2 ^ 32 % 512 ≡ info.perm)
      × (has_bit (full_mode info kind) 2048 ≡ info.setuid)
      × (has_bit (full_mode info kind) 1024 ≡ info.setgid)
      × (has_bit (full_mode info kind) 512 ≡ info.sticky)
      × (type_bits (full_mode info kind) ≡ kind_bits kind)
unfolding set_bits
read_mode info kind j p e q =
    let a = digit info.setuid in
    let b = digit info.setgid in
    let c = digit info.sticky in
    let m : full_mode info kind ≡ mode_with info.perm j a b c =
      omega
        (arith, e, bit_lem info.setuid 2048, bit_lem info.setgid 1024, bit_lem info.sticky 512) in
    let (r, u, g, t, k) =
      mode_parts info.perm j a b c p q (digit-lt info.setuid) (digit-lt info.setgid)
        (digit-lt info.sticky) in
    (
      ap (λ (x : ℕ). x % 2 ^ 32 % 512) m ∙ r,
      one_iff info.setuid _ (ap (λ (x : ℕ). x / 2048 % 2) m ∙ u),
      one_iff info.setgid _ (ap (λ (x : ℕ). x / 1024 % 2) m ∙ g),
      one_iff info.sticky _ (ap (λ (x : ℕ). x / 512 % 2) m ∙ t),
      ap type_bits m ∙ k ∙ sym e,
    )

-- The kinds as the numbers above the permissions and the set-id bits.
abbrev pub kind_index : FileKind → ℕ
kind_index regular = 8
kind_index directory = 4
kind_index symlink = 10
kind_index char_device = 2
kind_index block_device = 6
kind_index named_pipe = 1
kind_index socket = 12
kind_index irregular = 0

pub kind_bits_lem :
    (kind : FileKind) → (kind_bits kind ≡ 4096 * kind_index kind) × (kind_index kind < 16)
kind_bits_lem regular = (refl, omega arith)
kind_bits_lem directory = (refl, omega arith)
kind_bits_lem symlink = (refl, omega arith)
kind_bits_lem char_device = (refl, omega arith)
kind_bits_lem block_device = (refl, omega arith)
kind_bits_lem named_pipe = (refl, omega arith)
kind_bits_lem socket = (refl, omega arith)
kind_bits_lem irregular = (refl, omega arith)

-- The mode that is read of these parts.
abbrev pub mode_from : ℕ → Bool → Bool → Bool → ℕ → ℕ → FileMode
mode_from perm u g t m flag = record {
  perm = perm;
  setuid = u;
  setgid = g;
  sticky = t;
  dir = m == kind_bits directory || flag == type_dir;
  pipe = m == kind_bits named_pipe || flag == type_fifo;
  link = m == kind_bits symlink || flag == type_symlink;
  device =
      m == kind_bits block_device
      || m == kind_bits char_device
      || flag == type_char
      || flag == type_block;
  char = m == kind_bits char_device || flag == type_char;
  sock = m == kind_bits socket;
}

pub mode_from-kind :
    (info : FileInfo) (kind : FileKind)
    → mode_from info.perm info.setuid info.setgid info.sticky (kind_bits kind) (kind_flag kind)
      ≡ mode_as info kind
mode_from-kind info regular = refl
mode_from-kind info directory = refl
mode_from-kind info symlink = refl
mode_from-kind info char_device = refl
mode_from-kind info block_device = refl
mode_from-kind info named_pipe = refl
mode_from-kind info socket = refl
mode_from-kind info irregular = refl
