-- ===== src/Tar/Header/InfoBack.antt =====
-- deb/tar/common.go: `FileInfoHeader` and back by `FileInfo`.
use mathlib.Core.List.{reverse}
use mkdeb.Prelude.{
  append-nil, if_true, if_false, ℕ, ◌<◌, Bool, true, false, ◌==◌, ◌≡◌, refl, sym, ◌∙◌, ap, List, [],
  ◌∷◌, ◌++◌, some, Bytes, codes, ℤ, arith, if◌then◌else◌,
}
use mkdeb.FilePath.{
  base, last_or, slash, clean, render, split, clean_elements, clean_step, is_rooted,
}
use mkdeb.FilePath.Elements.{IsPart, split-join}
use mkdeb.FilePath.Clean.{IsPlain}
use mkdeb.Disk.{
  FileKind, regular, directory, symlink, char_device, block_device, named_pipe, socket, irregular,
  FileInfo,
}
use mkdeb.Tar.Header.{Header, header_of, file_header, file_info_header, kind_flag}
use mkdeb.Tar.Header.Info.{
  FileMode, Reported, has_bit, type_bits, header_mode, header_name, header_file_info,
}
use mkdeb.Tar.Header.ModeBits.{
  is_kind, mode_as, mode_from, mode_from-kind, kind_index, kind_bits_lem, full_mode, read_mode,
}

-- What the operating system says of a file, as an `os.FileInfo` reports it; only a regular file has
-- contents of its size.
abbrev pub reported : FileInfo → Reported
reported info = record {
  name = info.name;
  size = if is_kind regular info.kind then info.size else 0;
  mode = mode_as info info.kind;
  mod_time = info.mod_time;
}

base-part : (e : Bytes) → IsPlain e → base e ≡ e
unfolding base
base-part [] (p, a, b, c) = cc
base-part (d ∷ e) (p, a, b, c) =
    let q : split (d ∷ e) ≡ (d ∷ e) ∷ [] =
      ap split (sym (append-nil (d ∷ e))) ∙ split-join (d ∷ e) [] (p, tt) in
    ap (last_or (codes "/")) q

has_byte-first : (d : ℕ) (e : Bytes) → IsPart (d ∷ e) → (d == slash) ≡ false
has_byte-first d e p = ground arith

-- The name of a directory loses its slash.
clean-slash : (e : Bytes) → IsPlain e → clean (e ++ codes "/") ≡ e
unfolding clean clean_elements clean_step
clean-slash [] (p, a, b, c) = cc
clean-slash (d ∷ e) (p, a, b, c) =
    let name : Bytes = (d ∷ e) ++ codes "/" in
    let parts : split name ≡ (d ∷ e) ∷ [] ∷ [] = split-join (d ∷ e) ([] ∷ []) (p, (refl, tt)) in
    let root : is_rooted name ≡ false = has_byte-first d e p in
    ap (λ (r : Bool). render r (reverse (clean_elements r [] (split name)))) root
    ∙ ap (λ (es : List Bytes). render false (reverse (clean_elements false [] es))) parts
    ∙ rw (b, c) (append-nil (d ∷ e))

module _ (info : FileInfo) (link : Bytes) (owner : ℤ × ℤ) (p : info.perm < 512)
    (n : IsPlain info.name) where
  header_mode-header_of :
      (name : Bytes) (size : ℕ) (l : Bytes)
      → header_mode (header_of info name size l owner) ≡ mode_as info info.kind
  unfolding header_mode header_of
  header_mode-header_of name size l =
      let (e, q) = kind_bits_lem info.kind in
      let (r, u, g, t, m) = read_mode info info.kind (kind_index info.kind) p e q in
      let flag = kind_flag info.kind in
      let x = full_mode info info.kind in
      ap
        (λ (y : ℕ).
          mode_from y (has_bit x 2048) (has_bit x 1024) (has_bit x 512) (type_bits x) flag)
        r
      ∙ ap (λ (y : Bool). mode_from info.perm y (has_bit x 1024) (has_bit x 512) (type_bits x) flag)
          u
      ∙ ap (λ (y : Bool). mode_from info.perm info.setuid y (has_bit x 512) (type_bits x) flag) g
      ∙ ap (λ (y : Bool). mode_from info.perm info.setuid info.setgid y (type_bits x) flag) t
      ∙ ap (λ (y : ℕ). mode_from info.perm info.setuid info.setgid info.sticky y flag) m
      ∙ mode_from-kind info info.kind

  name_lem :
      (dir : Bool) (h : Header)
      → (header_mode h).dir ≡ dir
      → h.name ≡ (if dir then info.name ++ codes "/" else info.name)
      → header_name h ≡ info.name
  unfolding header_name
  name_lem true h d e =
      if_true (header_mode h).dir (base (clean h.name)) (base h.name) d
      ∙ ap (λ (x : Bytes). base (clean x)) e
      ∙ ap base (clean-slash info.name n)
      ∙ base-part info.name n
  name_lem false h d e =
      if_false (header_mode h).dir (base (clean h.name)) (base h.name) d
      ∙ ap base e
      ∙ base-part info.name n

  -- A header with the name and the size of its kind.
  header_of-reported :
      (kind : FileKind) (name : Bytes) (size : ℕ) (l : Bytes)
      → info.kind ≡ kind
      → name ≡ (if is_kind directory kind then info.name ++ codes "/" else info.name)
      → size ≡ (if is_kind regular kind then info.size else 0)
      → header_file_info (header_of info name size l owner) ≡ reported info
  unfolding header_file_info header_of
  header_of-reported kind name size l e a b =
      let h = header_of info name size l owner in
      let m = header_mode-header_of name size l in
      let d : (header_mode h).dir ≡ is_kind directory kind =
        ap (λ (x : FileMode). x.dir) m ∙ ap (is_kind directory) e in
      let t = info.mod_time in
      let report : Bytes → ℕ → FileMode → Reported =
        λ x y z. record { name = x; size = y; mode = z; mod_time = t } in
      ap (λ (x : Bytes). report x size (header_mode h)) (name_lem (is_kind directory kind) h d a)
      ∙ ap (report info.name size) m
      ∙ ap (λ (y : ℕ). report info.name y (mode_as info info.kind)) b
      ∙ ap
          (λ (k : FileKind).
            report info.name (if is_kind regular k then info.size else 0) (mode_as info info.kind))
          (sym e)

  some_inj : {a b : Header} → some a ≡ some b → a ≡ b
  some_inj h = cc

  back :
      (kind : FileKind) (name : Bytes) (size : ℕ) (l : Bytes)
      → info.kind ≡ kind
      → name ≡ (if is_kind directory kind then info.name ++ codes "/" else info.name)
      → size ≡ (if is_kind regular kind then info.size else 0)
      → (h : Header) → some (header_of info name size l owner) ≡ some h
      → header_file_info h ≡ reported info
  back kind name size l e a b h k =
      ap header_file_info (sym (some_inj k)) ∙ header_of-reported kind name size l e a b

  file_header-reported :
      (kind : FileKind) (h : Header)
      → info.kind ≡ kind
      → file_header info link owner kind ≡ some h
      → header_file_info h ≡ reported info
  unfolding file_header
  file_header-reported regular h e k = back regular info.name info.size [] e refl refl h k
  file_header-reported directory h e k =
      back directory (info.name ++ codes "/") 0 [] e refl refl h k
  file_header-reported symlink h e k = back symlink info.name 0 link e refl refl h k
  file_header-reported char_device h e k = back char_device info.name 0 [] e refl refl h k
  file_header-reported block_device h e k = back block_device info.name 0 [] e refl refl h k
  file_header-reported named_pipe h e k = back named_pipe info.name 0 [] e refl refl h k
  file_header-reported socket h e k = back socket info.name 0 [] e refl refl h k
  file_header-reported irregular h e k = cc

  -- The header that `FileInfoHeader` makes of a file gives back, by `FileInfo`, what was reported of the
  -- file: its name, its mode with the type and the set-id bits, its time, and its size if it is regular
  -- and zero else. The name is one element of a path, not `.` or `..`, and the permissions are nine bits.
  pub header_file_info-file_info_header :
      (h : Header) → file_info_header info link owner ≡ some h → header_file_info h ≡ reported info
  unfolding file_info_header
  header_file_info-file_info_header h k = file_header-reported info.kind h refl k
