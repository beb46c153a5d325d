-- ===== src/Tar/Header/Kinds.antt =====
-- deb/tar/common.go: `FileInfoHeader` and the kinds of files.
use mkdeb.Prelude.{
  ℕ, false, ◌≡◌, ◌≢◌, ◌⊎◌, inl, inr, refl, Option, none, some, Bytes, ℤ, ap, sym, ◌∙◌,
}
use mkdeb.Disk.{
  FileKind, regular, directory, symlink, char_device, block_device, named_pipe, socket, irregular,
  FileInfo,
}
use mkdeb.Tar.Header.{
  Header, header_of, file_header, file_info_header, is_header_only_type, type_reg, kind_flag,
}

-- Content is announced for a regular file alone, and its type has a content; any other header announces
-- none.
abbrev pub Announces : FileInfo → FileKind → Header → Type 0
Announces info kind h =
    ((kind ≡ regular) × (h.size ≡ info.size) × (is_header_only_type h.type_flag ≡ false))
    ⊎ ((kind ≢ regular) × (h.size ≡ 0))

abbrev size_of : Option Header → ℕ
size_of none = 0
size_of (some h) = h.size

abbrev flag_of : Option Header → ℕ
flag_of none = 0
flag_of (some h) = h.type_flag

file_header-Announces :
    (info : FileInfo) (link : Bytes) (owner : ℤ × ℤ) (kind : FileKind) (h : Header)
    → info.kind ≡ kind
    → file_header info link owner kind ≡ some h
    → Announces info kind h
unfolding file_header header_of is_header_only_type
file_header-Announces info link owner regular h e k =
    let f : h.type_flag ≡ type_reg = ap flag_of (sym k) ∙ ap kind_flag e in
    inl (refl, ap size_of (sym k), ap is_header_only_type f)
file_header-Announces info link owner directory h e k = inr (λ q. cc, ap size_of (sym k))
file_header-Announces info link owner symlink h e k = inr (λ q. cc, ap size_of (sym k))
file_header-Announces info link owner char_device h e k = inr (λ q. cc, ap size_of (sym k))
file_header-Announces info link owner block_device h e k = inr (λ q. cc, ap size_of (sym k))
file_header-Announces info link owner named_pipe h e k = inr (λ q. cc, ap size_of (sym k))
file_header-Announces info link owner socket h e k = inr (λ q. cc, ap size_of (sym k))
file_header-Announces info link owner irregular h e k = cc

-- The header of a regular file announces the file's size as content, and its type is one that has a
-- content. The header of any other file announces no content.
pub file_info_header-Announces :
    (info : FileInfo) (link : Bytes) (owner : ℤ × ℤ) (h : Header)
    → file_info_header info link owner ≡ some h
    → Announces info info.kind h
unfolding file_info_header
file_info_header-Announces info link owner h k =
    file_header-Announces info link owner info.kind h refl k
