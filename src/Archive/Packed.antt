-- ===== src/Archive/Packed.antt =====
-- deb/package.go: `CreateDataArchive` and the files that it packs.
use mkdeb.Prelude.{
  Bool, true, false, ◌≡◌, ◌≢◌, ◌⊎◌, inl, inr, refl, List, [], ◌∷◌, Option, none, some, Bytes, All,
  Result, ok, err,
}
use mkdeb.Spec.{PackageSpec}
use mkdeb.Disk.{Disk, FileInfo, is_dir}
use mkdeb.Listing.{ListError, normalize_filename, list_files}
use mkdeb.Tar.Header.{Header, stat_unix, file_info_header}
use mkdeb.Tar.Writer.{Sink, Writer, new_writer, write_header}
use mkdeb.Archive.{
  ArchiveError, stops, deferred_close, copy_file, data_header, with_header, with_info, with_target,
  add_files, add_listed, create_data_archive,
}

-- The contents of a file are read, unless it is a directory.
abbrev pub IsRead : Disk → Bytes → Bool → Type 0
IsRead disk f dir = (dir ≡ true) ⊎ ((content : Bytes) × (disk.read_file f ≡ some content))

-- A file has a name in the archive, a header and contents.
abbrev pub IsPacked : Disk → PackageSpec → Bytes → Type 0
IsPacked disk p f =
    (target : Bytes) × (normalize_filename p f ≡ ok target)
    × ((info : FileInfo) × (disk.stat f ≡ some info)
        × ((h : Header) × (file_info_header info f (stat_unix info) ≡ some h))
        × IsRead disk f (is_dir info))

no_error : (e : ArchiveError) → some e ≢ none
no_error e q = cc

module _ (sink : Sink) (pieces : Bytes → List Bytes) (disk : Disk) (p : PackageSpec) where
  stops-none :
      (e : Option ArchiveError) (w : Writer) (rest : Writer × Option ArchiveError)
      → (stops e w rest).1 ≡ none
      → (e ≡ none) × (rest.1 ≡ none)
  stops-none none w rest h = (refl, h)
  stops-none (some e) w rest h = absurd (no_error e h)

  copy_file-IsRead :
      (f part : Bytes) (o : Option Bytes) (dir : Bool) (w : Writer)
      → disk.read_file f ≡ o
      → (copy_file sink pieces f part o dir w).1 ≡ none
      → IsRead disk f dir
  unfolding copy_file
  copy_file-IsRead f part o true w e h = inl refl
  copy_file-IsRead f part none false w e h = absurd (no_error _ h)
  copy_file-IsRead f part (some content) false w e h = inr (content, e)

  with_header-IsPacked :
      (f t : Bytes) (info : FileInfo) (o : Option Header) (w : Writer)
      → (with_header sink pieces disk f t info o w).1 ≡ none
      → ((h : Header) × (o ≡ some h)) × IsRead disk f (is_dir info)
  unfolding with_header
  with_header-IsPacked f t info none w k = absurd (no_error _ k)
  with_header-IsPacked f t info (some x) w k = (
    (x, refl),
    copy_file-IsRead f (disk.read_part f) (disk.read_file f) (is_dir info)
        (write_header sink (data_header t x) w).0 refl k,
  )

  with_info-IsPacked :
      (f t : Bytes) (o : Option FileInfo) (w : Writer)
      → (with_info sink pieces disk f t o w).1 ≡ none
      → (info : FileInfo) × (o ≡ some info)
        × ((h : Header) × (file_info_header info f (stat_unix info) ≡ some h))
        × IsRead disk f (is_dir info)
  unfolding with_info
  with_info-IsPacked f t none w k = absurd (no_error _ k)
  with_info-IsPacked f t (some info) w k =
      let (h, i) = with_header-IsPacked f t info (file_info_header info f (stat_unix info)) w k in
      (info, refl, h, i)

  with_target-IsPacked :
      (f : Bytes) (o : Result ListError Bytes) (w : Writer)
      → normalize_filename p f ≡ o
      → (with_target sink pieces disk f o w).1 ≡ none
      → IsPacked disk p f
  unfolding with_target
  with_target-IsPacked f (err e) w q k = absurd (no_error _ k)
  with_target-IsPacked f (ok t) w q k = (t, q, with_info-IsPacked f t (disk.stat f) w k)

  add_files-IsPacked :
      (fs : List Bytes) (w : Writer)
      → (add_files sink pieces disk p fs w).1 ≡ none
      → All (IsPacked disk p) fs
  unfolding add_files
  add_files-IsPacked [] w k = tt
  add_files-IsPacked (f ∷ fs) w k =
      let (w', e) = with_target sink pieces disk f (normalize_filename p f) w in
      let (a, b) = stops-none e w' (add_files sink pieces disk p fs w') k in
      (with_target-IsPacked f (normalize_filename p f) w refl a, add_files-IsPacked fs w' b)

  add_listed-IsPacked :
      (o : Result ListError (List Bytes)) (w : Writer)
      → (add_listed sink pieces disk p o w).1 ≡ none
      → (fs : List Bytes) × (o ≡ ok fs) × All (IsPacked disk p) fs
  unfolding add_listed
  add_listed-IsPacked (err e) w k = absurd (no_error _ k)
  add_listed-IsPacked (ok fs) w k = (fs, refl, add_files-IsPacked fs w k)

  -- When `CreateDataArchive` returns no error, its file could be created, `ListFiles` with the
  -- directories succeeds, and each file that it lists has a name in the archive, can be stat'ed, has a
  -- known mode, and can be read if it is not a directory.
  pub create_data_archive-IsPacked :
      (created : Bool) (keys : List Bytes)
      → (create_data_archive sink pieces disk created p keys).1 ≡ none
      → (created ≡ true)
        × ((fs : List Bytes) × (list_files disk p keys true ≡ ok fs) × All (IsPacked disk p) fs)
  unfolding create_data_archive deferred_close
  create_data_archive-IsPacked false keys h = absurd (no_error _ h)
  create_data_archive-IsPacked true keys h =
      (refl, add_listed-IsPacked (list_files disk p keys true) new_writer h)
