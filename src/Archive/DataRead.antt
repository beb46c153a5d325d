-- ===== src/Archive/DataRead.antt =====
-- deb/package.go: `CreateDataArchive`, and what a reader of its archive finds.
use mkdeb.Prelude.{
  ℕ, ◌-◌, ◌≤◌, Bool, true, false, ◌≡◌, refl, sym, ◌∙◌, ap, List, [], ◌∷◌, ◌++◌, append-nil,
  append_assoc, Option, none, some, Bytes, All, map, length, length-append, codes, Result, ok, pos,
  arith,
}
use mkdeb.Spec.{PackageSpec}
use mkdeb.Disk.{Disk, FileInfo, is_dir}
use mkdeb.Listing.{ListError, normalize_filename, list_files}
use mkdeb.Tar.Strconv.{TarError}
use mkdeb.Tar.Header.{Header, stat_unix, file_info_header}
use mkdeb.Tar.Writer.{Sink, Writer, new_writer, write_header, close}
use mkdeb.Tar.Writer.Padding.{IsReliable}
use mkdeb.Tar.Writer.Steps.{write-fitting}
use mkdeb.Tar.Reading.{Entry, read_archive}
use mkdeb.Tar.Reading.Layout.{IsEntry, stored_entry}
use mkdeb.Tar.Reading.Started.{IsReady}
use mkdeb.Tar.Reading.Written.{
  write_header-IsEntry, filled_up, IsWritten, AreWritten, written_cons, new_writer-IsReady,
  read_archive-AreWritten,
}
use mkdeb.Archive.{
  ArchiveError, stops, deferred_close, copy, copy_stops, copy_file, with_header, with_info,
  with_target, add_files, add_listed, create_data_archive,
}

-- The contents of an entry: of a file what was read, of a directory nothing.
pub data IsContent (disk : Disk) (f : Bytes) : Bool → Bytes → Type 0 where
  of_directory : IsContent disk f true []
  of_file : (content : Bytes) → disk.read_file f ≡ some content → IsContent disk f false content

-- The entry of a file: its name is the normalized one, its header that of the file with the owner
-- root.
pub record IsEntryOf (disk : Disk) (p : PackageSpec) (f : Bytes) (e : Entry) : Type 0 where
  pub target : Bytes
  pub info : FileInfo
  pub file_header : Header
  pub has_target : normalize_filename p f ≡ ok target
  pub has_info : disk.stat f ≡ some info
  pub has_header : file_info_header info f (stat_unix info) ≡ some file_header
  pub is_header : e.header ≡ record file_header {
    name = target;
    uid = pos 0;
    gid = pos 0;
    uname = codes "root";
    gname = codes "root";
  }
  pub is_content : IsContent disk f (is_dir info) e.content

-- The entries of files, in their order.
pub data Entries (disk : Disk) (p : PackageSpec) : List Bytes → List Entry → Type 0 where
  no_files : Entries disk p [] []
  one_file :
      {fs : List Bytes} {es : List Entry} (f : Bytes) (e : Entry)
      → IsEntryOf disk p f e
      → Entries disk p fs es
      → Entries disk p (f ∷ fs) (e ∷ es)

-- The pieces behind each other.
abbrev pub joined : List Bytes → Bytes
joined [] = []
joined (b ∷ bs) = b ++ joined bs

module _ (sink : Sink) (r : IsReliable sink) where
  -- Pieces that fit are copied whole.
  copy-joined :
      (bs : List Bytes) (w : Writer)
      → w.closed ≡ false
      → w.fault ≡ none
      → length (joined bs) ≤ w.nb
      → copy sink bs w ≡ (
        record w { out = w.out ++ joined bs; nb = w.nb - length (joined bs); fault = none },
        none,
      )
  unfolding copy
  copy-joined [] w c f l =
      let no_error : Option ArchiveError = none in
      let z : w.nb - 0 ≡ w.nb = omega arith in
      sym (
        ap (λ (o : Bytes). (record w { out = o; nb = w.nb - 0; fault = none }, no_error))
          (append-nil w.out)
        ∙ ap (λ (n : ℕ). (record w { nb = n; fault = none }, no_error)) z
        ∙ ap (λ (e : Option TarError). (record w { fault = e }, no_error)) (sym f))
  copy-joined (b ∷ bs) w c f l =
      let m = length-append b (joined bs) in
      let no_error : Option ArchiveError = none in
      let w1 : Writer = record w { out = w.out ++ b; nb = w.nb - length b; fault = none } in
      let n : w.nb - length b - length (joined bs) ≡ w.nb - length (b ++ joined bs) =
        omega (arith, m) in
      ap (λ (x : Writer × ℕ × Option TarError). copy_stops x.2 x.0 (copy sink bs x.0))
        (write-fitting sink r b w c (omega (arith, l, m)))
      ∙ copy-joined bs w1 c refl (omega (arith, l, m))
      ∙ ap
          (λ (o : Bytes). (
            record w { out = o; nb = w.nb - length b - length (joined bs); fault = none },
            no_error,
          ))
          (append_assoc w.out b (joined bs))
      ∙ ap
          (λ (k : ℕ).
            (record w { out = w.out ++ (b ++ joined bs); nb = k; fault = none }, no_error))
          n

  module _ (pieces : Bytes → List Bytes) (whole : (b : Bytes) → joined (pieces b) ≡ b) (disk : Disk)
      (p : PackageSpec) where
    -- The contents are copied whole, whatever the pieces.
    copy_file-IsContent :
        (f : Bytes) (dir : Bool) (content : Bytes) (w : Writer)
        → IsContent disk f dir content
        → w.closed ≡ false
        → w.fault ≡ none
        → length content ≡ w.nb
        → copy_file sink pieces f (disk.read_part f) (disk.read_file f) dir w
          ≡ (filled_up sink r content w, none)
    unfolding copy_file
    copy_file-IsContent f _ _ w of_directory c g n = copy-joined [] w c g (omega arith)
    copy_file-IsContent f _ _ w (of_file content e) c g n =
        let no_error : Option ArchiveError = none in
        ap (λ (o : Option Bytes). copy_file sink pieces f (disk.read_part f) o false w) e
        ∙ copy-joined (pieces content) w c g (omega (arith, n, ap length (whole content)))
        ∙ ap (λ (b : Bytes). (filled_up sink r b w, no_error)) (whole content)

    with_target-IsWritten :
        (f : Bytes) (e : Entry) (w : Writer)
        → IsEntryOf disk p f e
        → IsReady w
        → IsEntry e
        → (w' : Writer) × (with_target sink pieces disk f (normalize_filename p f) w ≡ (w', none))
          × IsWritten sink r e w w'
    unfolding with_target with_info with_header
    with_target-IsWritten f e w x a v =
        let (w1, q, c, g, n, ready, t) = write_header-IsEntry sink r e w a v in
        (
          filled_up sink r e.content w1,
          ap (λ (o : Result ListError Bytes). with_target sink pieces disk f o w) x.has_target
              ∙ ap (λ (o : Option FileInfo). with_info sink pieces disk f x.target o w) x.has_info
              ∙ ap (λ (o : Option Header). with_header sink pieces disk f x.target x.info o w)
                  x.has_header
              ∙ ap
                  (λ (h : Header).
                    copy_file sink pieces f (disk.read_part f) (disk.read_file f) (is_dir x.info)
                      (write_header sink h w).0)
                  (sym x.is_header)
              ∙ ap
                  (λ (y : Writer × Option TarError).
                    copy_file sink pieces f (disk.read_part f) (disk.read_file f) (is_dir x.info)
                      y.0)
                  q
              ∙ copy_file-IsContent f (is_dir x.info) e.content w1 x.is_content c g (sym n),
          (ready, t),
        )

    add_files-AreWritten :
        {fs : List Bytes} {es : List Entry} (w : Writer)
        → Entries disk p fs es
        → IsReady w
        → All IsEntry es
        → (w' : Writer) × (add_files sink pieces disk p fs w ≡ (w', none))
          × AreWritten sink r es w w'
    unfolding add_files
    add_files-AreWritten w no_files a vs = (w, refl, (a, refl))
    add_files-AreWritten w (one_file {fs} {es} f e x xs) a (v, vs) =
        let (w1, q, k) = with_target-IsWritten f e w x a v in
        let (w2, q2, k2) = add_files-AreWritten w1 xs k.0 vs in
        (
          w2,
          ap
                (λ (y : Writer × Option ArchiveError).
                  stops y.1 y.0 (add_files sink pieces disk p fs y.0))
                q
              ∙ q2,
          written_cons sink r e es w w1 w2 k k2,
        )

    -- When `ListFiles` lists files that have these entries, `CreateDataArchive` returns no error, and
    -- on a sink that takes every chunk whole an independent reader of its archive finds the same
    -- entries in the same order: each with the normalized name of its file, the mode, link and type
    -- of the file, the time in seconds, the owner root, and the contents of the file, in whatever pieces
    -- they were copied. The fields of the headers fit, and the sizes are those of the contents read.
    pub read_archive-create_data_archive :
        (keys fs : List Bytes) (es : List Entry)
        → list_files disk p keys true ≡ ok fs
        → Entries disk p fs es
        → All IsEntry es
        → ((create_data_archive sink pieces disk true p keys).1 ≡ none)
          × (read_archive (create_data_archive sink pieces disk true p keys).0.out
              ≡ ok (map stored_entry es))
    unfolding create_data_archive deferred_close add_listed
    read_archive-create_data_archive keys fs es l xs vs =
        let (w, q, k) = add_files-AreWritten new_writer xs (new_writer-IsReady sink r) vs in
        let e : create_data_archive sink pieces disk true p keys ≡ ((close sink w).0, none) =
          ap
            (λ (o : Result ListError (List Bytes)).
              deferred_close sink (add_listed sink pieces disk p o new_writer))
            l
          ∙ ap (deferred_close sink) q in
        (
          ap (λ (x : Writer × Option ArchiveError). x.1) e,
          ap (λ (x : Writer × Option ArchiveError). read_archive x.0.out) e
              ∙ (read_archive-AreWritten sink r es w vs k).1,
        )
