-- ===== src/Archive/Data.antt =====
-- deb/package.go: `CreateDataArchive` and the blocks of its archive.
use mkdeb.Prelude.{
  Bool, true, false, refl, List, [], ◌∷◌, Option, none, some, Bytes, Result, ok, err,
}
use mkdeb.Spec.{PackageSpec}
use mkdeb.Disk.{Disk, FileInfo, is_dir}
use mkdeb.Listing.{ListError, normalize_filename, list_files}
use mkdeb.Tar.Strconv.{TarError}
use mkdeb.Tar.Header.{Header, stat_unix, file_info_header}
use mkdeb.Tar.Writer.{Sink, Writer, new_writer, write, write_header}
use mkdeb.Tar.Writer.Padding.{IsReliable}
use mkdeb.Tar.Writer.Flushed.{IsAligned}
use mkdeb.Tar.Writer.Aligned.{start, content, finish, run-IsAligned}
use mkdeb.Archive.{
  ArchiveError, stops, deferred_close, copy, copy_stops, copy_file, data_header, with_header,
  with_info, with_target, add_files, add_listed, create_data_archive,
}

module _ (sink : Sink) (r : IsReliable sink) (pieces : Bytes → List Bytes) (disk : Disk)
    (p : PackageSpec) where
  stops-IsAligned :
      (e : Option ArchiveError) (w : Writer) (rest : Writer × Option ArchiveError)
      → IsAligned w
      → IsAligned rest.0
      → IsAligned (stops e w rest).0
  stops-IsAligned none w rest h k = k
  stops-IsAligned (some e) w rest h k = h

  copy_stops-IsAligned :
      (e : Option TarError) (w : Writer) (rest : Writer × Option ArchiveError)
      → IsAligned w
      → IsAligned rest.0
      → IsAligned (copy_stops e w rest).0
  copy_stops-IsAligned none w rest h k = k
  copy_stops-IsAligned (some e) w rest h k = h

  copy-IsAligned : (bs : List Bytes) (w : Writer) → IsAligned w → IsAligned (copy sink bs w).0
  unfolding copy
  copy-IsAligned [] w h = h
  copy-IsAligned (b ∷ bs) w h =
      let (w', _, e) = write sink b w in
      let h' : IsAligned w' = run-IsAligned sink r (content b ∷ []) w h in
      copy_stops-IsAligned e w' (copy sink bs w') h' (copy-IsAligned bs w' h')

  copy_file-IsAligned :
      (f part : Bytes) (o : Option Bytes) (dir : Bool) (w : Writer)
      → IsAligned w
      → IsAligned (copy_file sink pieces f part o dir w).0
  unfolding copy_file
  copy_file-IsAligned f part o true w h = h
  copy_file-IsAligned f part none false w h = copy-IsAligned (pieces part) w h
  copy_file-IsAligned f part (some b) false w h = copy-IsAligned (pieces b) w h

  with_header-IsAligned :
      (f t : Bytes) (info : FileInfo) (o : Option Header) (w : Writer)
      → IsAligned w
      → IsAligned (with_header sink pieces disk f t info o w).0
  unfolding with_header
  with_header-IsAligned f t info none w h = h
  with_header-IsAligned f t info (some x) w h =
      copy_file-IsAligned f (disk.read_part f) (disk.read_file f) (is_dir info)
        (write_header sink (data_header t x) w).0
        (run-IsAligned sink r (start (data_header t x) ∷ []) w h)

  with_info-IsAligned :
      (f t : Bytes) (o : Option FileInfo) (w : Writer)
      → IsAligned w
      → IsAligned (with_info sink pieces disk f t o w).0
  unfolding with_info
  with_info-IsAligned f t none w h = h
  with_info-IsAligned f t (some info) w h =
      with_header-IsAligned f t info (file_info_header info f (stat_unix info)) w h

  with_target-IsAligned :
      (f : Bytes) (o : Result ListError Bytes) (w : Writer)
      → IsAligned w
      → IsAligned (with_target sink pieces disk f o w).0
  unfolding with_target
  with_target-IsAligned f (err e) w h = h
  with_target-IsAligned f (ok t) w h = with_info-IsAligned f t (disk.stat f) w h

  add_files-IsAligned :
      (fs : List Bytes) (w : Writer) → IsAligned w → IsAligned (add_files sink pieces disk p fs w).0
  unfolding add_files
  add_files-IsAligned [] w h = h
  add_files-IsAligned (f ∷ fs) w h =
      let (w', e) = with_target sink pieces disk f (normalize_filename p f) w in
      let h' : IsAligned w' = with_target-IsAligned f (normalize_filename p f) w h in
      stops-IsAligned e w' (add_files sink pieces disk p fs w') h' (add_files-IsAligned fs w' h')

  add_listed-IsAligned :
      (o : Result ListError (List Bytes)) (w : Writer)
      → IsAligned w
      → IsAligned (add_listed sink pieces disk p o w).0
  unfolding add_listed
  add_listed-IsAligned (err e) w h = h
  add_listed-IsAligned (ok fs) w h = add_files-IsAligned fs w h

  -- On a sink that takes every chunk whole, the archive that `CreateDataArchive` closes is in whole
  -- blocks, with the padding and the content that an unfinished entry still expects counted in, whether
  -- it returns an error or not.
  pub create_data_archive-IsAligned :
      (created : Bool) (keys : List Bytes)
      → IsAligned (create_data_archive sink pieces disk created p keys).0
  unfolding create_data_archive deferred_close
  create_data_archive-IsAligned false keys = refl
  create_data_archive-IsAligned true keys =
      let w = add_listed sink pieces disk p (list_files disk p keys true) new_writer in
      run-IsAligned sink r (finish ∷ []) w.0
        (add_listed-IsAligned (list_files disk p keys true) new_writer refl)
