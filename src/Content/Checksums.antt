-- ===== src/Content/Checksums.antt =====
-- deb/package.go: `CalculateChecksums`, and a reader of the file md5sums.
use mathlib.Core.Path.{subst}
use mkdeb.Prelude.{
  ◌≡◌, refl, sym, ap, ◌∙◌, false, List, [], ◌∷◌, ◌++◌, append_assoc, append-nil, map, some, Bytes,
  codes, has_byte-append, arith, All, Lacks, ok, >>=-eq-ok, each, or_err, unlines,
  text_lines-unlines,
}
use mkdeb.Spec.{PackageSpec}
use mkdeb.Disk.{Disk}
use mkdeb.Listing.{normalize_filename, list_files}
use mkdeb.Listing.Loops.{Aligned}
use mkdeb.Listing.Complete.{candidates, IsListable, list_files-IsListable}
use mkdeb.Content.{lift, hex_encode, md5_sum_file, sum_step, calculate_checksums}
use mkdeb.Content.Size.{or_err_ok, lift_ok}
use mkdeb.Content.Digest.{
  read_lines, read_sums, IsDigest, sum_line, Covers, none_left, one_more, hex_encode-Lacks,
  read_sum-sum_line,
}

module _ (md5 : Bytes → Bytes) (digests : (s : Bytes) → IsDigest (md5 s)) (disk : Disk)
    (p : PackageSpec) where
  sum_inv :
      (acc f t r : Bytes)
      → normalize_filename p f ≡ ok t
      → sum_step md5 disk p acc f ≡ ok r
      → (content : Bytes) × (disk.read_file f ≡ some content)
        × (r ≡ acc ++ (sum_line (md5 content, t) ++ codes "\n"))
  unfolding sum_step
  sum_inv acc f t r e h =
      let (sum, hs, h') = >>=-eq-ok (md5_sum_file md5 disk f) _ h in
      let (content, hc, h2) = >>=-eq-ok (or_err (disk.read_file f) _) _ hs in
      let es : hex_encode (md5 content) ≡ sum = ground arith in
      let er : r ≡ acc ++ (sum ++ (codes "  " ++ (t ++ codes "\n"))) = ground arith in
      (
        content,
        or_err_ok (disk.read_file f) _ content hc,
        er ∙ rw (← es, append_assoc (hex_encode (md5 content))),
      )

  sum_each :
      (acc : Bytes) (fs ts : List Bytes) (r : Bytes)
      → Aligned p fs ts
      → each (sum_step md5 disk p) acc fs ≡ ok r
      → (es : List (Bytes × Bytes)) × Covers md5 disk fs ts es
        × (r ≡ acc ++ unlines (map sum_line es))
  sum_each acc [] [] r a h =
      let e : acc ≡ r = ground arith in ([], none_left, sym e ∙ sym (append-nil acc))
  sum_each acc [] (t ∷ ts) r a h = absurd a
  sum_each acc (f ∷ fs) [] r a h = absurd a
  sum_each acc (f ∷ fs) (t ∷ ts) r (e, a) h =
      let (m, hm, h') = >>=-eq-ok (sum_step md5 disk p acc f) _ h in
      let (content, hc, em) = sum_inv acc f t m e hm in
      let (es, c, er) = sum_each m fs ts r a h' in
      (
        (md5 content, t) ∷ es,
        one_more f t content hc c,
        er
            ∙ ap (λ (x : Bytes). x ++ unlines (map sum_line es)) em
            ∙ append_assoc acc (sum_line (md5 content, t) ++ codes "\n") _
            ∙ ap (λ (x : Bytes). acc ++ x)
                (append_assoc (sum_line (md5 content, t)) (codes "\n") _),
      )

  lines-Lacks :
      {fs ts : List Bytes} {es : List (Bytes × Bytes)}
      → Covers md5 disk fs ts es
      → All (Lacks b'\n') ts
      → All (Lacks b'\n') (map sum_line es)
  lines-Lacks none_left h = tt
  lines-Lacks (one_more f t content hc c) (h, hs) = (
    has_byte-append b'\n' (hex_encode (md5 content)) (codes "  " ++ t)
        (hex_encode-Lacks (md5 content) (digests content).1) h,
    lines-Lacks c hs,
  )

  read_lines-Covers :
      {fs ts : List Bytes} {es : List (Bytes × Bytes)}
      → Covers md5 disk fs ts es
      → read_lines (map sum_line es) ≡ some es
  unfolding read_lines
  read_lines-Covers none_left = refl
  read_lines-Covers (one_more f t content hc c) =
      rw (read_sum-sum_line (md5 content) t (digests content), read_lines-Covers c)

-- Whatever name the file gets in the archive holds no newline.
abbrev pub IsOneLine : PackageSpec → Bytes → Type 0
IsOneLine p f = (t : Bytes) → normalize_filename p f ≡ ok t → Lacks b'\n' t

Aligned-Lacks :
    (p : PackageSpec) (fs ts : List Bytes)
    → All (IsOneLine p) fs
    → Aligned p fs ts
    → All (Lacks b'\n') ts
Aligned-Lacks p [] [] plain a = tt
Aligned-Lacks p [] (t ∷ ts) plain a = absurd a
Aligned-Lacks p (f ∷ fs) [] plain a = absurd a
Aligned-Lacks p (f ∷ fs) (t ∷ ts) (h, hs) (e, a) = (h t e, Aligned-Lacks p fs ts hs a)

-- The file that `CalculateChecksums` renders reads back, with a reader of the format of
-- `md5sum --check`, as one entry for each listed file, in the order of the list: the digest of the
-- file's contents and its archive name. The digests have 16 bytes, and no archive name of a listed
-- file holds a newline.
pub read_sums-calculate_checksums :
    (md5 : Bytes → Bytes)
    → ((s : Bytes) → IsDigest (md5 s))
    → (disk : Disk) (p : PackageSpec) (keys : List Bytes) (text : Bytes)
    → All (IsOneLine p) (candidates disk p keys false)
    → calculate_checksums md5 disk p keys ≡ ok text
    → (v : IsListable disk p keys false) × (es : List (Bytes × Bytes)) × Covers md5 disk
        (candidates disk p keys false)
        v.targets
        es
      × (read_sums text ≡ some es)
unfolding calculate_checksums read_sums
read_sums-calculate_checksums md5 digests disk p keys text plain h =
    let (fs, hf, h') = >>=-eq-ok (lift (list_files disk p keys false)) _ h in
    let (ef, v) = (list_files-IsListable disk p keys false fs).0 (lift_ok _ fs hf) in
    let a = subst (λ (x : List Bytes). Aligned p x v.targets) (sym ef) v.aligned in
    let (es, c, e) = sum_each md5 digests disk p [] fs v.targets text a h' in
    (
      v,
      es,
      subst (λ (x : List Bytes). Covers md5 disk x v.targets es) ef c,
      rw
          (
            e,
            text_lines-unlines (map sum_line es) (
                lines-Lacks md5 digests disk p c (
                  Aligned-Lacks p fs v.targets
                    (subst (λ (x : List Bytes). All (IsOneLine p) x) (sym ef) plain) a)),
          )
          (read_lines-Covers md5 digests disk p c),
    )
