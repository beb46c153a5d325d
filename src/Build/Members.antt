-- ===== src/Build/Members.antt =====
-- deb/package.go: `Build` and the members of the package.
use mkdeb.Prelude.{
  true, ◌≡◌, refl, sym, ◌∙◌, ap, List, [], ◌∷◌, ◌++◌, Option, none, some, Bytes, codes, ok,
  >>=-eq-ok, or_err, arith,
}
use mkdeb.Spec.{PackageSpec}
use mkdeb.Disk.{Disk, Time}
use mkdeb.Validate.{validate}
use mkdeb.Validate.Complete.{IsValid, validate-IsValid}
use mkdeb.Content.Size.{or_err_ok}
use mkdeb.Tar.Writer.{Sink, Writer}
use mkdeb.Archive.{ArchiveError, create_control_archive, create_data_archive}
use mkdeb.Build.{
  BuildError, invalid, archive_failed, Member, member, World, Orders, require, no_failure,
  write_bytes_to_ar, write_file_to_ar, build,
}

no_failure_ok :
    {E : Type 0} (wrap : E → BuildError) (o : Option E) (u : Unit {0})
    → no_failure wrap o ≡ ok u
    → o ≡ none
no_failure_ok wrap none u h = refl
no_failure_ok wrap (some e) u h = cc

write_bytes_to_ar_lem :
    (world : World) (name content : Bytes) (ms ns : List Member)
    → write_bytes_to_ar world name content ms ≡ ok ns
    → ns ≡ ms ++ member name content ∷ []
unfolding write_bytes_to_ar
write_bytes_to_ar_lem world name content ms ns h = ground arith

write_file_to_ar_lem :
    (world : World) (name bytes : Bytes) (ms ns : List Member)
    → write_file_to_ar world name bytes ms ≡ ok ns
    → (content : Bytes) × (world.stored bytes ≡ some content)
      × (ns ≡ ms ++ member name content ∷ [])
unfolding write_file_to_ar
write_file_to_ar_lem world name bytes ms ns h =
    let (content, e, k) = >>=-eq-ok (or_err (world.stored bytes) _) _ h in
    (
      content,
      or_err_ok (world.stored bytes) _ content e,
      write_bytes_to_ar_lem world name content ms ns k,
    )

append_two :
    {ms1 ms2 : List Member} {a b c : Member}
    → ms1 ≡ a ∷ []
    → ms2 ≡ ms1 ++ b ∷ []
    → ms2 ++ c ∷ [] ≡ a ∷ b ∷ c ∷ []
append_two {ms1} {ms2} {a} {b} {c} e1 e2 =
    ap (λ (ms : List Member). ms ++ c ∷ []) (e2 ∙ ap (λ (ms : List Member). ms ++ b ∷ []) e1)

module _ (world : World) (sink : Sink) (md5 : Bytes → Bytes) (pieces : Bytes → List Bytes)
    (disk : Disk) (now : Time) (orders : Orders) (p : PackageSpec) where
  abbrev pub control_archive : Writer × Option ArchiveError
  control_archive =
      create_control_archive sink md5 disk now world.create_control p orders.sums orders.conffiles
        orders.scripts

  abbrev pub data_archive : Writer × Option ArchiveError
  data_archive = create_data_archive sink pieces disk world.create_data p orders.files

  -- When `Build` returns no error, the specification is valid with a version, both archives were made
  -- without an error, and the package has the three members debian-binary, control.tar.gz and
  -- data.tar.gz in this order: the text 2.0 with a newline, and what is stored of the control archive
  -- and of the data archive.
  pub build-member :
      (members : List Member)
      → build world sink md5 pieces disk now orders p ≡ ok members
      → IsValid p true
        × (control_archive.1 ≡ none)
        × (data_archive.1 ≡ none)
        × ((control : Bytes) × (world.stored control_archive.0.out ≡ some control)
            × ((contents : Bytes) × (world.stored data_archive.0.out ≡ some contents)
                × (members
                    ≡ member (codes "debian-binary") (codes "2.0\n")
                      ∷ member (codes "control.tar.gz") control
                      ∷ member (codes "data.tar.gz") contents
                      ∷ [])))
  unfolding build
  build-member members h =
      let (u1, v, h1) = >>=-eq-ok (no_failure invalid (validate p true)) _ h in
      let (u2, _, h2) = >>=-eq-ok (require world.temp_dir _) _ h1 in
      let (u3, _, h3) = >>=-eq-ok (require world.make_dir _) _ h2 in
      let (u4, _, h4) = >>=-eq-ok (require world.create _) _ h3 in
      let (ms1, m1, h5) =
        >>=-eq-ok (write_bytes_to_ar world (codes "debian-binary") (codes "2.0\n") []) _ h4 in
      let (u5, c, h6) = >>=-eq-ok (no_failure archive_failed control_archive.1) _ h5 in
      let (ms2, m2, h7) =
        >>=-eq-ok (write_file_to_ar world (codes "control.tar.gz") control_archive.0.out ms1) _
          h6 in
      let (u6, d, h8) = >>=-eq-ok (no_failure archive_failed data_archive.1) _ h7 in
      let (ms3, m3, h9) =
        >>=-eq-ok (write_file_to_ar world (codes "data.tar.gz") data_archive.0.out ms2) _ h8 in
      let (u7, _, h10) = >>=-eq-ok (require world.closes _) _ h9 in
      let e1 = write_bytes_to_ar_lem world (codes "debian-binary") (codes "2.0\n") [] ms1 m1 in
      let (control, s2, e2) =
        write_file_to_ar_lem world (codes "control.tar.gz") control_archive.0.out ms1 ms2 m2 in
      let (contents, s3, e3) =
        write_file_to_ar_lem world (codes "data.tar.gz") data_archive.0.out ms2 ms3 m3 in
      let e4 : ms3 ≡ members = ground arith in
      (
        (validate-IsValid p true).0 (no_failure_ok invalid (validate p true) u1 v),
        no_failure_ok archive_failed control_archive.1 u5 c,
        no_failure_ok archive_failed data_archive.1 u6 d,
        (control, s2, (contents, s3, sym e4 ∙ e3 ∙ append_two e1 e2)),
      )
