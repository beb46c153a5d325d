-- ===== src/Listing/Names.antt =====
-- deb/package.go: the names that `NormalizeFilename` gives to files in the archive.
use mkdeb.Prelude.{
  ◌≡◌, ◌≢◌, sym, ◌∙◌, inl, inr, Bool, true, false, List, [], ◌∷◌, ◌++◌, Option, none, some, Bytes,
  codes, bytes_eq_iff, arith, join, All, Bool-cases, ok,
}
use mkdeb.Spec.{PackageSpec}
use mkdeb.FilePath.{dot, is_rooted, render, clean, path_join, rel}
use mkdeb.FilePath.Clean.{IsPlain, clean-clean, is_rooted-clean, path_join-dot}
use mkdeb.FilePath.Rel.{rel_below, render-ne-nil}
use mkdeb.Listing.{lookup_file, auto_path_on, normalize_filename, normalize_by, join_rel}

-- A clean path that does not start at the root.
abbrev pub IsArchiveName : Bytes → Type 0
IsArchiveName t = (clean t ≡ t) × (is_rooted t ≡ false)

path_join-dot-IsArchiveName : (s : Bytes) → IsArchiveName (path_join (dot ∷ s ∷ []))
unfolding path_join
path_join-dot-IsArchiveName s = (
  clean-clean (join (dot ∷ s ∷ []) (codes "/")),
  is_rooted-clean (join (dot ∷ s ∷ []) (codes "/")),
)

join_rel-IsArchiveName :
    (f : Bytes) (r : Option Bytes) (t : Bytes) → join_rel f r ≡ ok t → IsArchiveName t
unfolding join_rel
join_rel-IsArchiveName f none t h = cc
join_rel-IsArchiveName f (some s) t h =
    let e : path_join (dot ∷ s ∷ []) ≡ t = ground arith in rw (← e) (path_join-dot-IsArchiveName s)

normalize_by-IsArchiveName :
    (p : PackageSpec) (f : Bytes) (o : Option Bytes) (t : Bytes)
    → normalize_by p f o ≡ ok t
    → IsArchiveName t
unfolding normalize_by
normalize_by-IsArchiveName p f (some s) t h =
    unfold join_rel in join_rel-IsArchiveName f (some s) t h
normalize_by-IsArchiveName p f none t h = elim (Bool-cases (auto_path_on p)) [
  | inl k ↦ join_rel-IsArchiveName f (rel p.auto_path f) t (rw k at h)
  | inr k ↦ cc (rw k at h)
]

-- Every name that `NormalizeFilename` answers is a clean path and does not start with a slash,
-- whether it comes from `Files` or from AutoPath.
pub normalize_filename-IsArchiveName :
    (p : PackageSpec) (f t : Bytes) → normalize_filename p f ≡ ok t → IsArchiveName t
unfolding normalize_filename
normalize_filename-IsArchiveName p f t h =
    normalize_by-IsArchiveName p f (lookup_file p.files f) t h

-- A file that `Files` maps to a path of names, rooted or not, goes to that path without the root.
pub normalize_filename_mapped :
    (p : PackageSpec) (f : Bytes) (rooted : Bool) (es : List Bytes)
    → All IsPlain es
    → lookup_file p.files f ≡ some (render rooted es)
    → normalize_filename p f ≡ ok (render false es)
unfolding normalize_filename
normalize_filename_mapped p f rooted es h e = rw (e, path_join-dot rooted es h)

auto_path_on_render :
    (p : PackageSpec) → p.auto_path ≢ [] → p.auto_path ≢ codes "-" → auto_path_on p ≡ true
auto_path_on_render p n m =
    ground (arith, bytes_eq_iff p.auto_path [], bytes_eq_iff p.auto_path (codes "-"))

-- A file below AutoPath that `Files` does not name goes to its path below AutoPath. AutoPath is a
-- path of names, rooted or not, and not the dash.
pub normalize_filename_below :
    (p : PackageSpec) (rooted : Bool) (a : Bytes) (as' : List Bytes) (b : Bytes) (bs : List Bytes)
    → All IsPlain (a ∷ as')
    → All IsPlain (b ∷ bs)
    → p.auto_path ≡ render rooted (a ∷ as')
    → p.auto_path ≢ codes "-"
    → lookup_file p.files (render rooted (a ∷ (as' ++ b ∷ bs))) ≡ none
    → normalize_filename p (render rooted (a ∷ (as' ++ b ∷ bs))) ≡ ok (join (b ∷ bs) (codes "/"))
unfolding normalize_filename
normalize_filename_below p rooted a as' b bs ha hb e m l = rw (
  l,
  auto_path_on_render p (λ q. render-ne-nil rooted a as' ha.0 (sym e ∙ q)) m,
  e,
  rel_below rooted a as' b bs ha hb,
  path_join-dot false (b ∷ bs) hb,
)
