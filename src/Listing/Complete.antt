-- ===== src/Listing/Complete.antt =====
-- deb/package.go: `ListFiles` and an independent description of its result.
use mkdeb.Prelude.{
  ◌≡◌, refl, sym, ap, ◌∙◌, ◌↔◌, inl, inr, Bool, true, false, List, [], ◌∷◌, ◌++◌, Bytes, arith, ok,
  >>=-eq-ok, each, each-append,
}
use mkdeb.Spec.{PackageSpec}
use mkdeb.Spec.Strings.{Member, has_string_iff, Member-append}
use mkdeb.Disk.{Disk}
use mkdeb.Listing.{
  Listing, empty_listing, add_file, visit_step, auto_visits, list_all, list_files,
  duplicate_in_files, duplicate_in_auto_path,
}
use mkdeb.Listing.Loops.{
  Aligned, Fresh, picked, Passes, Adds, add_each→Adds, Adds→add_each, visit_each, visit_each-Passes,
}

-- No text stands in the list twice.
abbrev pub Distinct : List Bytes → Type 0
Distinct [] = Unit
Distinct (t ∷ ts) = ¬ Member t ts × Distinct ts

-- What a package holds: what the walk finds and does not pass over, and the keys of `Files`.
abbrev pub candidates : Disk → PackageSpec → List Bytes → Bool → List Bytes
candidates disk p keys include_dirs = picked include_dirs (auto_visits disk p) ++ keys

-- The files can be listed: the walk meets no error, each file has a target, and no two have one.
pub record IsListable (disk : Disk) (p : PackageSpec) (keys : List Bytes) (include_dirs : Bool)
    : Type 0 where
  pub walk_passes : Passes (auto_visits disk p)
  pub targets : List Bytes
  pub aligned : Aligned p (candidates disk p keys include_dirs) targets
  pub distinct : Distinct targets

not_true : (b : Bool) → ¬ (b ≡ true) → b ≡ false
not_true true h = absurd (h refl)
not_true false h = refl

Fresh→Distinct :
    (seen ts : List Bytes)
    → Fresh seen ts
    → Distinct ts × ((t : Bytes) → Member t ts → ¬ Member t seen)
Fresh→Distinct seen [] h = (tt, λ t m _. absurd m)
Fresh→Distinct seen (t ∷ ts) (k, h) =
    let (d, n) = Fresh→Distinct (seen ++ t ∷ []) ts h in
    (
      (λ m. n t m ((Member-append t seen (t ∷ [])).1 (inr (inl refl))), d),
      λ u m s. elim m [
        | inl e ↦ cc (k, (has_string_iff seen t).1 (rw e s))
        | inr m' ↦ n u m' ((Member-append u seen (t ∷ [])).1 (inl s))
      ],
    )

Distinct→Fresh :
    (seen ts : List Bytes)
    → Distinct ts
    → ((t : Bytes) → Member t ts → ¬ Member t seen)
    → Fresh seen ts
Distinct→Fresh seen [] d n = tt
Distinct→Fresh seen (t ∷ ts) (k, d) n = (
  not_true _ (λ q. n t (inl refl) ((has_string_iff seen t).0 q)),
  Distinct→Fresh (seen ++ t ∷ []) ts d λ u m s. elim ((Member-append u seen (t ∷ [])).0 s) [
    | inl a ↦ n u (inr m) a
    | inr (inl e) ↦ k (rw e m)
    | inr (inr b) ↦ absurd b
  ],
)

module _ (disk : Disk) (p : PackageSpec) (keys : List Bytes) (include_dirs : Bool) where
  list_all→Adds :
      (l : Listing)
      → list_all disk p keys include_dirs ≡ ok l
      → Passes (auto_visits disk p) × Adds p empty_listing (candidates disk p keys include_dirs) l
  unfolding list_all
  list_all→Adds l h =
      let vs = auto_visits disk p in
      let (m, hm, h') = >>=-eq-ok (each (visit_step p include_dirs) empty_listing vs) _ h in
      let ps = visit_each-Passes p include_dirs empty_listing m vs hm in
      let added =
        add_each→Adds duplicate_in_auto_path p empty_listing m (picked include_dirs vs)
          (sym (visit_each p include_dirs empty_listing vs ps) ∙ hm) in
      (
        ps,
        add_each→Adds duplicate_in_files p empty_listing l (picked include_dirs vs ++ keys) (
            each-append (add_file duplicate_in_files p) empty_listing (picked include_dirs vs) keys
            ∙ rw (Adds→add_each duplicate_in_files p empty_listing m (picked include_dirs vs) added)
                h'),
      )

  Adds→list_all :
      (l : Listing)
      → Passes (auto_visits disk p)
      → Adds p empty_listing (candidates disk p keys include_dirs) l
      → list_all disk p keys include_dirs ≡ ok l
  unfolding list_all
  Adds→list_all l ps added =
      let vs = auto_visits disk p in
      let run =
        sym
          (each-append (add_file duplicate_in_files p) empty_listing (picked include_dirs vs) keys)
        ∙ Adds→add_each duplicate_in_files p empty_listing l (picked include_dirs vs ++ keys)
            added in
      let (m, hm, h') =
        >>=-eq-ok (each (add_file duplicate_in_files p) empty_listing (picked include_dirs vs)) _
          run in
      rw
        (
          visit_each p include_dirs empty_listing vs ps,
          Adds→add_each duplicate_in_auto_path p empty_listing m (picked include_dirs vs)
              (add_each→Adds duplicate_in_files p empty_listing m (picked include_dirs vs) hm),
        )
        h'

  list_files→IsListable :
      (fs : List Bytes)
      → list_files disk p keys include_dirs ≡ ok fs
      → (fs ≡ candidates disk p keys include_dirs) × IsListable disk p keys include_dirs
  unfolding list_files
  list_files→IsListable fs h =
      let (l, hl, h') = >>=-eq-ok (list_all disk p keys include_dirs) _ h in
      let (ps, (ts, e, a, fr)) = list_all→Adds l hl in
      let el : l.files ≡ fs = ground arith in
      (
        sym el ∙ ap (λ (x : Listing). x.files) e,
        record {
          walk_passes = ps;
          targets = ts;
          aligned = a;
          distinct = (Fresh→Distinct [] ts fr).0;
        },
      )

  IsListable→list_files :
      IsListable disk p keys include_dirs
      → list_files disk p keys include_dirs ≡ ok (candidates disk p keys include_dirs)
  unfolding list_files
  IsListable→list_files v =
      let l : Listing = record {
        files = candidates disk p keys include_dirs;
        targets = v.targets;
      } in
      rw (
        Adds→list_all l v.walk_passes
          (v.targets, refl, v.aligned, Distinct→Fresh [] v.targets v.distinct (λ t _ m. absurd m)))

  -- `ListFiles` answers `fs` exactly if `fs` is what the walk finds and does not pass over, in the
  -- order of the walk, followed by the keys of `Files` in the order of the range, and the walk meets
  -- no error, each of these files has a target in the archive, and no two have the same target.
  pub list_files-IsListable :
      (fs : List Bytes)
      → (list_files disk p keys include_dirs ≡ ok fs)
        ↔ ((fs ≡ candidates disk p keys include_dirs) × IsListable disk p keys include_dirs)
  list_files-IsListable fs =
      (list_files→IsListable fs, λ (e, v). IsListable→list_files v ∙ ap ok (sym e))
