-- ===== src/Listing/Loops.antt =====
-- deb/package.go: the two loops of `ListFiles`.
use mathlib.Core.Path.{subst}
use mkdeb.Prelude.{
  ◌≡◌, refl, sym, ap, ◌∙◌, inl, inr, Bool, false, List, [], ◌∷◌, ◌++◌, append-nil, append_assoc,
  Bytes, arith, All, if◌then◌else◌, Bool-cases, ok, >>=-eq-ok, >>=-cong, each,
}
use mkdeb.Spec.{PackageSpec, has_string}
use mkdeb.Disk.{Visit}
use mkdeb.Listing.{
  ListError, Listing, normalize_filename, add_file, is_skipped, visit_step, duplicate_in_auto_path,
}

-- Each file has the target that stands at its place.
abbrev pub Aligned : PackageSpec → List Bytes → List Bytes → Type 0
Aligned p [] [] = Unit
Aligned p [] (t ∷ ts) = ⊥
Aligned p (f ∷ fs) [] = ⊥
Aligned p (f ∷ fs) (t ∷ ts) = (normalize_filename p f ≡ ok t) × Aligned p fs ts

-- No text of the second list stands before it, in the second list or in the first.
abbrev pub Fresh : List Bytes → List Bytes → Type 0
Fresh seen [] = Unit
Fresh seen (t ∷ ts) = (has_string seen t ≡ false) × Fresh (seen ++ t ∷ []) ts

-- The paths that the walk does not pass over.
pub picked : Bool → List Visit → List Bytes
picked include_dirs [] = []
picked include_dirs (v ∷ vs) =
    let rest = picked include_dirs vs in if is_skipped include_dirs v then rest else v.path ∷ rest

abbrev pub Passes : List Visit → Type 0
Passes = All (λ v. v.failed ≡ false)

-- What a loop has done when it ends well: `fs` joined the files, and their targets are new.
abbrev pub Adds : PackageSpec → Listing → List Bytes → Listing → Type 0
Adds p l fs l' =
    (ts : List Bytes) × (l' ≡ record { files = l.files ++ fs; targets = l.targets ++ ts })
    × Aligned p fs ts
    × Fresh l.targets ts

listing_nil : (l : Listing) → record { files = l.files ++ []; targets = l.targets ++ [] } ≡ l
listing_nil l = λ i. record { files = append-nil l.files i; targets = append-nil l.targets i }

listing_cons :
    (l : Listing) (f t : Bytes) (fs ts : List Bytes)
    → ◌≡◌ {A = Listing}
        (record { files = l.files ++ f ∷ fs; targets = l.targets ++ t ∷ ts })
        (record { files = (l.files ++ f ∷ []) ++ fs; targets = (l.targets ++ t ∷ []) ++ ts })
listing_cons l f t fs ts = λ i. record {
  files = sym (append_assoc l.files (f ∷ []) fs) i;
  targets = sym (append_assoc l.targets (t ∷ []) ts) i;
}

Adds-nil : (p : PackageSpec) (l l' : Listing) → l ≡ l' → Adds p l [] l'
Adds-nil p l l' e = ([], sym e ∙ sym (listing_nil l), tt, tt)

Adds-cons :
    (p : PackageSpec) (l l' : Listing) (f t : Bytes) (fs : List Bytes)
    → normalize_filename p f ≡ ok t
    → has_string l.targets t ≡ false
    → Adds p (record { files = l.files ++ f ∷ []; targets = l.targets ++ t ∷ [] }) fs l'
    → Adds p l (f ∷ fs) l'
Adds-cons p l l' f t fs e k (ts, e', a, fr) =
    (t ∷ ts, e' ∙ sym (listing_cons l f t fs ts), (e, a), (k, fr))

module _ (duplicate : Bytes → ListError) (p : PackageSpec) where
  add_file_inv :
      (l l' : Listing) (f : Bytes)
      → add_file duplicate p l f ≡ ok l'
      → (t : Bytes) × (normalize_filename p f ≡ ok t)
        × (has_string l.targets t ≡ false)
        × (l' ≡ record { files = l.files ++ f ∷ []; targets = l.targets ++ t ∷ [] })
  unfolding add_file
  add_file_inv l l' f h =
      let (t, e, h') = >>=-eq-ok (normalize_filename p f) _ h in
      elim (Bool-cases (has_string l.targets t)) [
        | inl k ↦ cc (rw k at h')
        | inr k ↦ (t, e, k, ground arith)
      ]

  add_file_intro :
      (l : Listing) (f t : Bytes)
      → normalize_filename p f ≡ ok t
      → has_string l.targets t ≡ false
      → add_file duplicate p l f
        ≡ ok (record { files = l.files ++ f ∷ []; targets = l.targets ++ t ∷ [] })
  unfolding add_file
  add_file_intro l f t e k = rw (e, k)

  pub add_each→Adds :
      (l l' : Listing) (fs : List Bytes) → each (add_file duplicate p) l fs ≡ ok l' → Adds p l fs l'
  add_each→Adds l l' [] h = Adds-nil p l l' (ground arith)
  add_each→Adds l l' (f ∷ fs) h =
      let (m, hm, h') = >>=-eq-ok (add_file duplicate p l f) _ h in
      let (t, e, k, em) = add_file_inv l m f hm in
      Adds-cons p l l' f t fs e k
        (subst (λ (n : Listing). Adds p n fs l') em (add_each→Adds m l' fs h'))

  pub Adds→add_each :
      (l l' : Listing) (fs : List Bytes) → Adds p l fs l' → each (add_file duplicate p) l fs ≡ ok l'
  Adds→add_each l l' [] ([], e, a, fr) = ap ok (sym (e ∙ listing_nil l))
  Adds→add_each l l' [] (t ∷ ts, e, a, fr) = absurd a
  Adds→add_each l l' (f ∷ fs) ([], e, a, fr) = absurd a
  Adds→add_each l l' (f ∷ fs) (t ∷ ts, e, (a, as'), (k, fr)) =
      rw (add_file_intro l f t a k)
        (Adds→add_each _ l' fs (ts, e ∙ listing_cons l f t fs ts, as', fr))

-- The walk adds what it does not pass over, and stops at a failure.
module _ (p : PackageSpec) (include_dirs : Bool) where
  visit_inv :
      (l l' : Listing) (v : Visit)
      → visit_step p include_dirs l v ≡ ok l'
      → (v.failed ≡ false)
        × ((if is_skipped include_dirs v then ok l else add_file duplicate_in_auto_path p l v.path)
            ≡ ok l')
  unfolding visit_step
  visit_inv l l' v h = elim (Bool-cases v.failed) [
    | inl k ↦ cc (rw k at h)
    | inr k ↦ (k, rw k at h)
  ]

  pub visit_each :
      (l : Listing) (vs : List Visit)
      → Passes vs
      → each (visit_step p include_dirs) l vs
        ≡ each (add_file duplicate_in_auto_path p) l (picked include_dirs vs)
  unfolding visit_step picked
  visit_each l [] h = refl
  visit_each l (v ∷ vs) (k, h) = elim (Bool-cases (is_skipped include_dirs v)) [
    | inl s ↦ rw (k, s) (visit_each l vs h)
    | inr s ↦
        rw (k, s)
          (>>=-cong (add_file duplicate_in_auto_path p l v.path) _ _ (λ m. visit_each m vs h))
  ]

  pub visit_each-Passes :
      (l l' : Listing) (vs : List Visit) → each (visit_step p include_dirs) l vs ≡ ok l' → Passes vs
  visit_each-Passes l l' [] h = tt
  visit_each-Passes l l' (v ∷ vs) h =
      let (m, hm, h') = >>=-eq-ok (visit_step p include_dirs l v) _ h in
      ((visit_inv l m v hm).0, visit_each-Passes m l' vs h')
