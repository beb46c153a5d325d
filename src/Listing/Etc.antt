-- ===== src/Listing/Etc.antt =====
-- deb/package.go: `ListEtcFiles`.
use mathlib.Core.Path.{subst}
use mkdeb.Prelude.{
  ◌≡◌, ◌≢◌, refl, sym, ap, ◌∙◌, ◌↔◌, inl, inr, true, false, List, [], ◌∷◌, ◌++◌, append-nil,
  append_assoc, Bytes, codes, has_prefix, has_prefix→append, has_prefix-append, arith, Bool-cases,
  if◌then◌else◌, if_false, ok, >>=-eq-ok, each,
}
use mkdeb.Spec.{PackageSpec}
use mkdeb.Disk.{Disk}
use mkdeb.Listing.{list_files, etc_step, list_etc_files}
use mkdeb.Listing.Loops.{Aligned}
use mkdeb.Listing.Complete.{IsListable, candidates, list_files-IsListable}

-- The conffiles of archive names: in their order, those that begin with the letters `etc`, each
-- behind a slash.
pub data IsConffiles : List Bytes → List Bytes → Type 0 where
  no_names : IsConffiles [] []
  listed :
      {ts es : List Bytes} (t r e : Bytes)
      → t ≡ codes "etc" ++ r
      → e ≡ codes "/etc" ++ r
      → IsConffiles ts es
      → IsConffiles (t ∷ ts) (e ∷ es)
  passed_over :
      {ts es : List Bytes} (t : Bytes)
      → ((r : Bytes) → t ≢ codes "etc" ++ r)
      → IsConffiles ts es
      → IsConffiles (t ∷ ts) es

-- The conffiles as the loop collects them.
etc_of : List Bytes → List Bytes
etc_of [] = []
etc_of (t ∷ ts) =
    let rest = etc_of ts in if has_prefix (codes "etc") t then (codes "/" ++ t) ∷ rest else rest

etc_each :
    (p : PackageSpec) (acc fs ts : List Bytes)
    → Aligned p fs ts
    → each (etc_step p) acc fs ≡ ok (acc ++ etc_of ts)
unfolding etc_step etc_of
etc_each p acc [] [] a = rw append-nil
etc_each p acc [] (t ∷ ts) a = absurd a
etc_each p acc (f ∷ fs) [] a = absurd a
etc_each p acc (f ∷ fs) (t ∷ ts) (e, a) = elim (Bool-cases (has_prefix (codes "etc") t)) [
  | inl k ↦ rw (e, k) (etc_each p _ fs ts a ∙ ap ok (append_assoc acc ((codes "/" ++ t) ∷ []) _))
  | inr k ↦ rw (e, k) (etc_each p acc fs ts a)
]

etc_of-IsConffiles : (ts : List Bytes) → IsConffiles ts (etc_of ts)
unfolding etc_of
etc_of-IsConffiles [] = no_names
etc_of-IsConffiles (t ∷ ts) = elim (Bool-cases (has_prefix (codes "etc") t)) [
  | inl k ↦
      let (r, e) = has_prefix→append (codes "etc") t k in
      rw k (
        listed t r (codes "/" ++ t) e (ap (λ (x : Bytes). codes "/" ++ x) e)
          (etc_of-IsConffiles ts))
  | inr k ↦
      let over : (r : Bytes) → t ≢ codes "etc" ++ r = λ r e.
        let y : has_prefix (codes "etc") t ≡ true =
          ap (has_prefix (codes "etc")) e ∙ has_prefix-append (codes "etc") r in
        cc in
      rw k (passed_over t over (etc_of-IsConffiles ts))
]

IsConffiles-etc_of : {ts es : List Bytes} → IsConffiles ts es → es ≡ etc_of ts
unfolding etc_of
IsConffiles-etc_of no_names = refl
IsConffiles-etc_of (listed {ts} t r e a b c) =
    let k : has_prefix (codes "etc") t ≡ true =
      ap (has_prefix (codes "etc")) a ∙ has_prefix-append (codes "etc") r in
    let q : e ≡ codes "/" ++ t = b ∙ ap (λ (x : Bytes). codes "/" ++ x) (sym a) in
    rw k (rw (q, IsConffiles-etc_of c) refl)
IsConffiles-etc_of (passed_over {ts} t n c) = elim (Bool-cases (has_prefix (codes "etc") t)) [
  | inl k ↦ let (r, e) = has_prefix→append (codes "etc") t k in absurd (n r e)
  | inr k ↦ rw k (IsConffiles-etc_of c)
]

module _ (disk : Disk) (p : PackageSpec) (keys : List Bytes) where
  -- The run of `ListEtcFiles` on the files that `ListFiles` lists.
  list_etc_files-etc_of :
      (v : IsListable disk p keys false)
      → p.upgrade_configs ≡ false
      → list_etc_files disk p keys ≡ ok (etc_of v.targets)
  unfolding list_etc_files
  list_etc_files-etc_of v u =
      let fs = candidates disk p keys false in
      let l = (list_files-IsListable disk p keys false fs).1 (refl, v) in
      if_false p.upgrade_configs _ _ u ∙ rw l (etc_each p [] fs v.targets v.aligned)

  list_etc_files→IsListable :
      (es : List Bytes)
      → p.upgrade_configs ≡ false
      → list_etc_files disk p keys ≡ ok es
      → IsListable disk p keys false
  unfolding list_etc_files
  list_etc_files→IsListable es u h =
      let (fs, hf, h') =
        >>=-eq-ok (list_files disk p keys false) _ (sym (if_false p.upgrade_configs _ _ u) ∙ h) in
      ((list_files-IsListable disk p keys false fs).0 hf).1

  -- Without UpgradeConfigs `ListEtcFiles` answers a list exactly if `ListFiles` lists the files, and
  -- the list then holds, in the order of the files, `/t` for each archive name `t` that begins with
  -- the three letters `etc`, and nothing else.
  pub list_etc_files-IsConffiles :
      (es : List Bytes)
      → p.upgrade_configs ≡ false
      → (list_etc_files disk p keys ≡ ok es)
        ↔ ((v : IsListable disk p keys false) × IsConffiles v.targets es)
  list_etc_files-IsConffiles es u = (
    λ h.
        let v = list_etc_files→IsListable es u h in
        let e : etc_of v.targets ≡ es =
          let k = sym (list_etc_files-etc_of v u) ∙ h in ground arith in
        (v, subst (IsConffiles v.targets) e (etc_of-IsConffiles v.targets)),
    λ (v, c). list_etc_files-etc_of v u ∙ ap ok (sym (IsConffiles-etc_of c)),
  )
