-- ===== src/Listing/Scripts.antt =====
-- deb/package.go: `MapControlFiles` and the path under each of the four names.
use mkdeb.Prelude.{
  false, ◌&&◌, ◌≡◌, refl, sym, ap, append-nil, ◌∙◌, List, [], ◌∷◌, ◌++◌, Option, none, some, Bytes,
  codes, bytes_eq, if◌then◌else◌, Bool-cases, inl, inr, bytes_eq_refl,
}
use mkdeb.Spec.{PackageSpec}
use mkdeb.FilePath.{path_join}
use mkdeb.Disk.{Disk, file_exists}
use mkdeb.Listing.{lookup_file, auto_path_on, control_script, map_control_files}

-- The script for a name: the field if it is set, or the file of that name below AutoPath if AutoPath
-- is on and the file exists.
abbrev pub chosen_script : Disk → PackageSpec → Bytes → Bytes → Option Bytes
chosen_script disk p field name =
    if bytes_eq field []
    then (if auto_path_on p && file_exists disk (path_join (p.auto_path ∷ name ∷ []))
        then some (path_join (p.auto_path ∷ name ∷ []))
        else none)
    else some field

abbrev first_of : Option Bytes → Option Bytes → Option Bytes
first_of none rest = rest
first_of (some s) rest = some s

lookup-control_script :
    (disk : Disk) (p : PackageSpec) (field name : Bytes) (rest : List (Bytes × Bytes))
    → lookup_file (control_script disk p field name ++ rest) name
      ≡ first_of (chosen_script disk p field name) (lookup_file rest name)
unfolding lookup_file
lookup-control_script disk p (c ∷ s) name rest = rw (bytes_eq_refl name)
lookup-control_script disk p [] name rest =
    elim (Bool-cases (auto_path_on p && file_exists disk (path_join (p.auto_path ∷ name ∷ [])))) [
      | inl e ↦ rw (e, bytes_eq_refl name)
      | inr e ↦ rw e
    ]

lookup-control_script_other :
    (disk : Disk) (p : PackageSpec) (field name key : Bytes) (rest : List (Bytes × Bytes))
    → bytes_eq name key ≡ false
    → lookup_file (control_script disk p field name ++ rest) key ≡ lookup_file rest key
unfolding lookup_file
lookup-control_script_other disk p (c ∷ s) name key rest k = rw k
lookup-control_script_other disk p [] name key rest k =
    elim (Bool-cases (auto_path_on p && file_exists disk (path_join (p.auto_path ∷ name ∷ [])))) [
      | inl e ↦ rw (e, k)
      | inr e ↦ rw e
    ]

first_of-none : (o : Option Bytes) → first_of o none ≡ o
first_of-none none = refl
first_of-none (some s) = refl

-- A name whose script stands last.
lookup_last :
    (disk : Disk) (p : PackageSpec) (field name : Bytes)
    → lookup_file (control_script disk p field name) name ≡ chosen_script disk p field name
unfolding lookup_file
lookup_last disk p field name =
    ap (λ (l : List (Bytes × Bytes)). lookup_file l name)
      (sym (append-nil (control_script disk p field name)))
    ∙ lookup-control_script disk p field name []
    ∙ first_of-none (chosen_script disk p field name)

lookup_last_other :
    (disk : Disk) (p : PackageSpec) (field name key : Bytes)
    → bytes_eq name key ≡ false
    → lookup_file (control_script disk p field name) key ≡ none
unfolding lookup_file
lookup_last_other disk p field name key k =
    ap (λ (l : List (Bytes × Bytes)). lookup_file l key)
      (sym (append-nil (control_script disk p field name)))
    ∙ lookup-control_script_other disk p field name key [] k

-- Each of the four control scripts is the path of its field, if that is set. If it is not, it is the
-- file of its name below AutoPath, if AutoPath is on and that file exists, and else there is none.
pub lookup_file-map_control_files :
    (disk : Disk) (p : PackageSpec)
    → (lookup_file (map_control_files disk p) (codes "preinst")
        ≡ chosen_script disk p p.preinst (codes "preinst"))
      × (lookup_file (map_control_files disk p) (codes "postinst")
          ≡ chosen_script disk p p.postinst (codes "postinst"))
      × (lookup_file (map_control_files disk p) (codes "prerm")
          ≡ chosen_script disk p p.prerm (codes "prerm"))
      × (lookup_file (map_control_files disk p) (codes "postrm")
          ≡ chosen_script disk p p.postrm (codes "postrm"))
unfolding map_control_files
lookup_file-map_control_files disk p =
    let own = lookup-control_script disk p in
    let other = lookup-control_script_other disk p in
    let last_other = lookup_last_other disk p in
    let r4 = control_script disk p p.postrm (codes "postrm") in
    let r3 = control_script disk p p.prerm (codes "prerm") ++ r4 in
    let r2 = control_script disk p p.postinst (codes "postinst") ++ r3 in
    (
      own p.preinst (codes "preinst") r2
          ∙ ap (first_of (chosen_script disk p p.preinst (codes "preinst"))) (
              other p.postinst (codes "postinst") (codes "preinst") r3 refl
              ∙ other p.prerm (codes "prerm") (codes "preinst") r4 refl
              ∙ last_other p.postrm (codes "postrm") (codes "preinst") refl)
          ∙ first_of-none (chosen_script disk p p.preinst (codes "preinst")),
      other p.preinst (codes "preinst") (codes "postinst") r2 refl
          ∙ own p.postinst (codes "postinst") r3
          ∙ ap (first_of (chosen_script disk p p.postinst (codes "postinst"))) (
              other p.prerm (codes "prerm") (codes "postinst") r4 refl
              ∙ last_other p.postrm (codes "postrm") (codes "postinst") refl)
          ∙ first_of-none (chosen_script disk p p.postinst (codes "postinst")),
      other p.preinst (codes "preinst") (codes "prerm") r2 refl
          ∙ other p.postinst (codes "postinst") (codes "prerm") r3 refl
          ∙ own p.prerm (codes "prerm") r4
          ∙ ap (first_of (chosen_script disk p p.prerm (codes "prerm")))
              (last_other p.postrm (codes "postrm") (codes "prerm") refl)
          ∙ first_of-none (chosen_script disk p p.prerm (codes "prerm")),
      other p.preinst (codes "preinst") (codes "postrm") r2 refl
          ∙ other p.postinst (codes "postinst") (codes "postrm") r3 refl
          ∙ other p.prerm (codes "prerm") (codes "postrm") r4 refl
          ∙ lookup_last disk p p.postrm (codes "postrm"),
    )
