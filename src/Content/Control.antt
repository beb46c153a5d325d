-- ===== src/Content/Control.antt =====
-- deb/package.go: `RenderControlFile`, and a reader of control files.
use mkdeb.Prelude.{
  ℕ, ◌≡◌, false, List, [], ◌∷◌, ◌++◌, Option, none, some, Bytes, codes, has_byte, Lacks, ◌==◌,
  if◌then◌else◌, text_lines, format_uint,
}
use mkdeb.Spec.{PackageSpec, join_commas}

-- The fields that the control file of a package has, in order.
abbrev optional : Bytes → List Bytes → List (Bytes × Bytes)
optional key [] = []
optional key (d ∷ ds) = (key, join_commas (d ∷ ds)) ∷ []

abbrev pub control_fields : PackageSpec → List (Bytes × Bytes)
control_fields p =
    (codes "Package", p.package_name)
    ∷ (codes "Version", p.version)
    ∷ (codes "Architecture", p.architecture)
    ∷ (codes "Maintainer", p.maintainer)
    ∷ (codes "Installed-Size", format_uint 10 p.installed_size)
    ∷ (optional (codes "Pre-Depends") p.pre_depends
        ++ (optional (codes "Depends") p.depends
            ++ (optional (codes "Conflicts") p.conflicts
                ++ (optional (codes "Breaks") p.breaks
                    ++ (optional (codes "Replaces") p.replaces
                        ++ (codes "Section", p.section)
                          ∷ (codes "Priority", p.priority)
                          ∷ (codes "Homepage", p.homepage)
                          ∷ (codes "Description", p.description)
                          ∷ [])))))

-- A reader of control files: on each line a name, a colon, a space and a value.
abbrev onto_key : ℕ → Option (Bytes × Bytes) → Option (Bytes × Bytes)
onto_key c none = none
onto_key c (some (k, v)) = some (c ∷ k, v)

pub read_field : Bytes → Option (Bytes × Bytes)
read_field [] = none
read_field (c ∷ []) = none
read_field (c ∷ d ∷ s) =
    let rest = onto_key c (read_field (d ∷ s)) in
    if c == b':' then (if d == b' ' then some ([], s) else none) else rest

abbrev cons_field :
    Option (Bytes × Bytes) → Option (List (Bytes × Bytes)) → Option (List (Bytes × Bytes))
cons_field (some e) (some es) = some (e ∷ es)
cons_field _ _ = none

read_fields : List Bytes → Option (List (Bytes × Bytes))
unfolding read_field
read_fields [] = some []
read_fields (l ∷ ls) = cons_field (read_field l) (read_fields ls)

pub read_control : Bytes → Option (List (Bytes × Bytes))
unfolding read_fields text_lines
read_control text = read_fields (text_lines text)

abbrev field_line : Bytes × Bytes → Bytes
field_line (k, v) = k ++ (codes ": " ++ v)

-- Lines behind a first one, each behind a newline, and a newline at the end.
abbrev tail_lines : List (Bytes × Bytes) → Bytes
tail_lines [] = b'\n' ∷ []
tail_lines (f ∷ fs) = b'\n' ∷ (field_line f ++ tail_lines fs)

IsKey : Bytes × Bytes → Type 0
IsKey e = (has_byte b':' e.0 ≡ false) × Lacks b'\n' e.0
