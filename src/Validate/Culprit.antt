-- ===== src/Validate/Culprit.antt =====
-- deb/package.go: the errors of `Validate`.
use mkdeb.Prelude.{
  ◌≡◌, refl, ap, ◌↔◌, ◌⊎◌, inl, inr, ◌≢◌, Bool, true, false, List, [], ◌∷◌, ◌++◌, Option, none,
  some, Bytes, codes, arith, All, Bool-cases,
}
use mathlib.Core.Path.{subst}
use mkdeb.Regex.{Regex, match_string}
use mkdeb.Spec.{PackageSpec, has_string, supported_architectures}
use mkdeb.Spec.Strings.{Member, Member-append, has_string_iff}
use mkdeb.Validate.{
  ValidateError, missing_fields, bad_architecture, bad_dependency, bad_pre_dependency,
  bad_replacement, bad_conflict, bad_break, re_depends, re_replaces_etc, add_missing, missing_of,
  first_bad, ◌or_else◌, check_missing, check_architecture, validate,
}
use mkdeb.Validate.Relation.{
  IsRelation, DependsOp, ReplacesOp, re_depends-IsRelation, re_replaces_etc-IsRelation,
}

-- `d` is the first entry that does not satisfy `P`.
abbrev pub IsFirstBad : (Bytes → Type 0) → Bytes → List Bytes → Type 0
IsFirstBad P d xs =
    (front : List Bytes) × (back : List Bytes) × (xs ≡ front ++ d ∷ back) × All P front × ¬ P d

-- A required field that is empty, by the name that the message lists.
abbrev pub IsMissing : PackageSpec → Bool → Bytes → Type 0
IsMissing p b f =
    ((p.package_name ≡ []) × (codes "package" ≡ f))
    ⊎ (((b ≡ true) × (p.version ≡ []) × (codes "version" ≡ f))
        ⊎ (((p.architecture ≡ []) × (codes "architecture" ≡ f))
            ⊎ (((p.maintainer ≡ []) × (codes "maintainer" ≡ f))
                ⊎ ((p.description ≡ []) × (codes "description" ≡ f)))))

-- What each error stands for.
abbrev pub Explains : PackageSpec → Bool → ValidateError → Type 0
Explains p b (missing_fields fs) = (fs ≢ []) × ((f : Bytes) → Member f fs ↔ IsMissing p b f)
Explains p b (bad_architecture a) = (a ≡ p.architecture) × ¬ Member a supported_architectures
Explains p b (bad_dependency d) = IsFirstBad (IsRelation DependsOp) d p.depends
Explains p b (bad_pre_dependency d) = IsFirstBad (IsRelation DependsOp) d p.pre_depends
Explains p b (bad_replacement d) = IsFirstBad (IsRelation ReplacesOp) d p.replaces
Explains p b (bad_conflict d) = IsFirstBad (IsRelation ReplacesOp) d p.conflicts
Explains p b (bad_break d) = IsFirstBad (IsRelation ReplacesOp) d p.breaks

or_else_some :
    (a b : Option ValidateError) (e : ValidateError)
    → (a or_else b) ≡ some e
    → (a ≡ some e) ⊎ (b ≡ some e)
or_else_some none b e h = inr h
or_else_some (some e') b e h = inl h

module _ (re : Regex) (report : Bytes → ValidateError) (P : Bytes → Type 0)
    (re_iff : (s : Bytes) → (match_string re s ≡ true) ↔ P s) where
  first_bad_culprit :
      (xs : List Bytes) (e : ValidateError)
      → first_bad re report xs ≡ some e
      → (d : Bytes) × (report d ≡ e) × IsFirstBad P d xs
  unfolding first_bad
  first_bad_culprit [] e h = cc
  first_bad_culprit (x ∷ xs) e h = elim (Bool-cases (match_string re x)) [
    | inl m ↦
        let (d, ed, (front, back, ex, hf, hd)) = first_bad_culprit xs e (rw m at h) in
        (d, ed, (x ∷ front, back, ap (λ (l : List Bytes). x ∷ l) ex, ((re_iff x).0 m, hf), hd))
    | inr m ↦
        let er : report x ≡ e = ground arith in
        (x, er, ([], xs, refl, tt, λ px. cc (m, (re_iff x).1 px)))
  ]

Member-add_missing :
    (wanted : Bool) (s name f : Bytes) (m : List Bytes)
    → Member f (add_missing wanted s name m)
      ↔ (Member f m ⊎ ((wanted ≡ true) × (s ≡ []) × (name ≡ f)))
Member-add_missing wanted (c ∷ s) name f m = (λ h. inl h, elim [ inl h ↦ h | inr (_, e, _) ↦ cc ])
Member-add_missing true [] name f m = (
  λ h. elim ((Member-append f m (name ∷ [])).0 h) [
    | inl a ↦ inl a
    | inr (inl e) ↦ inr (refl, refl, e)
    | inr (inr e) ↦ absurd e
  ],
  elim [
    | inl a ↦ (Member-append f m (name ∷ [])).1 (inl a)
    | inr (_, _, e) ↦ (Member-append f m (name ∷ [])).1 (inr (inl e))
  ],
)
Member-add_missing false [] name f m = (λ h. inl h, elim [ inl h ↦ h | inr (e, _, _) ↦ cc ])

missing_of-IsMissing :
    (p : PackageSpec) (b : Bool) (f : Bytes) → Member f (missing_of p b) ↔ IsMissing p b f
unfolding missing_of
missing_of-IsMissing p b f = (to, from)
  where
    step :
        (wanted : Bool) (s name : Bytes) (m : List Bytes)
        → Member f (add_missing wanted s name m)
          ↔ (Member f m ⊎ ((wanted ≡ true) × (s ≡ []) × (name ≡ f)))
    step wanted s name m = Member-add_missing wanted s name f m

    to : Member f (missing_of p b) → IsMissing p b f
    to h = elim ((step true p.description _ _).0 h) [
      | inr (_, e, n) ↦ inr (inr (inr (inr (e, n))))
      | inl h ↦ elim ((step true p.maintainer _ _).0 h) [
        | inr (_, e, n) ↦ inr (inr (inr (inl (e, n))))
        | inl h ↦ elim ((step true p.architecture _ _).0 h) [
          | inr (_, e, n) ↦ inr (inr (inl (e, n)))
          | inl h ↦ elim ((step b p.version _ _).0 h) [
            | inr (w, e, n) ↦ inr (inl (w, e, n))
            | inl h ↦ elim ((step true p.package_name _ []).0 h) [
              | inr (_, e, n) ↦ inl (e, n)
              | inl h ↦ absurd h
            ]
          ]
        ]
      ]
    ]

    from : IsMissing p b f → Member f (missing_of p b)
    from h = (step true p.description _ _).1 (elim h [
      | inr (inr (inr (inr (e, n)))) ↦ inr (refl, e, n)
      | inr (inr (inr (inl (e, n)))) ↦ inl ((step true p.maintainer _ _).1 (inr (refl, e, n)))
      | inr (inr (inl (e, n))) ↦ inl (
          (step true p.maintainer _ _).1
            (inl ((step true p.architecture _ _).1 (inr (refl, e, n)))))
      | inr (inl (w, e, n)) ↦ inl (
          (step true p.maintainer _ _).1 (
            inl
              ((step true p.architecture _ _).1 (inl ((step b p.version _ _).1 (inr (w, e, n)))))))
      | inl (e, n) ↦ inl (
          (step true p.maintainer _ _).1 (
            inl (
              (step true p.architecture _ _).1 (
                inl (
                  (step b p.version _ _).1
                    (inl ((step true p.package_name _ []).1 (inr (refl, e, n)))))))))
    ])

check_missing_culprit :
    (p : PackageSpec) (b : Bool) (e : ValidateError)
    → check_missing (missing_of p b) ≡ some e
    → Explains p b e
check_missing_culprit p b e h = go (missing_of p b) refl h
  where
    go : (fs : List Bytes) → missing_of p b ≡ fs → check_missing fs ≡ some e → Explains p b e
    go [] q h = unfold check_missing in cc h
    go (f ∷ fs) q h =
        let ee : missing_fields (f ∷ fs) ≡ e = unfold check_missing in ground arith in
        rw (← ee) (
          λ n. cc,
          λ x.
              subst (λ (l : List Bytes). Member x l ↔ IsMissing p b x) q
                (missing_of-IsMissing p b x),
        )

check_architecture_culprit :
    (p : PackageSpec) (b : Bool) (e : ValidateError)
    → check_architecture p.architecture ≡ some e
    → Explains p b e
unfolding check_architecture
check_architecture_culprit p b e h =
    elim (Bool-cases (has_string supported_architectures p.architecture)) [
      | inl k ↦ cc (rw k at h)
      | inr k ↦
          let ee : bad_architecture p.architecture ≡ e = ground arith in
          rw (← ee) (refl, λ m. cc (k, (has_string_iff supported_architectures p.architecture).1 m))
    ]

-- An error of `Validate` names the real culprit: the missing fields are exactly the required fields
-- that are empty, at least one; an architecture is the specification's and no supported one; an
-- entry is the first of its list that does not have the form of its pattern.
pub validate_culprit :
    (p : PackageSpec) (b : Bool) (e : ValidateError) → validate p b ≡ some e → Explains p b e
unfolding validate
validate_culprit p b e h = elim (or_else_some _ _ e h) [
  | inl h ↦ check_missing_culprit p b e h
  | inr h ↦ elim (or_else_some _ _ e h) [
    | inl h ↦ check_architecture_culprit p b e h
    | inr h ↦ elim (or_else_some _ _ e h) [
      | inl h ↦
          let (d, ed, f) =
            first_bad_culprit re_depends bad_dependency _ re_depends-IsRelation _ e h in
          rw (← ed) f
      | inr h ↦ elim (or_else_some _ _ e h) [
        | inl h ↦
            let (d, ed, f) =
              first_bad_culprit re_depends bad_pre_dependency _ re_depends-IsRelation _ e h in
            rw (← ed) f
        | inr h ↦ elim (or_else_some _ _ e h) [
          | inl h ↦
              let (d, ed, f) =
                first_bad_culprit re_replaces_etc bad_replacement _ re_replaces_etc-IsRelation _ e
                  h in
              rw (← ed) f
          | inr h ↦ elim (or_else_some _ _ e h) [
            | inl h ↦
                let (d, ed, f) =
                  first_bad_culprit re_replaces_etc bad_conflict _ re_replaces_etc-IsRelation _ e
                    h in
                rw (← ed) f
            | inr h ↦
                let (d, ed, f) =
                  first_bad_culprit re_replaces_etc bad_break _ re_replaces_etc-IsRelation _ e h in
                rw (← ed) f
          ]
        ]
      ]
    ]
  ]
]
