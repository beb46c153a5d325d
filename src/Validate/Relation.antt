-- ===== src/Validate/Relation.antt =====
-- deb/package.go: the two patterns of `Validate` and a grammar that is written without expressions.
use mkdeb.Prelude.{
  ℕ, ◌≡◌, refl, sym, ◌∙◌, ◌↔◌, ◌⊎◌, inl, inr, Bool, true, [], ◌∷◌, ◌++◌, append-nil, Bytes, codes,
  arith, ==_iff, All,
}
use mkdeb.Regex.{Regex, cls, cat, star, plus, Star, done, more, Matches, match_string}
use mkdeb.Regex.Decides.{match_string-Matches}
use mkdeb.Validate.{
  is_digit, is_name_byte, is_version_byte, lit, relation, depends_ops, re_depends, re_replaces_etc,
}

-- A name: one byte at least, each from the class.
abbrev pub IsName : Bytes → Type 0
IsName [] = ⊥
IsName (c ∷ s) = All (λ d. is_name_byte d ≡ true) (c ∷ s)

-- A version: a digit, and bytes from the class behind it.
abbrev pub IsVersion : Bytes → Type 0
IsVersion [] = ⊥
IsVersion (c ∷ s) = (is_digit c ≡ true) × All (λ d. is_version_byte d ≡ true) s

-- A name, alone or with an operator and a version in parentheses.
abbrev pub IsRelation : (Bytes → Type 0) → Bytes → Type 0
IsRelation Op s =
    (name : Bytes) × IsName name
    × ((s ≡ name)
        ⊎ ((op : Bytes) × (version : Bytes) × Op op
            × IsVersion version
            × (s ≡ name ++ (codes " (" ++ (op ++ (codes " " ++ (version ++ codes ")")))))))

-- `(>|>=|<|<=|=)` and `<<`.
abbrev pub DependsOp : Bytes → Type 0
DependsOp op =
    (op ≡ codes ">")
    ⊎ ((op ≡ codes ">=") ⊎ ((op ≡ codes "<") ⊎ ((op ≡ codes "<=") ⊎ (op ≡ codes "="))))

abbrev pub ReplacesOp : Bytes → Type 0
ReplacesOp op = op ≡ codes "<<"

Star→All : (p : ℕ → Bool) {s : Bytes} → Star (Matches (cls p)) s → All (λ d. p d ≡ true) s
Star→All p (done e) = rw e tt
Star→All p (more c u t e (d, e', h) m) =
    let eu : u ≡ [] = ground arith in
    let ec : p c ≡ true = ground arith in rw (e, eu) (ec, Star→All p m)

All→Star : (p : ℕ → Bool) (s : Bytes) → All (λ d. p d ≡ true) s → Star (Matches (cls p)) s
All→Star p [] h = done refl
All→Star p (c ∷ s) (h, hs) = more c [] s refl (c, refl, h) (All→Star p s hs)

Matches→lit : (w s : Bytes) → Matches (lit w) s → s ≡ w
Matches→lit [] s e = e
Matches→lit (c ∷ w) s (u, t, e, (d, eu, h), mt) = rw (e, eu, Matches→lit w t mt, (==_iff d c).0 h)

Matches-lit : (w : Bytes) → Matches (lit w) w
Matches-lit [] = refl
Matches-lit (c ∷ w) = (c ∷ [], w, refl, (c, refl, (==_iff c c).1 refl), Matches-lit w)

-- The byte classes under `+`, and a class behind one byte of another.
IsName-iff : (s : Bytes) → Matches (plus (cls is_name_byte)) s ↔ IsName s
IsName-iff s = (to s, from s)
  where
    to : (s : Bytes) → Matches (plus (cls is_name_byte)) s → IsName s
    to s (u, t, e, (c, eu, h), m) = rw (e, eu) (h, Star→All is_name_byte m)

    from : (s : Bytes) → IsName s → Matches (plus (cls is_name_byte)) s
    from [] h = absurd h
    from (c ∷ s) (h, hs) = (c ∷ [], s, refl, (c, refl, h), All→Star is_name_byte s hs)

IsVersion-iff :
    (s : Bytes) → Matches (cat (cls is_digit) (star (cls is_version_byte))) s ↔ IsVersion s
IsVersion-iff s = (to s, from s)
  where
    to : (s : Bytes) → Matches (cat (cls is_digit) (star (cls is_version_byte))) s → IsVersion s
    to s (u, t, e, (c, eu, h), m) = rw (e, eu) (h, Star→All is_version_byte m)

    from : (s : Bytes) → IsVersion s → Matches (cat (cls is_digit) (star (cls is_version_byte))) s
    from [] h = absurd h
    from (c ∷ s) (h, hs) = (c ∷ [], s, refl, (c, refl, h), All→Star is_version_byte s hs)

module _ (ops : Regex) (Op : Bytes → Type 0) (ops_iff : (s : Bytes) → Matches ops s ↔ Op s) where
  relation→IsRelation : (s : Bytes) → Matches (relation ops) s → IsRelation Op s
  relation→IsRelation s (name, t, e, mn, inr et) =
      (name, (IsName-iff name).0 mn, inl (e ∙ rw et (append-nil name)))
  relation→IsRelation s
        (
          name,
          t,
          e,
          mn,
          inl (a, r, er, ma, (op, r', er', mo, (b, r'', es, mb, (v, z, ez, mv, mz)))),
        ) =
      (
        name,
        (IsName-iff name).0 mn,
        inr (
          op,
          v,
          (ops_iff op).0 mo,
          (IsVersion-iff v).0 mv,
          rw (
            e,
            er,
            Matches→lit (codes " (") a ma,
            er',
            es,
            Matches→lit (codes " ") b mb,
            ez,
            Matches→lit (codes ")") z mz,
          ),
        ),
      )

  IsRelation→relation : (s : Bytes) → IsRelation Op s → Matches (relation ops) s
  IsRelation→relation s (name, hn, inl e) =
      (name, [], e ∙ sym (append-nil name), (IsName-iff name).1 hn, inr refl)
  IsRelation→relation s (name, hn, inr (op, v, ho, hv, e)) = (
    name,
    codes " (" ++ (op ++ (codes " " ++ (v ++ codes ")"))),
    e,
    (IsName-iff name).1 hn,
    inl (
      codes " (",
      op ++ (codes " " ++ (v ++ codes ")")),
      refl,
      Matches-lit (codes " ("),
      (
        op,
        codes " " ++ (v ++ codes ")"),
        refl,
        (ops_iff op).1 ho,
        (
          codes " ",
          v ++ codes ")",
          refl,
          Matches-lit (codes " "),
          (v, codes ")", refl, (IsVersion-iff v).1 hv, Matches-lit (codes ")")),
        ),
      ),
    ),
  )

  relation_iff : (s : Bytes) → (match_string (relation ops) s ≡ true) ↔ IsRelation Op s
  relation_iff s = (
    λ h. relation→IsRelation s ((match_string-Matches (relation ops) s).0 h),
    λ r. (match_string-Matches (relation ops) s).1 (IsRelation→relation s r),
  )

depends_ops_iff : (s : Bytes) → Matches depends_ops s ↔ DependsOp s
depends_ops_iff s = (to s, from s)
  where
    to : (s : Bytes) → Matches depends_ops s → DependsOp s
    to s (inl m) = inl (Matches→lit _ s m)
    to s (inr (inl m)) = inr (inl (Matches→lit _ s m))
    to s (inr (inr (inl m))) = inr (inr (inl (Matches→lit _ s m)))
    to s (inr (inr (inr (inl m)))) = inr (inr (inr (inl (Matches→lit _ s m))))
    to s (inr (inr (inr (inr m)))) = inr (inr (inr (inr (Matches→lit _ s m))))

    from : (s : Bytes) → DependsOp s → Matches depends_ops s
    from s (inl e) = inl (rw e (Matches-lit (codes ">")))
    from s (inr (inl e)) = inr (inl (rw e (Matches-lit (codes ">="))))
    from s (inr (inr (inl e))) = inr (inr (inl (rw e (Matches-lit (codes "<")))))
    from s (inr (inr (inr (inl e)))) = inr (inr (inr (inl (rw e (Matches-lit (codes "<="))))))
    from s (inr (inr (inr (inr e)))) = inr (inr (inr (inr (rw e (Matches-lit (codes "="))))))

-- `reDepends` accepts a text exactly if it is a name, alone or followed by one space and, in
-- parentheses, one of the operators `>`, `>=`, `<`, `<=`, `=`, one space and a version.
pub re_depends-IsRelation :
    (s : Bytes) → (match_string re_depends s ≡ true) ↔ IsRelation DependsOp s
re_depends-IsRelation s = relation_iff depends_ops DependsOp depends_ops_iff s

-- `reReplacesEtc` accepts a text exactly if it is a name, alone or followed by one space and, in
-- parentheses, the operator `<<`, one space and a version.
pub re_replaces_etc-IsRelation :
    (s : Bytes) → (match_string re_replaces_etc s ≡ true) ↔ IsRelation ReplacesOp s
re_replaces_etc-IsRelation s =
    relation_iff (lit (codes "<<")) ReplacesOp
      (λ s. (Matches→lit (codes "<<") s, λ e. rw e (Matches-lit (codes "<<")))) s
