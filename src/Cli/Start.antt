-- ===== src/Cli/Start.antt =====
-- main.go: the specification that `initialize` writes.
use mkdeb.Prelude.{
  false, ◌≢◌, refl, List, [], ◌∷◌, ◌++◌, Bytes, codes, bytes_eq, bytes_eq_iff, Bool-cases, inl, inr,
}
use mkdeb.FilePath.{base, split, last_or}
use mkdeb.Validate.Complete.{IsValid}
use mkdeb.Cli.{initial_package}

last_or-filled : (d : Bytes) (es : List Bytes) → d ≢ [] → last_or d es ≢ []
last_or-filled d [] h = h
last_or-filled d (e ∷ es) h = elim (Bool-cases (bytes_eq e [])) [
  | inl k ↦ rw k (last_or-filled d es h)
  | inr k ↦ rw k (last_or-filled e es (λ q. cc (k, (bytes_eq_iff e []).1 q)))
]

base-filled : (s : Bytes) → base s ≢ []
unfolding base
base-filled [] = λ q. cc
base-filled (c ∷ s) = last_or-filled (codes "/") (split (c ∷ s)) (λ q. cc)

append-filled : (s t : Bytes) → s ≢ [] → s ++ t ≢ []
append-filled [] t h = λ q. h refl
append-filled (c ∷ s) t h = λ q. cc

-- The specification that `init` writes is valid as it stands, in any directory, but for the version,
-- which `build` adds.
pub initial_package-IsValid : (workdir : Bytes) → IsValid (initial_package workdir) false
unfolding initial_package
initial_package-IsValid workdir = record {
  package_given = base-filled workdir;
  version_given = λ q. cc;
  architecture_given = λ q. cc;
  maintainer_given = λ q. cc;
  description_given =
      append-filled (base workdir) (codes " is an awsome project for...") (base-filled workdir);
  architecture_known = inr (inl refl);
  depends_fit = tt;
  pre_depends_fit = tt;
  replaces_fit = tt;
  conflicts_fit = tt;
  breaks_fit = tt;
}
