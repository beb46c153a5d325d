-- ===== src/Cli/Run/Entered.antt =====
-- main.go: the change to the directory of the configuration.
use mathlib.Core.Path.{subst}
use mkdeb.Prelude.{
  true, ◌≡◌, refl, ◌∙◌, ap, some, Bytes, Result, ok, ◌>>=◌, >>=-eq-ok, or_err, Bool-cases, inl, inr,
}
use mkdeb.FilePath.{dir_part}
use mkdeb.Content.Size.{or_err_ok}
use mkdeb.Cli.Run.{System, get_abs_paths, change_to, enter, no_path, no_directory}

-- Where a run goes: the working directory can be asked for, the path of the configuration is absolute,
-- and its directory can be changed to.
pub record IsEntered (system : System) (config abspath : Bytes) : Type 0 where
  pub before : Bytes
  pub has_before : system.getwd ≡ some before
  pub has_path : system.absolute config ≡ some abspath
  pub has_changed : system.chdir (dir_part abspath) ≡ true

ok_inj : {E : Type 0} {A : Type 0} {a b : A} → ◌≡◌ {A = Result E A} (ok a) (ok b) → a ≡ b
ok_inj h = cc

module _ (system : System) (config : Bytes) where
  change_to_inv :
      (workdir : Bytes) (u : Unit {0})
      → change_to system workdir ≡ ok u
      → system.chdir workdir ≡ true
  change_to_inv workdir u h = elim (Bool-cases (system.chdir workdir)) [
    | inl e ↦ e
    | inr e ↦ cc (rw e at h)
  ]

  pub enter_inv :
      (paths : Bytes × Bytes)
      → enter system config ≡ ok paths
      → IsEntered system config paths.1 × (paths.0 ≡ dir_part paths.1)
  unfolding enter get_abs_paths
  enter_inv paths h =
      let (before, eb, h1) = >>=-eq-ok (or_err system.getwd no_directory) _ h in
      let (ps, ep, h2) =
        >>=-eq-ok
          (or_err (system.absolute config) (no_path config) >>= λ path. ok (dir_part path, path)) _
          h1 in
      let (path, ea, h3) = >>=-eq-ok (or_err (system.absolute config) (no_path config)) _ ep in
      let (u, ec, h4) = >>=-eq-ok (change_to system ps.0) _ h2 in
      let same : (dir_part path, path) ≡ paths = ok_inj h3 ∙ ok_inj h4 in
      let here : system.chdir (dir_part path) ≡ true =
        ap (λ (x : Bytes × Bytes). system.chdir x.0) (ok_inj h3) ∙ change_to_inv ps.0 u ec in
      subst (λ (x : Bytes × Bytes). IsEntered system config x.1 × (x.0 ≡ dir_part x.1)) same
        (
          record {
            before = before;
            has_before = or_err_ok system.getwd _ before eb;
            has_path = or_err_ok (system.absolute config) _ path ea;
            has_changed = here;
          },
          refl,
        )

  pub enter_lem :
      (abspath : Bytes)
      → IsEntered system config abspath
      → enter system config ≡ ok (dir_part abspath, abspath)
  unfolding enter get_abs_paths
  enter_lem abspath e = rw (e.has_before, e.has_path, e.has_changed) refl
