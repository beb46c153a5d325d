-- ===== src/FilePath/Tests.antt =====
-- The path functions at the examples of their documentation.
use mathlib.Core.Bool.{xor}
use mkdeb.Prelude.{◌≡◌, refl, [], ◌∷◌, none, some, codes}
use mkdeb.FilePath.{clean, path_join, base, rel}

clean_mixed : clean (codes "/a/./b//../../c/") ≡ codes "/c"
unfolding clean
clean_mixed = refl

clean_up : clean (codes "../a/../..") ≡ codes "../.."
unfolding clean
clean_up = refl

join_absolute :
    path_join (codes "." ∷ codes "/usr/local/bin/magic" ∷ []) ≡ codes "usr/local/bin/magic"
unfolding path_join
join_absolute = refl

base_trailing : base (codes "deb-pkg/preinst//") ≡ codes "preinst"
unfolding base
base_trailing = refl

rel_below :
    rel (codes "test-fixtures/package1") (codes "test-fixtures/package1/etc/package1/config")
    ≡ some (codes "etc/package1/config")
unfolding rel xor
rel_below = refl

rel_beside : rel (codes "/a") (codes "/b/c") ≡ some (codes "../b/c")
unfolding rel xor
rel_beside = refl

rel_mixed : rel (codes "/a") (codes "./b/c") ≡ none
unfolding rel xor
rel_mixed = refl

rel_root : rel (codes "/") (codes "/b") ≡ some (codes "b")
unfolding rel xor
rel_root = refl
