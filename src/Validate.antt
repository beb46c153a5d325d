-- ===== src/Validate.antt =====
-- deb/package.go: `Validate`, with the two patterns that it compiles. An error is a value that names
-- what the message names; the text round it is left out.
pub mod Relation
pub mod Complete
pub mod Culprit
mod Tests
use mkdeb.Prelude.{
  ℕ, Bool, true, false, ◌&&◌, ◌||◌, List, [], ◌∷◌, ◌++◌, Option, none, some, Bytes, codes, leb,
  ◌==◌, has_byte, if◌then◌else◌,
}
use mkdeb.Regex.{Regex, eps, cls, cat, alt, star, opt, plus, match_string}
use mkdeb.Spec.{PackageSpec, has_string, supported_architectures}

pub data ValidateError : Type 0 where
  missing_fields : List Bytes → ValidateError
  bad_architecture : Bytes → ValidateError
  bad_dependency : Bytes → ValidateError
  bad_pre_dependency : Bytes → ValidateError
  bad_replacement : Bytes → ValidateError
  bad_conflict : Bytes → ValidateError
  bad_break : Bytes → ValidateError

abbrev pub is_digit : ℕ → Bool
is_digit c = leb b'0' c && leb c b'9'

abbrev pub is_letter : ℕ → Bool
is_letter c = (leb b'a' c && leb c b'z') || (leb b'A' c && leb c b'Z')

-- `[a-zA-Z0-9.+_-]`.
abbrev pub is_name_byte : ℕ → Bool
is_name_byte c = is_letter c || (is_digit c || has_byte c (codes ".+_-"))

-- `[0-9a-zA-Z.-]`.
abbrev pub is_version_byte : ℕ → Bool
is_version_byte c = is_digit c || (is_letter c || has_byte c (codes ".-"))

-- A literal text inside a pattern.
abbrev pub lit : Bytes → Regex
lit [] = eps
lit (c ∷ s) = cat (cls (λ d. d == c)) (lit s)

-- `( \(OPS VERSION\))?` behind the name, with the operators as an argument.
abbrev pub relation : Regex → Regex
relation ops = cat (plus (cls is_name_byte)) (
    opt (
      cat (lit (codes " (")) (
        cat ops (
          cat (lit (codes " "))
            (cat (cat (cls is_digit) (star (cls is_version_byte))) (lit (codes ")")))))))

abbrev pub depends_ops : Regex
depends_ops =
    alt (lit (codes ">"))
      (alt (lit (codes ">=")) (alt (lit (codes "<")) (alt (lit (codes "<=")) (lit (codes "=")))))

abbrev pub re_depends : Regex
re_depends = relation depends_ops

abbrev pub re_replaces_etc : Regex
re_replaces_etc = relation (lit (codes "<<"))

-- `if field == "" { missing = append(missing, name) }`.
abbrev pub add_missing : Bool → Bytes → Bytes → List Bytes → List Bytes
add_missing wanted [] name missing = if wanted then missing ++ name ∷ [] else missing
add_missing wanted (c ∷ s) name missing = missing

-- The names of the required fields that are empty.
unfoldable pub missing_of : PackageSpec → Bool → List Bytes
missing_of p build_time = add_missing true p.description (codes "description") (
    add_missing true p.maintainer (codes "maintainer") (
      add_missing true p.architecture (codes "architecture") (
        add_missing build_time p.version (codes "version")
          (add_missing true p.package_name (codes "package") []))))

-- One loop of `Validate`: the first text that the pattern refuses.
unfoldable pub first_bad : Regex → (Bytes → ValidateError) → List Bytes → Option ValidateError
first_bad re report [] = none
first_bad re report (dep ∷ deps) =
    let rest = first_bad re report deps in if match_string re dep then rest else some (report dep)

-- What follows if a check finds nothing.
infixr 5 ◌or_else◌
abbrev pub ◌or_else◌ : Option ValidateError → Option ValidateError → Option ValidateError
none or_else next = next
some e or_else next = some e

check_missing : List Bytes → Option ValidateError
check_missing [] = none
check_missing (f ∷ fs) = some (missing_fields (f ∷ fs))

check_architecture : Bytes → Option ValidateError
check_architecture arch =
    if has_string supported_architectures arch then none else some (bad_architecture arch)

-- `Validate`; `none` is Go's nil error.
unfoldable pub validate : PackageSpec → Bool → Option ValidateError
unfolding check_missing check_architecture
validate p build_time =
    check_missing (missing_of p build_time)
    or_else check_architecture p.architecture
    or_else first_bad re_depends bad_dependency p.depends
    or_else first_bad re_depends bad_pre_dependency p.pre_depends
    or_else first_bad re_replaces_etc bad_replacement p.replaces
    or_else first_bad re_replaces_etc bad_conflict p.conflicts
    or_else first_bad re_replaces_etc bad_break p.breaks
