-- ===== src/Regex.antt =====
-- The expressions that deb/package.go hands to `regexp.MustCompile`, their meaning, and a matcher.
-- Both patterns of the source stand between `^` and `$`, so a match is a match of the whole text,
-- and Go's choice of the leftmost or of the shortest match does not show.
pub mod Decides
use mkdeb.Prelude.{ℕ, ◌≡◌, ◌⊎◌, Bool, true, false, ◌&&◌, ◌||◌, [], ◌∷◌, ◌++◌, Bytes, if◌then◌else◌}

pub data Regex : Type 0 where
  none eps : Regex
  cls : (ℕ → Bool) → Regex
  cat : Regex → Regex → Regex
  alt : Regex → Regex → Regex
  star : Regex → Regex

-- `r?` and `r+`.
abbrev pub opt : Regex → Regex
opt r = alt r eps

abbrev pub plus : Regex → Regex
plus r = cat r (star r)

-- Repetitions, in pieces that are not empty.
pub data Star (P : Bytes → Type 0) : Bytes → Type 0 where
  done : {s : Bytes} → s ≡ [] → Star P s
  more : {s : Bytes} (c : ℕ) (u t : Bytes) → s ≡ c ∷ (u ++ t) → P (c ∷ u) → Star P t → Star P s

-- The texts that an expression stands for.
abbrev pub Matches : Regex → Bytes → Type 0
Matches none s = ⊥
Matches eps s = s ≡ []
Matches (cls p) s = (c : ℕ) × (s ≡ c ∷ []) × (p c ≡ true)
Matches (cat r q) s = (u : Bytes) × (t : Bytes) × (s ≡ u ++ t) × Matches r u × Matches q t
Matches (alt r q) s = Matches r s ⊎ Matches q s
Matches (star r) s = Star (Matches r) s

-- Whether the empty text matches.
pub nullable : Regex → Bool
nullable none = false
nullable eps = true
nullable (cls p) = false
nullable (cat r q) = nullable r && nullable q
nullable (alt r q) = nullable r || nullable q
nullable (star r) = true

-- What is left to match behind the byte `c`.
pub deriv : ℕ → Regex → Regex
unfolding nullable
deriv c none = none
deriv c eps = none
deriv c (cls p) = if p c then eps else none
deriv c (cat r q) =
    let front = cat (deriv c r) q in
    let back = deriv c q in if nullable r then alt front back else front
deriv c (alt r q) = alt (deriv c r) (deriv c q)
deriv c (star r) = cat (deriv c r) (star r)

-- `MatchString` of an expression between `^` and `$`.
unfoldable pub match_string : Regex → Bytes → Bool
unfolding nullable deriv
match_string r [] = nullable r
match_string r (c ∷ s) = match_string (deriv c r) s
