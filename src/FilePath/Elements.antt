-- ===== src/FilePath/Elements.antt =====
-- Cutting a path at its slashes and joining it again.
use mkdeb.Prelude.{◌≡◌, List, [], ◌∷◌, Bytes, codes, join, All, Lacks, cut-Lacks, cut-join, cut-sep}
use mkdeb.FilePath.{slash, split}

-- No slash in the text.
abbrev pub IsPart : Bytes → Type 0
IsPart = Lacks slash

-- No part of a path holds a slash.
pub split-IsPart : (s : Bytes) → All IsPart (split s)
unfolding split
split-IsPart s = cut-Lacks slash s

pub split-slash : (s : Bytes) → split (slash ∷ s) ≡ [] ∷ split s
unfolding split
split-slash s = cut-sep slash s

-- Parts with no slash, at least one, are what their join is cut into.
pub split-join :
    (w : Bytes) (ws : List Bytes) → All IsPart (w ∷ ws) → split (join (w ∷ ws) (codes "/")) ≡ w ∷ ws
unfolding split
split-join w ws h = cut-join slash w ws h
