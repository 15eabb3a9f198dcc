-- ===== src/Js/Join.antt =====
-- `parts.join(separator)`, `text.split(separator)` at one code unit, and dropping one at the end.
use file_indexer.Prelude.{ℕ, List, [], ◌∷◌, ◌++◌, Text, ◌==◌, if◌then◌else◌}

unfoldable pub join : Text → List Text → Text
join separator [] = []
join separator (part ∷ []) = part
join separator (part ∷ next ∷ parts) = part ++ separator ++ join separator (next ∷ parts)

abbrev pub cons_to_first : ℕ → List Text → List Text
cons_to_first c [] = (c ∷ []) ∷ []
cons_to_first c (part ∷ parts) = (c ∷ part) ∷ parts

unfoldable pub split : ℕ → Text → List Text
split separator [] = [] ∷ []
split separator (c ∷ s) =
    let rest = split separator s in if c == separator then [] ∷ rest else cons_to_first c rest
