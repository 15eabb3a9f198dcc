-- ===== src/Js/Space.antt =====
-- `trim`: white space and line terminators, at both ends.
pub mod Twice
use file_indexer.Prelude.{
  ℕ, ◌≡◌, refl, Bool, false, ◌&&◌, ◌||◌, [], ◌∷◌, Text, All, ◌==◌, leb, if◌then◌else◌,
}

unfoldable pub is_space : ℕ → Bool
is_space c =
    (leb 9 c && leb c 13)
    || c == 32
    || c == 160
    || c == 5760
    || (leb 8192 c && leb c 8202)
    || c == 8232
    || c == 8233
    || c == 8239
    || c == 8287
    || c == 12288
    || c == 65279

unfoldable pub trim_start : Text → Text
trim_start [] = []
trim_start (c ∷ s) = if is_space c then trim_start s else c ∷ s

abbrev pub cons_trimmed : ℕ → Text → Text
cons_trimmed c [] = if is_space c then [] else c ∷ []
cons_trimmed c (d ∷ s) = c ∷ d ∷ s

unfoldable pub trim_end : Text → Text
trim_end [] = []
trim_end (c ∷ s) = cons_trimmed c (trim_end s)

unfoldable pub trim : Text → Text
unfolding trim_start trim_end is_space
trim s = trim_end (trim_start s)

abbrev pub NotSpace : ℕ → Type 0
NotSpace c = is_space c ≡ false

trim_start-All : (s : Text) → All NotSpace s → trim_start s ≡ s
unfolding trim_start
trim_start-All [] h = refl
trim_start-All (c ∷ s) (p, h) = rw p

trim_end-All : (s : Text) → All NotSpace s → trim_end s ≡ s
unfolding trim_end
trim_end-All [] h = refl
trim_end-All (c ∷ []) (p, h) = rw p
trim_end-All (c ∷ d ∷ s) (p, h) = rw (trim_end-All (d ∷ s) h)

pub trim-All : (s : Text) → All NotSpace s → trim s ≡ s
unfolding trim
trim-All s h = rw (trim_start-All s h) (trim_end-All s h)
