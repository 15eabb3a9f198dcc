-- ===== src/Js/Space/Twice.antt =====
-- `trim` of a trimmed text.
use file_indexer.Prelude.{ℕ, ◌≡◌, refl, inl, inr, false, [], ◌∷◌, Text, Bool-cases}
use file_indexer.Js.Space.{is_space, trim_start, cons_trimmed, trim_end, trim}

trim_end-cons_trimmed :
    (c : ℕ) (s : Text) → trim_end s ≡ s → trim_end (cons_trimmed c s) ≡ cons_trimmed c s
unfolding trim_end
trim_end-cons_trimmed c [] h = elim (Bool-cases (is_space c)) [
  | inl space ↦ rw space refl
  | inr other ↦ rw other (rw other refl)
]
trim_end-cons_trimmed c (d ∷ s) h = rw h refl

trim_end_again : (s : Text) → trim_end (trim_end s) ≡ trim_end s
unfolding trim_end
trim_end_again [] = refl
trim_end_again (c ∷ s) = trim_end-cons_trimmed c (trim_end s) (trim_end_again s)

trim_start-cons_trimmed :
    (c : ℕ) (s : Text) → is_space c ≡ false → trim_start (cons_trimmed c s) ≡ cons_trimmed c s
unfolding trim_start
trim_start-cons_trimmed c [] h = rw h (rw h refl)
trim_start-cons_trimmed c (d ∷ s) h = rw h refl

trim_start-trim_end-trim_start :
    (s : Text) → trim_start (trim_end (trim_start s)) ≡ trim_end (trim_start s)
unfolding trim_start trim_end
trim_start-trim_end-trim_start [] = refl
trim_start-trim_end-trim_start (c ∷ s) = elim (Bool-cases (is_space c)) [
  | inl space ↦ rw space (trim_start-trim_end-trim_start s)
  | inr other ↦ rw other (trim_start-cons_trimmed c (trim_end s) other)
]

pub trim_again : (s : Text) → trim (trim s) ≡ trim s
unfolding trim
trim_again s = rw (trim_start-trim_end-trim_start s) (trim_end_again (trim_start s))
