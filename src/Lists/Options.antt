-- ===== src/Lists/Options.antt =====
-- The types that a list of files can be narrowed to.
use file_indexer.Prelude.{
  ◌≡◌, ◌≢◌, refl, inl, inr, true, false, List, [], ◌∷◌, All, Text, ◌===◌, ===_refl, Bool-cases,
}
use file_indexer.Lists.{includes, option_values}

-- No text stands in the list twice.
abbrev pub Distinct : List Text → Type 0
Distinct [] = Unit
Distinct (x ∷ xs) = (includes xs x ≡ false) × Distinct xs

-- Each is in that list.
abbrev pub AllIn : List Text → List Text → Type 0
AllIn ys xs = All (λ x. includes ys x ≡ true) xs

includes-cons : (ys : List Text) (y x : Text) → includes ys x ≡ true → includes (y ∷ ys) x ≡ true
unfolding includes
includes-cons ys y x h = elim (Bool-cases (y === x)) [
  | inl here ↦ rw here refl
  | inr other ↦ rw other h
]

includes-head : (ys : List Text) (y : Text) → includes (y ∷ ys) y ≡ true
unfolding includes
includes-head ys y = rw (===_refl y) refl

AllIn-cons : (ys : List Text) (y : Text) (xs : List Text) → AllIn ys xs → AllIn (y ∷ ys) xs
AllIn-cons ys y [] h = tt
AllIn-cons ys y (x ∷ xs) (first, h) = (includes-cons ys y x first, AllIn-cons ys y xs h)

AllIn-self : (xs : List Text) → AllIn xs xs
AllIn-self [] = tt
AllIn-self (x ∷ xs) = (includes-head xs x, AllIn-cons xs x xs (AllIn-self xs))

-- The chosen type and all categories are offered, and none of them twice, even if the service does not
-- list the type among its categories.
pub option_values-Distinct :
    (type : Text) (categories : List Text)
    → type ≢ []
    → Distinct categories
    → (includes (option_values type categories) type ≡ true)
      × AllIn (option_values type categories) categories
      × Distinct (option_values type categories)
unfolding option_values ◌===◌
option_values-Distinct [] categories full h = absurd (full refl)
option_values-Distinct (c ∷ s) categories full h = elim (Bool-cases (includes categories (c ∷ s))) [
  | inl listed ↦ rw listed (listed, AllIn-self categories, h)
  | inr missing ↦ rw missing (
    includes-head categories (c ∷ s),
    AllIn-cons categories (c ∷ s) categories (AllIn-self categories),
    (missing, h),
  )
]
