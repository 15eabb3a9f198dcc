-- ===== src/Js/Dictionary.antt =====
-- `Map`: the last value set for a key, whatever the order of the keys.
use file_indexer.Prelude.{
  ◌≡◌, refl, ◌↔◌, ◌∙◌, Bool, true, Option, none, some, List, [], ◌∷◌, arith, if◌then◌else◌,
}
use mathlib.Core.List.{foldl}

module _ {ℓ κ} {K : Type ℓ} {V : Type κ} (same : K → K → Bool) where
  unfoldable pub map_set : List (K × V) → K × V → List (K × V)
  map_set [] (k, v) = (k, v) ∷ []
  map_set ((j, w) ∷ m) (k, v) = if same j k then (j, v) ∷ m else (j, w) ∷ map_set m (k, v)

  unfoldable pub map_get : List (K × V) → K → Option V
  map_get [] k = none
  map_get ((j, w) ∷ m) k = if same j k then some w else map_get m k

  -- `new Map(entries)`
  unfoldable pub map_of : List (K × V) → List (K × V)
  unfolding map_set
  map_of entries = foldl map_set [] entries

  -- The value of the last entry for a key.
  unfoldable pub last_value : Option V → List (K × V) → K → Option V
  last_value found [] k = found
  last_value found ((j, w) ∷ entries) k = last_value (if same j k then some w else found) entries k

module _ {ℓ κ} {K : Type ℓ} {V : Type κ} (same : K → K → Bool)
    (same_iff : (j k : K) → (same j k ≡ true) ↔ (j ≡ k)) where
  pub map_get-map_set :
      (m : List (K × V)) (k : K) (v : V) (j : K)
      → map_get same (map_set same m (k, v)) j ≡ (if same k j then some v else map_get same m j)
  unfolding map_get map_set
  map_get-map_set [] k v j = refl
  map_get-map_set ((i, w) ∷ m) k v j =
      ground (arith, same_iff i k, same_iff i j, same_iff k j, map_get-map_set m k v j)

  map_get-foldl :
      (entries m : List (K × V)) (j : K)
      → map_get same (foldl (map_set same) m entries) j
        ≡ last_value same (map_get same m j) entries j
  unfolding last_value
  map_get-foldl [] m j = refl
  map_get-foldl ((k, v) ∷ entries) m j =
      map_get-foldl entries (map_set same m (k, v)) j ∙ (rw (map_get-map_set m k v j) refl)

  pub map_get-map_of :
      (entries : List (K × V)) (j : K)
      → map_get same (map_of same entries) j ≡ last_value same none entries j
  unfolding map_of map_get
  map_get-map_of entries j = map_get-foldl entries [] j
