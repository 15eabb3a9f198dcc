-- ===== src/Upload/Plan/Tiling.antt =====
-- The planned parts tile the file.
use file_indexer.Prelude.{
  ◌⊎◌, ℕ, zero, suc, ◌+◌, ◌≤◌, ◌<◌, ◌≡◌, refl, min, List, [], ◌∷◌, ltb, arith, Bool-cases, inl, inr,
  ltb→lt, leb, leb→le, ltb-eq-false→le,
}
use file_indexer.Upload.Plan.{PartPlan, plan_from, plan_parts}

module _ (file_size part_size : ℕ) where
  -- The parts cover the bytes from `start` to the end of the file, each behind the one before it,
  -- numbered on from `part_number`; none is empty, and all but the last are full.
  abbrev pub Tiles : ℕ → ℕ → List PartPlan → Type 0
  Tiles part_number start [] = start ≡ file_size
  Tiles part_number start (p ∷ ps) =
      (p.part_number ≡ part_number)
      × (p.start ≡ start)
      × (start < p.end)
      × (p.end ≤ file_size)
      × (p.end ≤ start + part_size)
      × ((p.end ≡ file_size) ⊎ (p.end ≡ start + part_size))
      × Tiles (part_number + 1) p.end ps

  end-cases :
      (start : ℕ)
      → (min (start + part_size) file_size ≡ file_size)
        ⊎ (min (start + part_size) file_size ≡ start + part_size)
  end-cases start = elim (Bool-cases (leb (start + part_size) file_size)) [
    | inl fits ↦ let le = leb→le (start + part_size) file_size fits in inr (omega arith)
    | inr over ↦ inl (ground arith)
  ]

  -- Past the end of the file there is no part.
  plan_from-past :
      (fuel part_number start : ℕ)
      → file_size ≤ start
      → plan_from fuel file_size part_size part_number start ≡ []
  unfolding plan_from
  plan_from-past zero n start h = refl
  plan_from-past (suc fuel) n start h = ground arith

  module _ (positive : 1 ≤ part_size) where
    -- What follows a part begins at its end.
    following :
        (fuel part_number start : ℕ)
        → (start + part_size ≤ file_size
            → file_size ≤ start + part_size + fuel
            → Tiles part_number
                (start + part_size)
                (plan_from fuel file_size part_size part_number (start + part_size)))
        → file_size ≤ start + suc fuel
        → Tiles part_number
            (min (start + part_size) file_size)
            (plan_from fuel file_size part_size part_number (start + part_size))
    following fuel n start tiles k = elim (Bool-cases (leb (start + part_size) file_size)) [
      | inl fits ↦
          let le = leb→le (start + part_size) file_size fits in
          let e : min (start + part_size) file_size ≡ start + part_size = omega arith in
          rw e (tiles le (omega arith))
      | inr over ↦
          let e : min (start + part_size) file_size ≡ file_size = ground arith in
          rw (e, plan_from-past fuel n (start + part_size) (ground arith)) refl
    ]

    plan_from-Tiles :
        (fuel part_number start : ℕ)
        → start ≤ file_size
        → file_size ≤ start + fuel
        → Tiles part_number start (plan_from fuel file_size part_size part_number start)
    unfolding plan_from
    plan_from-Tiles zero n start h k = omega arith
    plan_from-Tiles (suc fuel) n start h k = elim (Bool-cases (ltb start file_size)) [
      | inl inside ↦
          let lt = ltb→lt start file_size inside in
          rw inside (
            refl,
            refl,
            omega arith,
            omega arith,
            omega arith,
            end-cases start,
            following fuel (n + 1) start (plan_from-Tiles fuel (n + 1) (start + part_size)) k,
          )
      | inr outside ↦ let le = ltb-eq-false→le start file_size outside in rw outside (omega arith)
    ]

    -- `planParts` splits a file into consecutive parts that are numbered from 1, cover exactly its
    -- bytes, are not empty, and are all full but for the last one.
    pub plan_parts-Tiles : Tiles 1 0 (plan_parts file_size part_size)
    unfolding plan_parts
    plan_parts-Tiles = plan_from-Tiles file_size 1 0 (omega arith) (omega arith)
