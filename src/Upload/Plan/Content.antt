-- ===== src/Upload/Plan/Content.antt =====
-- The planned parts, put together, are the file.
use file_indexer.Prelude.{
  ℕ, zero, suc, ◌+◌, ◌-◌, ◌≤◌, ◌≡◌, refl, ◌∙◌, ap, sym, List, [], ◌∷◌, ◌++◌, arith, length, take,
  drop, take-append-drop, flat_map,
}
use file_indexer.Upload.Plan.{PartPlan, plan_parts}
use file_indexer.Upload.Plan.Tiling.{Tiles, plan_parts-Tiles}

-- `blob.slice(start, end)`, for a start that is not behind the end
abbrev pub slice : List ℕ → ℕ → ℕ → List ℕ
slice bytes start end = take (end - start) (drop start bytes)

drop-nil : (n : ℕ) → drop {A = ℕ} n [] ≡ []
drop-nil zero = refl
drop-nil (suc n) = refl

drop-drop : (n m : ℕ) (xs : List ℕ) → drop n (drop m xs) ≡ drop (m + n) xs
drop-drop n zero xs = let e : 0 + n ≡ n = omega arith in rw e
drop-drop n (suc m) [] = let e : suc m + n ≡ suc (m + n) = omega arith in rw e (drop-nil n)
drop-drop n (suc m) (x ∷ xs) =
    let e : suc m + n ≡ suc (m + n) = omega arith in rw e (drop-drop n m xs)

drop-length : (xs : List ℕ) → drop (length xs) xs ≡ []
drop-length [] = refl
drop-length (x ∷ xs) = drop-length xs

slice-append-drop :
    (bytes : List ℕ) (start end : ℕ)
    → start ≤ end
    → slice bytes start end ++ drop end bytes ≡ drop start bytes
slice-append-drop bytes start end h =
    let e : start + (end - start) ≡ end = omega arith in
    let d = drop-drop (end - start) start bytes ∙ ap (λ n. drop n bytes) e in
    ap (λ rest. slice bytes start end ++ rest) (sym d)
    ∙ take-append-drop (end - start) (drop start bytes)

Tiles-content :
    (bytes : List ℕ) (part_size part_number start : ℕ) (ps : List PartPlan)
    → Tiles (length bytes) part_size part_number start ps
    → flat_map (λ p. slice bytes p.start p.end) ps ≡ drop start bytes
Tiles-content bytes size n start [] e = sym (ap (λ k. drop k bytes) e ∙ drop-length bytes)
Tiles-content bytes size n start (p ∷ ps) (_, same, grows, _, _, _, tiles) =
    rw (same, Tiles-content bytes size (n + 1) p.end ps tiles)
      (slice-append-drop bytes start p.end (omega arith))

-- The planned parts of a file are numbered from 1 and follow one another from its first byte to its end;
-- none is empty, all but the last are full, and the slices of the file at them, put together in the
-- order of the plan, are the file.
pub plan_parts-content :
    (bytes : List ℕ) (part_size : ℕ)
    → 1 ≤ part_size
    → Tiles (length bytes) part_size 1 0 (plan_parts (length bytes) part_size)
      × (flat_map (λ p. slice bytes p.start p.end) (plan_parts (length bytes) part_size) ≡ bytes)
plan_parts-content bytes part_size h =
    let tiles = plan_parts-Tiles (length bytes) part_size h in
    (tiles, Tiles-content bytes part_size 1 0 (plan_parts (length bytes) part_size) tiles)

-- The slice of a tile has the tile's size.
length-drop : (n : ℕ) (xs : List ℕ) → length (drop n xs) ≡ length xs - n
length-drop zero xs = omega arith
length-drop (suc n) [] = omega arith
length-drop (suc n) (x ∷ xs) = omega (arith, length-drop n xs)

length-take : (n : ℕ) (xs : List ℕ) → n ≤ length xs → length (take n xs) ≡ n
length-take zero xs h = refl
length-take (suc n) [] h = absurd (omega arith)
length-take (suc n) (x ∷ xs) h = ap suc (length-take n xs (omega arith))

pub length-slice :
    (bytes : List ℕ) (start end : ℕ)
    → start ≤ end
    → end ≤ length bytes
    → length (slice bytes start end) ≡ end - start
length-slice bytes start end h k =
    length-take (end - start) (drop start bytes) (omega (arith, length-drop start bytes))

take-length : (xs : List ℕ) → take (length xs) xs ≡ xs
take-length [] = refl
take-length (x ∷ xs) = ap (λ ys. x ∷ ys) (take-length xs)

pub slice-length : (bytes : List ℕ) → slice bytes 0 (length bytes) ≡ bytes
slice-length bytes =
    let e : length bytes - 0 ≡ length bytes = omega arith in
    ap (λ n. take n bytes) e ∙ take-length bytes
