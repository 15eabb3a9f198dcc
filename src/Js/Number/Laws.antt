-- ===== src/Js/Number/Laws.antt =====
-- How far `Number(n)` is from `n`.
use native.Mathlib.Nat.{div-add-mod}
use file_indexer.Prelude.{
  ℕ, zero, suc, ◌+◌, ◌*◌, ◌/◌, ◌%◌, ◌≤◌, ◌<◌, ◌≡◌, refl, ◌⊎◌, inl, inr, arith, ltb, Bool-cases,
  lt→ltb, ltb-eq-false→le,
}
use file_indexer.Js.Number.{exact_limit, unit_from, round_to, round}

-- The first number that is out of reach of so many doublings of the unit.
abbrev reach : ℕ → ℕ → ℕ
reach zero u = exact_limit * u
reach (suc fuel) u = reach fuel (2 * u)

-- A unit is the least one, or the number has all 53 bits in it.
abbrev Fits : ℕ → ℕ → Type 0
Fits u n = (u ≡ 1) ⊎ (4503599627370496 * u ≤ n)

unit_from-Fits :
    (fuel u n : ℕ)
    → 1 ≤ u
    → Fits u n
    → n < reach fuel u
    → let v = unit_from fuel u n in (1 ≤ v) × Fits v n
unfolding unit_from
unit_from-Fits zero u n h f k = (h, f)
unit_from-Fits (suc fuel) u n h f k = elim (Bool-cases (ltb n (exact_limit * u))) [
  | inl small ↦ rw small (h, f)
  | inr large ↦
      let big = ltb-eq-false→le n (exact_limit * u) large in
      rw large (unit_from-Fits fuel (2 * u) n (omega arith) (inr (omega arith)) k)
]

-- Rounding to a multiple of a unit moves a number by half of it at most.
round_to-near : (u n : ℕ) → 1 ≤ u → (2 * round_to u n ≤ 2 * n + u) × (2 * n ≤ 2 * round_to u n + u)
unfolding round_to
round_to-near u n h =
    let e : n / u * u + n % u ≡ n = omega (arith, div-add-mod n u) in
    let lt : n % u < u = omega arith in grind arith

round_to-one : (n : ℕ) → round_to 1 n ≡ n
unfolding round_to
round_to-one n = ground arith

pub round-exact : (n : ℕ) → n < exact_limit → round n ≡ n
unfolding round unit_from
round-exact n h = rw (lt→ltb n exact_limit h) (round_to-one n)

round_from :
    (u n : ℕ)
    → 1 ≤ u
    → Fits u n
    → (9007199254740992 * round_to u n ≤ 9007199254740993 * n)
      × (9007199254740991 * n ≤ 9007199254740992 * round_to u n)
round_from u n h (inl one) = let e = round_to-one n in rw one (rw e (omega arith))
round_from u n h (inr big) = let (over, under) = round_to-near u n h in (omega arith, omega arith)

pub round-near :
    (n : ℕ)
    → n < 18446744073709551616
    → (9007199254740992 * round n ≤ 9007199254740993 * n)
      × (9007199254740991 * n ≤ 9007199254740992 * round n)
unfolding round
round-near n h =
    let (p, f) = unit_from-Fits 11 1 n (omega arith) (inl refl) h in
    round_from (unit_from 11 1 n) n p f
