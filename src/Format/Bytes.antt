-- ===== src/Format/Bytes.antt =====
-- How near a printed size is to the size.
use file_indexer.Prelude.{
  false, ℕ, ◌+◌, ◌*◌, ◌≤◌, ◌<◌, ◌≡◌, refl, inl, inr, arith, pos, [], ◌∷◌, ◌++◌, Text, ltb,
  Bool-cases, ltb→lt, ltb-eq-false→le,
}
use file_indexer.Format.{
  Unit1024, kb, mb, gb, tb, unit_text, scale, tenths, fixed_text, scaled_text, format_bytes,
}

abbrev pub unit_size : Unit1024 → ℕ
unit_size kb = 1024
unit_size mb = 1048576
unit_size gb = 1073741824
unit_size tb = 1099511627776

-- The largest unit is not too small for a number, or the number is below the next one.
abbrev pub Below : ℕ → Unit1024 → Type 0
Below n tb = Unit
Below n u = n < 1024 * unit_size u

-- A number of tenths is nearest to the bytes in this unit.
abbrev pub IsNearest : ℕ → Unit1024 → ℕ → Type 0
IsNearest n u m =
    (2 * (m * unit_size u) ≤ 20 * n + unit_size u) × (20 * n < 2 * (m * unit_size u) + unit_size u)

tenths-IsNearest : (n : ℕ) (u : Unit1024) → IsNearest n u (tenths n (unit_size u))
unfolding tenths
tenths-IsNearest n kb = (omega arith, omega arith)
tenths-IsNearest n mb = (omega arith, omega arith)
tenths-IsNearest n gb = (omega arith, omega arith)
tenths-IsNearest n tb = (omega arith, omega arith)

-- What the loop ends with.
Scaled : ℕ → ℕ × Unit1024 → Type 0
Scaled n (divisor, u) = (divisor ≡ unit_size u) × (unit_size u ≤ n) × Below n u

scale-Scaled : (n : ℕ) → 1024 ≤ n → Scaled n (scale n 1024 kb (mb ∷ gb ∷ tb ∷ []))
unfolding scale Scaled
scale-Scaled n h = elim (Bool-cases (ltb n 1048576)) [
  | inl below ↦ rw below (refl, h, ltb→lt n 1048576 below)
  | inr over ↦ rw over (elim (Bool-cases (ltb n 1073741824)) [
    | inl below ↦ rw below (refl, ltb-eq-false→le n 1048576 over, ltb→lt n 1073741824 below)
    | inr more ↦ rw more (elim (Bool-cases (ltb n 1099511627776)) [
      | inl below ↦ rw below (refl, ltb-eq-false→le n 1073741824 more, ltb→lt n 1099511627776 below)
      | inr most ↦ rw most (refl, ltb-eq-false→le n 1099511627776 most, tt)
    ])
  ])
]

Printed : ℕ → Text → Type 0
Printed n text =
    (u : Unit1024) × (m : ℕ) × (text ≡ fixed_text m ++ (b' ' ∷ unit_text u))
    × (unit_size u ≤ n)
    × Below n u
    × IsNearest n u m

scaled_text-Printed : (n : ℕ) (s : ℕ × Unit1024) → Scaled n s → Printed n (scaled_text n s)
unfolding Scaled Printed
scaled_text-Printed n (divisor, u) (e, least, below) =
    (u, tenths n (unit_size u), rw e refl, least, below, tenths-IsNearest n u)

-- A size of 1 KB or more is printed as tenths of a unit: of the largest that the size is not below,
-- up to terabytes, and as the number of tenths that is nearest to the size.
pub format_bytes-IsNearest :
    (n : ℕ)
    → 1024 ≤ n
    → (u : Unit1024) × (m : ℕ) × (format_bytes (pos n) ≡ fixed_text m ++ (b' ' ∷ unit_text u))
      × (unit_size u ≤ n)
      × Below n u
      × IsNearest n u m
unfolding format_bytes Printed
format_bytes-IsNearest n h =
    let large : ltb n 1024 ≡ false = ground arith in
    rw large (scaled_text-Printed n (scale n 1024 kb (mb ∷ gb ∷ tb ∷ [])) (scale-Scaled n h))
