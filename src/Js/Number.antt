-- ===== src/Js/Number.antt =====
-- `Number(n)` of a bigint below 2^64 in size: the nearest double, ties to the even significand.
pub mod Laws
use file_indexer.Prelude.{
  ℕ, zero, suc, ◌+◌, ◌*◌, ◌/◌, ◌%◌, ◌||◌, ◌&&◌, ltb, ◌==◌, if◌then◌else◌, ℤ, pos, negsuc,
}

-- 2^53, the integers below which are all doubles.
abbrev pub exact_limit : ℕ
exact_limit = 9007199254740992

-- The distance between doubles at `n`: doubled until 53 bits reach.
unit_from : ℕ → ℕ → ℕ → ℕ
unit_from zero u n = u
unit_from (suc fuel) u n = if ltb n (exact_limit * u) then u else unit_from fuel (2 * u) n

round_to : ℕ → ℕ → ℕ
round_to u n =
    if ltb u (2 * (n % u)) || (2 * (n % u) == u && (n / u) % 2 == 1)
    then (n / u + 1) * u
    else (n / u) * u

unfoldable pub round : ℕ → ℕ
unfolding unit_from round_to
round n = round_to (unit_from 11 1 n) n

abbrev minus : ℕ → ℤ
minus zero = pos 0
minus (suc n) = negsuc n

unfoldable pub to_number : ℤ → ℤ
unfolding round
to_number (pos n) = pos (round n)
to_number (negsuc n) = minus (round (suc n))
