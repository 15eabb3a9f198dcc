-- ===== src/Js/Decimal.antt =====
-- Decimal numerals: `n.toString()` for a non-negative integer, and reading digits in a base.
pub mod Laws
use file_indexer.Prelude.{
  ℕ, zero, suc, ◌+◌, ◌-◌, ◌*◌, ◌/◌, ◌%◌, Bool, false, ◌&&◌, Option, none, some, List, [], ◌∷◌, ◌++◌,
  Text, ltb, leb, all, if◌then◌else◌, ℤ, pos, negsuc,
}

-- Fuel above the number is enough: each digit divides it by ten.
unfoldable pub digits : ℕ → ℕ → Text
digits zero n = []
digits (suc fuel) n =
    let more = digits fuel (n / 10) ++ (b'0' + n % 10) ∷ [] in
    if ltb n 10 then (b'0' + n) ∷ [] else more

unfoldable pub decimal : ℕ → Text
unfolding digits
decimal n = digits (suc n) n

-- `id.toString()` of a bigint
unfoldable pub to_string : ℤ → Text
unfolding decimal
to_string (pos n) = decimal n
to_string (negsuc n) = b'-' ∷ decimal (suc n)

abbrev pub is_digit : ℕ → Bool
is_digit c = leb b'0' c && leb c b'9'

-- `/^\d+$/.test(s)`
unfoldable pub is_numeric : Text → Bool
is_numeric [] = false
is_numeric (c ∷ s) = is_digit c && all is_digit s

-- The value of a digit, where letters count on from ten.
unfoldable pub digit_value : ℕ → Option ℕ
digit_value c =
    if is_digit c
    then some (c - b'0')
    else if leb b'a' c && leb c b'z'
    then some (c - b'a' + 10)
    else if leb b'A' c && leb c b'Z'
    then some (c - b'A' + 10)
    else none

unfoldable pub read_digits : ℕ → ℕ → Text → Option ℕ
unfolding digit_value
read_digits base acc [] = some acc
read_digits base acc (c ∷ s) = elim (digit_value c) [
  | none ↦ none
  | some d ↦ let rest = read_digits base (acc * base + d) s in if ltb d base then rest else none
]
