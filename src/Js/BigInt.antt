-- ===== src/Js/BigInt.antt =====
-- `BigInt(text)`.
pub mod Laws
use file_indexer.Prelude.{
  ℕ, zero, suc, ◌||◌, Option, none, some, List, [], ◌∷◌, Text, ◌==◌, if◌then◌else◌, ℤ, pos, negsuc,
  Result, ok, err, syntax_error,
}
use file_indexer.Js.Space.{trim}
use file_indexer.Js.Decimal.{read_digits}

-- One digit at least.
read_numeral : ℕ → Text → Option ℕ
read_numeral base [] = none
read_numeral base (c ∷ s) = read_digits base 0 (c ∷ s)

abbrev negate : ℕ → ℤ
negate zero = pos 0
negate (suc n) = negsuc n

abbrev or_syntax_error : (ℕ → ℤ) → Option ℕ → Result ℤ
or_syntax_error f none = err syntax_error
or_syntax_error f (some n) = ok (f n)

-- What follows a leading zero: a base prefix, or more decimal digits.
after_zero : Text → Option ℕ
after_zero [] = some 0
after_zero (c ∷ s) =
    if c == b'x' || c == b'X'
    then read_numeral 16 s
    else if c == b'o' || c == b'O'
    then read_numeral 8 s
    else if c == b'b' || c == b'B'
    then read_numeral 2 s
    else read_numeral 10 (b'0' ∷ c ∷ s)

read_int : Text → Result ℤ
read_int [] = ok (pos 0)
read_int (c ∷ s) =
    if c == b'+'
    then or_syntax_error pos (read_numeral 10 s)
    else if c == b'-'
    then or_syntax_error negate (read_numeral 10 s)
    else if c == b'0'
    then or_syntax_error pos (after_zero s)
    else or_syntax_error pos (read_numeral 10 (c ∷ s))

unfoldable pub big_int : Text → Result ℤ
unfolding trim read_int after_zero read_numeral read_digits
big_int s = read_int (trim s)
