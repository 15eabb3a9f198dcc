-- ===== src/Js/BigInt/Laws.antt =====
-- `BigInt` on the texts that the program hands to it.
use file_indexer.Prelude.{
  ℕ, ◌*◌, ◌+◌, ◌-◌, ◌≡◌, ◌≢◌, ap, ◌∙◌, sym, true, [], ◌∷◌, Text, pos, arith, ok, All,
}
use file_indexer.Js.Space.{trim-All, NotSpace, is_space}
use file_indexer.Js.Decimal.{decimal, is_numeric, read_digits}
use file_indexer.Js.Decimal.Laws.{
  IsDigit, decimal-cons, read_digits-decimal_self, read_digits-total, is_numeric-cons,
  read_digits-digit, read_digits-nil, decimal-read_digits,
}
use file_indexer.Js.BigInt.{big_int, read_int, after_zero, read_numeral, or_syntax_error}

IsDigit-NotSpace : (c : ℕ) → IsDigit c → NotSpace c
unfolding is_space
IsDigit-NotSpace c h = ground arith

All-IsDigit-NotSpace : (s : Text) → All IsDigit s → All NotSpace s
All-IsDigit-NotSpace [] h = tt
All-IsDigit-NotSpace (c ∷ s) (p, h) = (IsDigit-NotSpace c p, All-IsDigit-NotSpace s h)

big_int-trimmed : (s : Text) → All NotSpace s → big_int s ≡ read_int s
unfolding big_int
big_int-trimmed s h = ap read_int (trim-All s h)

read_int-digits :
    (c : ℕ) (s : Text)
    → All IsDigit (c ∷ s)
    → read_int (c ∷ s) ≡ or_syntax_error pos (read_digits 10 0 (c ∷ s))
unfolding read_int after_zero read_numeral
read_int-digits c [] (p, h) =
    ground (arith, read_digits-digit 0 c [] p, read_digits-nil 10 (0 * 10 + (c - b'0')))
read_int-digits c (d ∷ s) (p, (q, h)) = ground arith

big_int-digits :
    (c : ℕ) (s : Text)
    → All IsDigit (c ∷ s)
    → big_int (c ∷ s) ≡ or_syntax_error pos (read_digits 10 0 (c ∷ s))
big_int-digits c s h =
    big_int-trimmed (c ∷ s) (All-IsDigit-NotSpace (c ∷ s) h) ∙ read_int-digits c s h

pub big_int-decimal : (n : ℕ) → big_int (decimal n) ≡ ok (pos n)
big_int-decimal n =
    let (c, s, e, h) = decimal-cons n in
    ap big_int e
    ∙ big_int-digits c s h
    ∙ ap (or_syntax_error pos) (ap (read_digits 10 0) (sym e) ∙ read_digits-decimal_self n)

-- `BigInt` accepts whatever passes for a numeric string.
pub big_int-is_numeric : (s : Text) → is_numeric s ≡ true → (n : ℕ) × (big_int s ≡ ok (pos n))
big_int-is_numeric s h =
    let (c, t, e, d) = is_numeric-cons s h in
    let (n, found) = read_digits-total (c ∷ t) 0 d in
    (n, ap big_int e ∙ big_int-digits c t d ∙ ap (or_syntax_error pos) found)

-- A numeral with no zero in front is printed back as it was read.
pub decimal-big_int :
    (c : ℕ) (s : Text)
    → All IsDigit (c ∷ s)
    → c ≢ b'0'
    → (n : ℕ) × (big_int (c ∷ s) ≡ ok (pos n)) × (decimal n ≡ c ∷ s)
decimal-big_int c s h k =
    let (n, found, same) = decimal-read_digits c s h k in
    (n, big_int-digits c s h ∙ ap (or_syntax_error pos) found, same)
