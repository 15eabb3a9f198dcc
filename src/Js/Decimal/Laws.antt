-- ===== src/Js/Decimal/Laws.antt =====
-- Printing a number and reading it back, both ways round.
use file_indexer.Prelude.{
  ℕ, zero, suc, ◌+◌, ◌-◌, ◌*◌, ◌/◌, ◌%◌, ◌<◌, ◌≤◌, ◌≡◌, refl, ◌≢◌, ap, ◌∙◌, sym, true, some, [],
  ◌∷◌, ◌++◌, Text, ltb, all, ℤ, pos, negsuc, arith, Bool-cases, inl, inr, ltb-eq-false→le, ltb→lt,
  lt→ltb, append-nil, append_assoc, All, All-append, subst,
}
use file_indexer.Js.Decimal.{digits, decimal, to_string, is_digit, is_numeric, read_digits}

abbrev pub IsDigit : ℕ → Type 0
IsDigit c = (b'0' ≤ c) × (c ≤ b'9')

pub is_digit→IsDigit : (c : ℕ) → is_digit c ≡ true → IsDigit c
is_digit→IsDigit c h = ground arith

pub all-is_digit→IsDigit : (s : Text) → all is_digit s ≡ true → All IsDigit s
all-is_digit→IsDigit [] h = tt
all-is_digit→IsDigit (c ∷ s) h =
    (is_digit→IsDigit c (ground arith), all-is_digit→IsDigit s (ground arith))

digits-IsDigit : (fuel n : ℕ) → All IsDigit (digits fuel n)
unfolding digits
digits-IsDigit zero n = tt
digits-IsDigit (suc fuel) n = elim (Bool-cases (ltb n 10)) [
  | inl small ↦ rw small ((omega arith, (let h = ltb→lt n 10 small in omega arith)), tt)
  | inr large ↦
      rw large (
        All-append IsDigit (digits fuel (n / 10)) _ (digits-IsDigit fuel (n / 10))
          (omega arith, tt))
]

pub decimal-IsDigit : (n : ℕ) → All IsDigit (decimal n)
unfolding decimal
decimal-IsDigit n = digits-IsDigit (suc n) n

-- Any fuel above the number gives the same digits.
digits-fuel : (f g n : ℕ) → n < f → n < g → digits f n ≡ digits g n
unfolding digits
digits-fuel zero g n h k = absurd (omega arith)
digits-fuel (suc f) zero n h k = absurd (omega arith)
digits-fuel (suc f) (suc g) n h k = elim (Bool-cases (ltb n 10)) [
  | inl small ↦ rw small refl
  | inr large ↦
      let big = ltb-eq-false→le n 10 large in
      rw large
        (ap (λ s. s ++ (b'0' + n % 10) ∷ []) (digits-fuel f g (n / 10) (omega arith) (omega arith)))
]

pub decimal-small : (n : ℕ) → n < 10 → decimal n ≡ (b'0' + n) ∷ []
unfolding decimal
decimal-small n h = rw (lt→ltb n 10 h)

decimal-large : (n : ℕ) → 10 ≤ n → decimal n ≡ decimal (n / 10) ++ (b'0' + n % 10) ∷ []
unfolding decimal
decimal-large n h = elim (Bool-cases (ltb n 10)) [
  | inl small ↦ absurd (let k = ltb→lt n 10 small in omega arith)
  | inr large ↦ rw large (
      ap (λ s. s ++ (b'0' + n % 10) ∷ [])
        (digits-fuel n (suc (n / 10)) (n / 10) (omega arith) (omega arith)))
]

pub decimal-step : (a d : ℕ) → 1 ≤ a → d < 10 → decimal (a * 10 + d) ≡ decimal a ++ (b'0' + d) ∷ []
decimal-step a d h k =
    let q : (a * 10 + d) / 10 ≡ a = omega arith in
    let r : (a * 10 + d) % 10 ≡ d = omega arith in
    decimal-large (a * 10 + d) (omega arith) ∙ rw (q, r)

-- A digit moves the number that was read up by a decimal place.
pub read_digits-digit :
    (acc c : ℕ) (s : Text)
    → IsDigit c
    → read_digits 10 acc (c ∷ s) ≡ read_digits 10 (acc * 10 + (c - b'0')) s
unfolding read_digits
read_digits-digit acc c s h = ground arith

read_digits-digits :
    (fuel n : ℕ) (t : Text) → n < fuel → read_digits 10 0 (digits fuel n ++ t) ≡ read_digits 10 n t
unfolding digits
read_digits-digits zero n t h = absurd (omega arith)
read_digits-digits (suc fuel) n t h = elim (Bool-cases (ltb n 10)) [
  | inl small ↦
      let k = ltb→lt n 10 small in
      let e : 0 * 10 + (b'0' + n - b'0') ≡ n = omega arith in
      rw small (read_digits-digit 0 (b'0' + n) t (omega arith) ∙ rw e)
  | inr large ↦
      let k = ltb-eq-false→le n 10 large in
      let e : n / 10 * 10 + (b'0' + n % 10 - b'0') ≡ n = omega arith in
      rw (large, append_assoc)
        (read_digits-digits fuel (n / 10) ((b'0' + n % 10) ∷ t) (omega arith)
          ∙ read_digits-digit (n / 10) (b'0' + n % 10) t (omega arith)
          ∙ rw e)
]

pub read_digits-decimal :
    (n : ℕ) (t : Text) → read_digits 10 0 (decimal n ++ t) ≡ read_digits 10 n t
unfolding decimal
read_digits-decimal n t = read_digits-digits (suc n) n t (omega arith)

-- Digits behind a positive number are its further digits.
read_digits-further :
    (s : Text) (acc : ℕ)
    → All IsDigit s
    → 1 ≤ acc
    → (v : ℕ) × (read_digits 10 acc s ≡ some v) × (decimal v ≡ decimal acc ++ s)
unfolding read_digits
read_digits-further [] acc h k = (acc, refl, sym (append-nil _))
read_digits-further (c ∷ s) acc (p, h) k =
    let d = c - b'0' in
    let e : b'0' + d ≡ c = omega arith in
    let (v, found, same) = read_digits-further s (acc * 10 + d) h (omega arith) in
    (
      v,
      read_digits-digit acc c s p ∙ found,
      same
          ∙ ap (λ t. t ++ s) (decimal-step acc d k (omega arith))
          ∙ append_assoc (decimal acc) _ s
          ∙ rw e,
    )

-- A numeral with no zero in front is what the number that it denotes prints as.
pub decimal-read_digits :
    (c : ℕ) (s : Text)
    → All IsDigit (c ∷ s)
    → c ≢ b'0'
    → (v : ℕ) × (read_digits 10 0 (c ∷ s) ≡ some v) × (decimal v ≡ c ∷ s)
decimal-read_digits c s (p, h) k =
    let d = c - b'0' in
    let e : b'0' + d ≡ c = omega arith in
    let z : 0 * 10 + d ≡ d = omega arith in
    let (v, found, same) = read_digits-further s d h (omega arith) in
    (v, read_digits-digit 0 c s p ∙ rw z found, same ∙ rw (decimal-small d (omega arith), e))

pub read_digits-nil : (base acc : ℕ) → read_digits base acc [] ≡ some acc
unfolding read_digits
read_digits-nil base acc = refl

-- Digits always denote a number.
pub read_digits-total :
    (s : Text) (acc : ℕ) → All IsDigit s → (v : ℕ) × (read_digits 10 acc s ≡ some v)
unfolding read_digits
read_digits-total [] acc h = (acc, refl)
read_digits-total (c ∷ s) acc (p, h) =
    let (v, found) = read_digits-total s (acc * 10 + (c - b'0')) h in
    (v, read_digits-digit acc c s p ∙ found)

-- The first digit of a positive number is not zero.
digits-head :
    (fuel n : ℕ) → 1 ≤ n → n < fuel → (c : ℕ) × (s : Text) × (digits fuel n ≡ c ∷ s) × (c ≢ b'0')
unfolding digits
digits-head zero n h k = absurd (omega arith)
digits-head (suc fuel) n h k = elim (Bool-cases (ltb n 10)) [
  | inl small ↦ (b'0' + n, [], rw small, omega arith)
  | inr large ↦
      let big = ltb-eq-false→le n 10 large in
      let (c, s, e, ne) = digits-head fuel (n / 10) (omega arith) (omega arith) in
      (c, s ++ (b'0' + n % 10) ∷ [], rw (large, e), ne)
]

pub decimal-head : (n : ℕ) → 1 ≤ n → (c : ℕ) × (s : Text) × (decimal n ≡ c ∷ s) × (c ≢ b'0')
unfolding decimal
decimal-head n h = digits-head (suc n) n h (omega arith)

pub decimal-cons : (n : ℕ) → (c : ℕ) × (s : Text) × (decimal n ≡ c ∷ s) × All IsDigit (c ∷ s)
decimal-cons zero = (b'0', [], decimal-small 0 (omega arith), omega arith)
decimal-cons (suc n) =
    let (c, s, e, _) = decimal-head (suc n) (omega arith) in
    (c, s, e, subst (All IsDigit) e (decimal-IsDigit (suc n)))

pub read_digits-decimal_self : (n : ℕ) → read_digits 10 0 (decimal n) ≡ some n
unfolding read_digits
read_digits-decimal_self n =
    ap (read_digits 10 0) (sym (append-nil (decimal n))) ∙ read_digits-decimal n []

pub decimal-injective : (n m : ℕ) → decimal n ≡ decimal m → n ≡ m
decimal-injective n m e =
    let p =
      sym (read_digits-decimal_self n) ∙ ap (read_digits 10 0) e ∙ read_digits-decimal_self m in
    cc

minus-ne-decimal : (n : ℕ) (s : Text) → b'-' ∷ s ≢ decimal n
minus-ne-decimal n s h =
    let (c, t, e, (digit, _)) = decimal-cons n in let same : b'-' ≡ c = cc in omega arith

-- Different integers print differently.
pub to_string-injective : (a b : ℤ) → to_string a ≡ to_string b → a ≡ b
unfolding to_string
to_string-injective (pos n) (pos m) e = ap pos (decimal-injective n m e)
to_string-injective (negsuc n) (negsuc m) e = let p = decimal-injective (suc n) (suc m) (cc) in cc
to_string-injective (pos n) (negsuc m) e = absurd (minus-ne-decimal n (decimal (suc m)) (sym e))
to_string-injective (negsuc n) (pos m) e = absurd (minus-ne-decimal m (decimal (suc n)) e)

pub is_numeric-cons :
    (s : Text) → is_numeric s ≡ true → (c : ℕ) × (t : Text) × (s ≡ c ∷ t) × All IsDigit (c ∷ t)
unfolding is_numeric
is_numeric-cons [] h = cc
is_numeric-cons (c ∷ t) h =
    (c, t, refl, (is_digit→IsDigit c (ground arith), all-is_digit→IsDigit t (ground arith)))
