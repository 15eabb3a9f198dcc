-- ===== src/Prelude/Results.antt =====
-- What a synchronous function throws, and its result.
use mathlib.Core.Path.{◌≡◌, refl}
use mathlib.Core.Logic.{◌⊎◌, inl, inr}
use mathlib.Core.List.{List, [], ◌∷◌}
use file_indexer.Prelude.Texts.{Text}

pub data Failure : Type 0 where
  -- `new Error(message)`
  error : Text → Failure
  -- `new UploadCancelledError(key)`
  upload_cancelled : Text → Failure
  -- thrown by the language: `BigInt` of malformed text, `toISOString` of an invalid date
  syntax_error range_error : Failure
  -- the reason of a promise that code outside the program rejects, as `String(reason)` shows it
  rejected : Text → Failure

pub data Result {ℓ} (A : Type ℓ) : Type ℓ where
  ok : A → Result A
  err : Failure → Result A

pub ok-injective {ℓ} : {A : Type ℓ} {a b : A} → ok a ≡ ok b → a ≡ b
ok-injective h = cc

pub Result-cases {ℓ} :
    {A : Type ℓ} (r : Result A) → ((a : A) × (r ≡ ok a)) ⊎ ((e : Failure) × (r ≡ err e))
Result-cases (ok a) = inl (a, refl)
Result-cases (err e) = inr (e, refl)

module _ {ℓ κ} {A : Type ℓ} {B : Type κ} where
  abbrev pub map_result : (A → B) → Result A → Result B
  map_result f (ok a) = ok (f a)
  map_result f (err e) = err e

  -- The rest of a function does not run after a throw.
  infixl 5 ◌>>=◌
  abbrev pub ◌>>=◌ : Result A → (A → Result B) → Result B
  err e >>= rest = err e
  ok a >>= rest = rest a

  -- What a function that returned was made of.
  pub >>=-eq-ok :
      (first : Result A) (rest : A → Result B) {out : B}
      → (first >>= rest) ≡ ok out
      → (a : A) × (first ≡ ok a) × (rest a ≡ ok out)
  >>=-eq-ok (err e) rest returned = cc
  >>=-eq-ok (ok a) rest returned = (a, refl, returned)

-- `xs.map(f)` where `f` may throw: the first throw ends it.
unfoldable pub map_all {ℓ κ} : {A : Type ℓ} {B : Type κ} → (A → Result B) → List A → Result (List B)
map_all f [] = ok []
map_all f (x ∷ xs) = do y ← f x; ys ← map_all f xs; ok (y ∷ ys)
