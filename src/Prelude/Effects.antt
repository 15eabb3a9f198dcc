-- ===== src/Prelude/Effects.antt =====
-- Asynchronous functions: state passing, with what was done before a throw left done.
use mathlib.Core.Path.{◌≡◌, refl}
use mathlib.Core.Logic.{◌⊎◌, inl, inr}
use file_indexer.Prelude.Results.{Failure, Result, ok, err}

-- An asynchronous function over a state: what was done before a throw stays done.
pub data Outcome {ℓ κ} (S : Type ℓ) (A : Type κ) : Type (ℓ ⊔ κ) where
  done : A → S → Outcome S A
  failed : Failure → S → Outcome S A

abbrev pub Eff {ℓ κ} : Type ℓ → Type κ → Type (ℓ ⊔ κ)
Eff S A = S → Outcome S A

abbrev pub and_then {ℓ κ μ} :
    {S : Type ℓ} {A : Type κ} {B : Type μ} → Outcome S A → (A → Eff S B) → Outcome S B
and_then (done a s) f = f a s
and_then (failed e s) f = failed e s

abbrev pub pure {ℓ κ} : {S : Type ℓ} {A : Type κ} → A → Eff S A
pure a s = done a s

abbrev pub throw {ℓ κ} : {S : Type ℓ} {A : Type κ} → Failure → Eff S A
throw e s = failed e s

abbrev pub lift {ℓ κ} : {S : Type ℓ} {A : Type κ} → Result A → Eff S A
lift (ok a) s = done a s
lift (err e) s = failed e s

infixl 5 ◌>>=◌ ◌>>◌
abbrev pub ◌>>=◌ {ℓ κ μ} :
    {S : Type ℓ} {A : Type κ} {B : Type μ} → Eff S A → (A → Eff S B) → Eff S B
◌>>=◌ m f s = and_then (m s) f

abbrev pub ◌>>◌ {ℓ κ μ} : {S : Type ℓ} {A : Type κ} {B : Type μ} → Eff S A → Eff S B → Eff S B
◌>>◌ m k s = and_then (m s) λ _. k

-- `try { m } catch (e) { h(e) }`
abbrev pub catch_failure {ℓ κ} :
    {S : Type ℓ} {A : Type κ} → Outcome S A → (Failure → Eff S A) → Outcome S A
catch_failure (done a s) h = done a s
catch_failure (failed e s) h = h e s

abbrev pub try_catch {ℓ κ} : {S : Type ℓ} {A : Type κ} → Eff S A → (Failure → Eff S A) → Eff S A
try_catch m h s = catch_failure (m s) h

abbrev pub end_state {ℓ κ} : {S : Type ℓ} {A : Type κ} → Outcome S A → S
end_state (done a s) = s
end_state (failed e s) = s

module _ {ℓ κ μ} {S : Type ℓ} {A : Type κ} {B : Type μ} where
  pub and_then-eq-done :
      (o : Outcome S A) (f : A → Eff S B) {b : B} {t : S}
      → and_then o f ≡ done b t
      → (a : A) × (s : S) × (o ≡ done a s) × (f a s ≡ done b t)
  and_then-eq-done (done a s) f h = (a, s, refl, h)
  and_then-eq-done (failed e s) f h = cc

  pub and_then-eq-failed :
      (o : Outcome S A) (f : A → Eff S B) {e : Failure} {t : S}
      → and_then o f ≡ failed e t
      → (o ≡ failed e t) ⊎ ((a : A) × (s : S) × (o ≡ done a s) × (f a s ≡ failed e t))
  and_then-eq-failed (done a s) f h = inr (a, s, refl, h)
  and_then-eq-failed (failed e s) f h = inl (cc)

module _ {ℓ κ} {S : Type ℓ} {A : Type κ} where
  pub catch-eq-done :
      (o : Outcome S A) (f : Failure → Eff S A) {a : A} {t : S}
      → catch_failure o f ≡ done a t
      → (o ≡ done a t) ⊎ ((e : Failure) × (s : S) × (o ≡ failed e s) × (f e s ≡ done a t))
  catch-eq-done (done a s) f h = inl h
  catch-eq-done (failed e s) f h = inr (e, s, refl, h)

  pub catch-eq-failed :
      (o : Outcome S A) (f : Failure → Eff S A) {e : Failure} {t : S}
      → catch_failure o f ≡ failed e t
      → (c : Failure) × (s : S) × (o ≡ failed c s) × (f c s ≡ failed e t)
  catch-eq-failed (done a s) f h = cc
  catch-eq-failed (failed e s) f h = (e, s, refl, h)

  pub failed-injective :
      {a b : Failure} {s t : S}
      → ◌≡◌ {A = Outcome S A} (failed a s) (failed b t)
      → (a ≡ b) × (s ≡ t)
  failed-injective h = (cc, cc)

  pub done-injective : {a b : A} {s t : S} → done a s ≡ done b t → (a ≡ b) × (s ≡ t)
  done-injective h = (cc, cc)

  pub Outcome-cases :
      (o : Outcome S A)
      → ((a : A) × (s : S) × (o ≡ done a s)) ⊎ ((e : Failure) × (s : S) × (o ≡ failed e s))
  Outcome-cases (done a s) = inl (a, s, refl)
  Outcome-cases (failed e s) = inr (e, s, refl)
