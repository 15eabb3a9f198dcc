-- ===== src/Prelude/Texts.antt =====
-- Text as JavaScript has it: a sequence of code units.
use Prim.Native.Nat.{ℕ}
use Prim.Native.Char.{code}
use Prim.Native.String.{String}
use mathlib.Core.Path.{◌≡◌, refl}
use mathlib.Core.Logic.{◌↔◌}
use mathlib.Core.Bool.{Bool, true, false, ◌&&◌}
use mathlib.Core.List.{List, [], ◌∷◌, ◌++◌}
use native.Mathlib.Omega.{arith}
use file_indexer.Prelude.Tests.{◌==◌}

abbrev pub Text : Type 0
Text = List ℕ

-- The code units of an ASCII literal.
abbrev pub codes : String → Text
codes String.[] = []
codes (String.◌∷◌ c s) = code c ∷ codes s

-- `s === t`
infix 50 ◌===◌
unfoldable pub ◌===◌ : Text → Text → Bool
[] === [] = true
[] === (_ ∷ _) = false
(_ ∷ _) === [] = false
(a ∷ s) === (b ∷ t) = (a == b) && (s === t)

===_sound : (s t : Text) → (s === t) ≡ true → s ≡ t
unfolding ◌===◌
===_sound [] [] h = refl
===_sound [] (_ ∷ _) h = cc
===_sound (_ ∷ _) [] h = cc
===_sound (a ∷ s) (b ∷ t) h = ground (arith, ===_sound s t)

pub ===_refl : (s : Text) → (s === s) ≡ true
unfolding ◌===◌
===_refl [] = refl
===_refl (a ∷ s) = ground (arith, ===_refl s)

===_complete : (s t : Text) → s ≡ t → (s === t) ≡ true
===_complete s t e = rw e (===_refl t)

pub ===_iff : (s t : Text) → ((s === t) ≡ true) ↔ (s ≡ t)
===_iff s t = (===_sound s t, ===_complete s t)

-- `s.startsWith(t)`
unfoldable pub starts_with : Text → Text → Bool
starts_with s [] = true
starts_with [] (_ ∷ _) = false
starts_with (a ∷ s) (b ∷ t) = (a == b) && starts_with s t

pub starts_with-append : (s t : Text) → starts_with (s ++ t) s ≡ true
unfolding starts_with
starts_with-append [] t = refl
starts_with-append (a ∷ s) t = ground (arith, starts_with-append s t)
