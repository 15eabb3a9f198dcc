-- ===== src/Server/Validate/Ids.antt =====
-- File ids: what passes for one, and what the services are asked for.
use file_indexer.Prelude.{
  ℕ, pos, ◌≡◌, true, Text, codes, ok, arith, Bool-cases, inl, inr, ap, subst, [], ◌∷◌, ◌≢◌,
  >>=-eq-ok, ok-injective,
}
use file_indexer.Js.Value.{Value, str, get}
use file_indexer.Js.Decimal.{is_numeric}
use file_indexer.Js.BigInt.{big_int}
use file_indexer.Js.BigInt.Laws.{big_int-is_numeric}
use file_indexer.Server.Validate.{
  require_numeric, require_text, validate_id_input, validate_move_file_input,
}
use file_indexer.Server.Inputs.{MoveFileInput}

pub require_numeric_sound :
    (v : Value) (id : Text) → require_numeric v ≡ ok id → (v ≡ str id) × (is_numeric id ≡ true)
unfolding require_numeric
require_numeric_sound (str s) id h = elim (Bool-cases (is_numeric s)) [
  | inl yes_numeric ↦
      let e : s ≡ id = ground arith in (ap str e, subst (λ t. is_numeric t ≡ true) e yes_numeric)
  | inr other ↦ ground arith
]
require_numeric_sound _ id h = cc

-- An id that `validateIdInput` accepts stands in the input's `id`, and `BigInt` makes a non-negative
-- integer of it without throwing.
pub validate_id_input-big_int :
    (input : Value) (id : Text)
    → validate_id_input input ≡ ok id
    → (get input (codes "id") ≡ str id) × ((n : ℕ) × (big_int id ≡ ok (pos n)))
unfolding validate_id_input
validate_id_input-big_int input id h =
    let (e, numeric) = require_numeric_sound (get input (codes "id")) id h in
    (e, big_int-is_numeric id numeric)

pub require_text_sound :
    (name : Text) (v : Value) (s : Text) → require_text name v ≡ ok s → (v ≡ str s) × (s ≢ [])
unfolding require_text
require_text_sound name (str (c ∷ t)) s h = (ap str (ok-injective h), λ e. cc)
require_text_sound name _ s h = cc

-- A move that `validateMoveFileInput` accepts takes the input's `id`, of which `BigInt` makes a
-- non-negative integer without throwing, and the input's `destinationKey`, which is not empty.
pub validate_move_file_input-parts :
    (input : Value) (out : MoveFileInput)
    → validate_move_file_input input ≡ ok out
    → (n : ℕ) × (get input (codes "id") ≡ str out.id)
      × (big_int out.id ≡ ok (pos n))
      × (get input (codes "destinationKey") ≡ str out.destination_key)
      × (out.destination_key ≢ [])
unfolding validate_move_file_input
validate_move_file_input-parts input out h =
    let (id, ri, h) = >>=-eq-ok (require_numeric (get input (codes "id"))) _ h in
    let (key, rk, h) =
      >>=-eq-ok (require_text (codes "destinationKey") (get input (codes "destinationKey"))) _ h in
    let (named, numeric) = require_numeric_sound (get input (codes "id")) id ri in
    let (n, read) = big_int-is_numeric id numeric in
    let (target, full) =
      require_text_sound (codes "destinationKey") (get input (codes "destinationKey")) key rk in
    let made = ok-injective h in
    subst
      (λ (o : MoveFileInput).
        (n : ℕ) × (get input (codes "id") ≡ str o.id)
        × (big_int o.id ≡ ok (pos n))
        × (get input (codes "destinationKey") ≡ str o.destination_key)
        × (o.destination_key ≢ []))
      made (n, named, read, target, full)
