-- ===== src/Js/Value.antt =====
-- A value of type `unknown`, and reading a property of it.
use file_indexer.Prelude.{ℕ, ℤ, Text, ◌===◌, if◌then◌else◌, Bool}

-- The bit pattern of a double: the program moves such numbers, and never computes with them.
abbrev pub Double : Type 0
Double = ℕ

mutual
  pub data Value : Type 0 where
    undefined null : Value
    bool : Bool → Value
    -- a number that is an integer
    int : ℤ → Value
    -- a fraction, an infinity or NaN
    other_number : Double → Value
    str : Text → Value
    arr : Values → Value
    obj : Fields → Value

  pub data Values : Type 0 where
    nil : Values
    cons : Value → Values → Values

  pub data Fields : Type 0 where
    end : Fields
    field : Text → Value → Fields → Fields

unfoldable pub get_field : Fields → Text → Value
get_field end name = undefined
get_field (field key v rest) name = if key === name then v else get_field rest name

-- `(v ?? {})[name]`, for a name that no built-in prototype has.
unfoldable pub get : Value → Text → Value
unfolding get_field
get (obj fs) name = get_field fs name
get _ name = undefined
