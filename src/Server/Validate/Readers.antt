-- ===== src/Server/Validate/Readers.antt =====
-- Which fields the readers of single fields accept.
use file_indexer.Prelude.{
  ℕ, zero, suc, pos, ◌≡◌, refl, ap, sym, find-true, ◌≤◌, Option, none, some, Text, ok, arith,
  ===_iff, ◌===◌,
}
use file_indexer.Js.Value.{Value, undefined, int, str}
use file_indexer.Server.Inputs.{
  SortFieldInput, key, last_modified, size, taken_at, SortOrderInput, asc, desc, sort_field_text,
  sort_order_text, sort_fields, sort_orders, find_sort_field, find_sort_order,
}
use file_indexer.Server.Validate.{read_page_size, read_text, read_sort_field, read_sort_order}

-- A field that may be missing, and is right if it is there.
pub data Optional {A : Type 0} (Is : Value → A → Type 0) : Value → Option A → Type 0 where
  absent : Optional Is undefined none
  present : {v : Value} {a : A} → Is v a → Optional Is v (some a)

abbrev pub IsPageSize : Value → ℕ → Type 0
IsPageSize v n = (v ≡ int (pos n)) × (1 ≤ n)

abbrev pub IsText : Value → Text → Type 0
IsText v s = v ≡ str s

abbrev pub IsSortField : Value → SortFieldInput → Type 0
IsSortField v f = v ≡ str (sort_field_text f)

abbrev pub IsSortOrder : Value → SortOrderInput → Type 0
IsSortOrder v o = v ≡ str (sort_order_text o)

pub read_page_size_sound :
    (v : Value) (o : Option ℕ) → read_page_size v ≡ ok o → Optional IsPageSize v o
unfolding read_page_size
read_page_size_sound undefined none h = absent
read_page_size_sound undefined (some n) h = cc
read_page_size_sound (int (pos (suc n))) none h = cc
read_page_size_sound (int (pos (suc n))) (some m) h =
    let e : suc n ≡ m = ground arith in present (ap (λ k. int (pos k)) e, omega arith)
read_page_size_sound _ o h = cc

pub read_page_size_complete :
    {v : Value} {o : Option ℕ} → Optional IsPageSize v o → read_page_size v ≡ ok o
unfolding read_page_size
read_page_size_complete absent = refl
read_page_size_complete (present {a = zero} (e, h)) = absurd (omega arith)
read_page_size_complete (present {a = suc n} (e, h)) = rw e

pub read_text_sound :
    (name : Text) (v : Value) (o : Option Text) → read_text name v ≡ ok o → Optional IsText v o
unfolding read_text
read_text_sound name undefined none h = absent
read_text_sound name undefined (some t) h = cc
read_text_sound name (str s) none h = cc
read_text_sound name (str s) (some t) h = present (cc)
read_text_sound name _ o h = cc

pub read_text_complete :
    (name : Text) {v : Value} {o : Option Text} → Optional IsText v o → read_text name v ≡ ok o
unfolding read_text
read_text_complete name absent = refl
read_text_complete name (present e) = rw e

find_sort_field_sound :
    (v : Value) (f : SortFieldInput) → find_sort_field v ≡ some f → IsSortField v f
unfolding find_sort_field
find_sort_field_sound (str s) f h = ap str (
    sym
      ((===_iff (sort_field_text f) s).0 (find-true (λ f. sort_field_text f === s) sort_fields h)))
find_sort_field_sound _ f h = cc

pub find_sort_field-text : (f : SortFieldInput) → find_sort_field (str (sort_field_text f)) ≡ some f
unfolding find_sort_field ◌===◌ sort_field_text
find_sort_field-text key = refl
find_sort_field-text last_modified = refl
find_sort_field-text size = refl
find_sort_field-text taken_at = refl

pub read_sort_field_sound :
    (v : Value) (o : Option SortFieldInput) → read_sort_field v ≡ ok o → Optional IsSortField v o
unfolding read_sort_field
read_sort_field_sound undefined none h = absent
read_sort_field_sound undefined (some f) h = cc
read_sort_field_sound v none h = ground arith
read_sort_field_sound v (some f) h = present (find_sort_field_sound v f (ground arith))

pub read_sort_field_complete :
    {v : Value} {o : Option SortFieldInput} → Optional IsSortField v o → read_sort_field v ≡ ok o
unfolding read_sort_field
read_sort_field_complete absent = refl
read_sort_field_complete (present {a = f} e) = rw e (rw (find_sort_field-text f) refl)

find_sort_order_sound :
    (v : Value) (o : SortOrderInput) → find_sort_order v ≡ some o → IsSortOrder v o
unfolding find_sort_order
find_sort_order_sound (str s) o h = ap str (
    sym
      ((===_iff (sort_order_text o) s).0 (find-true (λ o. sort_order_text o === s) sort_orders h)))
find_sort_order_sound _ o h = cc

pub find_sort_order-text : (o : SortOrderInput) → find_sort_order (str (sort_order_text o)) ≡ some o
unfolding find_sort_order ◌===◌ sort_order_text
find_sort_order-text asc = refl
find_sort_order-text desc = refl

pub read_sort_order_sound :
    (v : Value) (o : Option SortOrderInput) → read_sort_order v ≡ ok o → Optional IsSortOrder v o
unfolding read_sort_order
read_sort_order_sound undefined none h = absent
read_sort_order_sound undefined (some f) h = cc
read_sort_order_sound v none h = ground arith
read_sort_order_sound v (some f) h = present (find_sort_order_sound v f (ground arith))

pub read_sort_order_complete :
    {v : Value} {o : Option SortOrderInput} → Optional IsSortOrder v o → read_sort_order v ≡ ok o
unfolding read_sort_order
read_sort_order_complete absent = refl
read_sort_order_complete (present {a = o} e) = rw e (rw (find_sort_order-text o) refl)
