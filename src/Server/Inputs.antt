-- ===== src/Server/Inputs.antt =====
-- The inputs of the server functions in web/src/server/impl.ts, and the words for their orders.
use file_indexer.Prelude.{ℕ, Option, none, List, [], ◌∷◌, Text, codes, ◌===◌, find}
use file_indexer.Js.Value.{Value, str}

pub data SortFieldInput : Type 0 where
  key last_modified size taken_at : SortFieldInput

pub data SortOrderInput : Type 0 where
  asc desc : SortOrderInput

unfoldable pub sort_field_text : SortFieldInput → Text
sort_field_text key = codes "key"
sort_field_text last_modified = codes "lastModified"
sort_field_text size = codes "size"
sort_field_text taken_at = codes "takenAt"

unfoldable pub sort_order_text : SortOrderInput → Text
sort_order_text asc = codes "asc"
sort_order_text desc = codes "desc"

-- `SORT_FIELDS` and `SORT_ORDERS`
abbrev pub sort_fields : List SortFieldInput
sort_fields = key ∷ last_modified ∷ size ∷ taken_at ∷ []

abbrev pub sort_orders : List SortOrderInput
sort_orders = asc ∷ desc ∷ []

-- `SORT_FIELDS.includes(v)`, with the member that it found
unfoldable pub find_sort_field : Value → Option SortFieldInput
find_sort_field (str s) = find (λ f. sort_field_text f === s) sort_fields
find_sort_field _ = none

unfoldable pub find_sort_order : Value → Option SortOrderInput
find_sort_order (str s) = find (λ o. sort_order_text o === s) sort_orders
find_sort_order _ = none

pub record ListFilesInput : Type 0 where
  pub page_size : Option ℕ
  pub page_token : Option Text
  pub query : Option Text
  pub content_type : Option Text
  pub sort_field : Option SortFieldInput
  pub sort_order : Option SortOrderInput

pub record SearchDirectoriesInput : Type 0 where
  pub page_size : Option ℕ
  pub page_token : Option Text
  pub query : Option Text

pub record ListDirectoryInput : Type 0 where
  pub path : Option Text
  pub page_size : Option ℕ
  pub page_token : Option Text
  pub sort_field : Option SortFieldInput
  pub sort_order : Option SortOrderInput

pub record MoveFileInput : Type 0 where
  pub id : Text
  pub destination_key : Text
