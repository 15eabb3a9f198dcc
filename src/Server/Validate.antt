-- ===== src/Server/Validate.antt =====
-- The input validators of web/src/server/impl.ts: `unknown` in, a typed input or a throw out.
pub mod Readers
pub mod Listings
pub mod Ids
use file_indexer.Prelude.{
  ℕ, suc, ℤ, pos, Option, none, some, List, [], ◌∷◌, ◌++◌, map, Text, codes, if◌then◌else◌, Result,
  ok, err, error,
}
use file_indexer.Prelude.Results.{◌>>=◌}
use file_indexer.Js.Value.{Value, undefined, int, str, arr, Values, nil, cons, get}
use file_indexer.Js.Decimal.{is_numeric}
use file_indexer.Js.Join.{join}
use file_indexer.Server.Inputs.{
  SortFieldInput, SortOrderInput, sort_field_text, sort_order_text, sort_fields, sort_orders,
  find_sort_field, find_sort_order, ListFilesInput, SearchDirectoriesInput, ListDirectoryInput,
  MoveFileInput,
}

-- A number that is an integer and at least 1, if the field is there.
unfoldable pub read_page_size : Value → Result (Option ℕ)
read_page_size undefined = ok none
read_page_size (int (pos (suc n))) = ok (some (suc n))
read_page_size _ = err (error (codes "pageSize must be a positive integer"))

-- A string, if the field is there.
unfoldable pub read_text : Text → Value → Result (Option Text)
read_text name undefined = ok none
read_text name (str s) = ok (some s)
read_text name _ = err (error (name ++ codes " must be a string"))

abbrev one_of {ℓ} : {A : Type ℓ} → Text → Option A → Result (Option A)
one_of message none = err (error message)
one_of message (some a) = ok (some a)

unfoldable pub read_sort_field : Value → Result (Option SortFieldInput)
read_sort_field undefined = ok none
read_sort_field v =
    one_of
      (codes "sortField must be one of " ++ join (codes ", ") (map sort_field_text sort_fields))
      (find_sort_field v)

unfoldable pub read_sort_order : Value → Result (Option SortOrderInput)
read_sort_order undefined = ok none
read_sort_order v =
    one_of
      (codes "sortOrder must be one of " ++ join (codes ", ") (map sort_order_text sort_orders))
      (find_sort_order v)

unfoldable pub validate_list_files_input : Value → Result ListFilesInput
validate_list_files_input input = do
  page_size ← read_page_size (get input (codes "pageSize"))
  page_token ← read_text (codes "pageToken") (get input (codes "pageToken"))
  query ← read_text (codes "query") (get input (codes "query"))
  content_type ← read_text (codes "contentType") (get input (codes "contentType"))
  sort_field ← read_sort_field (get input (codes "sortField"))
  sort_order ← read_sort_order (get input (codes "sortOrder"))
  ok (record {
    page_size = page_size;
    page_token = page_token;
    query = query;
    content_type = content_type;
    sort_field = sort_field;
    sort_order = sort_order;
  })

unfoldable pub validate_search_directories_input : Value → Result SearchDirectoriesInput
validate_search_directories_input input = do
  page_size ← read_page_size (get input (codes "pageSize"))
  page_token ← read_text (codes "pageToken") (get input (codes "pageToken"))
  query ← read_text (codes "query") (get input (codes "query"))
  ok (record { page_size = page_size; page_token = page_token; query = query })

unfoldable pub validate_list_directory_input : Value → Result ListDirectoryInput
validate_list_directory_input input = do
  path ← read_text (codes "path") (get input (codes "path"))
  page_size ← read_page_size (get input (codes "pageSize"))
  page_token ← read_text (codes "pageToken") (get input (codes "pageToken"))
  sort_field ← read_sort_field (get input (codes "sortField"))
  sort_order ← read_sort_order (get input (codes "sortOrder"))
  ok (record {
    path = path;
    page_size = page_size;
    page_token = page_token;
    sort_field = sort_field;
    sort_order = sort_order;
  })

unfoldable pub require_numeric : Value → Result Text
require_numeric (str s) =
    if is_numeric s then ok s else err (error (codes "id must be a numeric string"))
require_numeric _ = err (error (codes "id must be a numeric string"))

unfoldable pub require_text : Text → Value → Result Text
require_text name (str (c ∷ s)) = ok (c ∷ s)
require_text name _ = err (error (name ++ codes " must be a non-empty string"))

unfoldable pub require_integer : Text → Value → Result ℤ
require_integer name (int n) = ok n
require_integer name _ = err (error (name ++ codes " must be an integer"))

unfoldable pub validate_id_input : Value → Result Text
validate_id_input input = require_numeric (get input (codes "id"))

unfoldable pub validate_key_input : Value → Result Text
validate_key_input input = require_text (codes "key") (get input (codes "key"))

unfoldable pub validate_path_input : Value → Result Text
validate_path_input input = require_text (codes "path") (get input (codes "path"))

unfoldable pub validate_move_file_input : Value → Result MoveFileInput
validate_move_file_input input = do
  id ← require_numeric (get input (codes "id"))
  destination_key ← require_text (codes "destinationKey") (get input (codes "destinationKey"))
  ok (record { id = id; destination_key = destination_key })

-- The key and the content type.
unfoldable pub validate_create_multipart_upload_input : Value → Result (Text × Text)
validate_create_multipart_upload_input input = do
  k ← require_text (codes "key") (get input (codes "key"))
  content_type ← require_text (codes "contentType") (get input (codes "contentType"))
  ok (k, content_type)

-- The key, the upload id and the part number.
unfoldable pub validate_upload_part_url_input : Value → Result (Text × Text × ℤ)
validate_upload_part_url_input input = do
  k ← require_text (codes "key") (get input (codes "key"))
  upload_id ← require_text (codes "uploadId") (get input (codes "uploadId"))
  part_number ← require_integer (codes "partNumber") (get input (codes "partNumber"))
  ok (k, upload_id, part_number)

-- The key and the upload id.
unfoldable pub validate_upload_id_input : Value → Result (Text × Text)
validate_upload_id_input input = do
  k ← require_text (codes "key") (get input (codes "key"))
  upload_id ← require_text (codes "uploadId") (get input (codes "uploadId"))
  ok (k, upload_id)

-- `ids.every((id) => typeof id === 'string')`, with the strings
all_texts : Values → Option (List Text)
all_texts nil = some []
all_texts (cons (str s) vs) = elim (all_texts vs) [ none ↦ none | some rest ↦ some (s ∷ rest) ]
all_texts (cons _ vs) = none

read_ids : Value → Result (List Text)
read_ids (arr vs) = elim (all_texts vs) [
  | none ↦ err (error (codes "ids must be an array of strings"))
  | some ids ↦ ok ids
]
read_ids _ = err (error (codes "ids must be an array of strings"))

-- The validator that web/src/server/files.ts gives to `getFilePreviewStatuses`.
unfoldable pub validate_preview_statuses_input : Value → Result (List Text)
unfolding read_ids all_texts
validate_preview_statuses_input input = read_ids (get input (codes "ids"))
