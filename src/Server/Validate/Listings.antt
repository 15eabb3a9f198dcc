-- ===== src/Server/Validate/Listings.antt =====
-- Which listing requests the validators accept, and what they make of them.
use file_indexer.Prelude.{◌≡◌, ◌↔◌, subst, ok, >>=-eq-ok, ok-injective, codes}
use file_indexer.Js.Value.{Value, get}
use file_indexer.Server.Inputs.{ListFilesInput, ListDirectoryInput}
use file_indexer.Server.Validate.{
  read_page_size, read_text, read_sort_field, read_sort_order, validate_list_files_input,
  validate_list_directory_input,
}
use file_indexer.Server.Validate.Readers.{
  Optional, IsPageSize, IsText, IsSortField, IsSortOrder, read_page_size_sound,
  read_page_size_complete, read_text_sound, read_text_complete, read_sort_field_sound,
  read_sort_field_complete, read_sort_order_sound, read_sort_order_complete,
}

-- What an accepted listing request is made of.
pub record DescribesListFiles (input : Value) (out : ListFilesInput) : Type 0 where
  pub page_size : Optional IsPageSize (get input (codes "pageSize")) out.page_size
  pub page_token : Optional IsText (get input (codes "pageToken")) out.page_token
  pub query : Optional IsText (get input (codes "query")) out.query
  pub content_type : Optional IsText (get input (codes "contentType")) out.content_type
  pub sort_field : Optional IsSortField (get input (codes "sortField")) out.sort_field
  pub sort_order : Optional IsSortOrder (get input (codes "sortOrder")) out.sort_order

validate_list_files_input_sound :
    (input : Value) (out : ListFilesInput)
    → validate_list_files_input input ≡ ok out
    → DescribesListFiles input out
unfolding validate_list_files_input
validate_list_files_input_sound input out h =
    let (a, ra, h) = >>=-eq-ok (read_page_size (get input (codes "pageSize"))) _ h in
    let (b, rb, h) =
      >>=-eq-ok (read_text (codes "pageToken") (get input (codes "pageToken"))) _ h in
    let (c, rc, h) = >>=-eq-ok (read_text (codes "query") (get input (codes "query"))) _ h in
    let (d, rd, h) =
      >>=-eq-ok (read_text (codes "contentType") (get input (codes "contentType"))) _ h in
    let (e, re, h) = >>=-eq-ok (read_sort_field (get input (codes "sortField"))) _ h in
    let (f, rf, h) = >>=-eq-ok (read_sort_order (get input (codes "sortOrder"))) _ h in
    subst (DescribesListFiles input) (ok-injective h) (record {
      page_size = read_page_size_sound _ a ra;
      page_token = read_text_sound (codes "pageToken") _ b rb;
      query = read_text_sound (codes "query") _ c rc;
      content_type = read_text_sound (codes "contentType") _ d rd;
      sort_field = read_sort_field_sound _ e re;
      sort_order = read_sort_order_sound _ f rf;
    })

validate_list_files_input_complete :
    {input : Value} {out : ListFilesInput}
    → DescribesListFiles input out
    → validate_list_files_input input ≡ ok out
unfolding validate_list_files_input
validate_list_files_input_complete d = rw (
  read_page_size_complete d.page_size,
  read_text_complete (codes "pageToken") d.page_token,
  read_text_complete (codes "query") d.query,
  read_text_complete (codes "contentType") d.content_type,
  read_sort_field_complete d.sort_field,
  read_sort_order_complete d.sort_order,
)

-- `validateListFilesInput` accepts an input exactly when each of its fields is missing or right (a
-- page size of at least 1, texts, a listed sort field and order), and returns those fields.
validate_list_files_input_iff :
    (input : Value) (out : ListFilesInput)
    → (validate_list_files_input input ≡ ok out) ↔ DescribesListFiles input out
validate_list_files_input_iff input out =
    (validate_list_files_input_sound input out, validate_list_files_input_complete)

-- What an accepted directory listing request is made of.
pub record DescribesListDirectory (input : Value) (out : ListDirectoryInput) : Type 0 where
  pub path : Optional IsText (get input (codes "path")) out.path
  pub page_size : Optional IsPageSize (get input (codes "pageSize")) out.page_size
  pub page_token : Optional IsText (get input (codes "pageToken")) out.page_token
  pub sort_field : Optional IsSortField (get input (codes "sortField")) out.sort_field
  pub sort_order : Optional IsSortOrder (get input (codes "sortOrder")) out.sort_order

validate_list_directory_input_sound :
    (input : Value) (out : ListDirectoryInput)
    → validate_list_directory_input input ≡ ok out
    → DescribesListDirectory input out
unfolding validate_list_directory_input
validate_list_directory_input_sound input out h =
    let (a, ra, h) = >>=-eq-ok (read_text (codes "path") (get input (codes "path"))) _ h in
    let (b, rb, h) = >>=-eq-ok (read_page_size (get input (codes "pageSize"))) _ h in
    let (c, rc, h) =
      >>=-eq-ok (read_text (codes "pageToken") (get input (codes "pageToken"))) _ h in
    let (d, rd, h) = >>=-eq-ok (read_sort_field (get input (codes "sortField"))) _ h in
    let (e, re, h) = >>=-eq-ok (read_sort_order (get input (codes "sortOrder"))) _ h in
    subst (DescribesListDirectory input) (ok-injective h) (record {
      path = read_text_sound (codes "path") _ a ra;
      page_size = read_page_size_sound _ b rb;
      page_token = read_text_sound (codes "pageToken") _ c rc;
      sort_field = read_sort_field_sound _ d rd;
      sort_order = read_sort_order_sound _ e re;
    })

validate_list_directory_input_complete :
    {input : Value} {out : ListDirectoryInput}
    → DescribesListDirectory input out
    → validate_list_directory_input input ≡ ok out
unfolding validate_list_directory_input
validate_list_directory_input_complete d = rw (
  read_text_complete (codes "path") d.path,
  read_page_size_complete d.page_size,
  read_text_complete (codes "pageToken") d.page_token,
  read_sort_field_complete d.sort_field,
  read_sort_order_complete d.sort_order,
)

-- `validateListDirectoryInput` accepts an input exactly when each of its fields is missing or right,
-- and returns those fields.
validate_list_directory_input_iff :
    (input : Value) (out : ListDirectoryInput)
    → (validate_list_directory_input input ≡ ok out) ↔ DescribesListDirectory input out
validate_list_directory_input_iff input out =
    (validate_list_directory_input_sound input out, validate_list_directory_input_complete)

-- The two listing validators accept an input exactly when each of its fields is missing or right (a
-- page size of at least 1, texts, a listed sort field and order), and return those fields.
pub listing_validators_iff :
    (input : Value) (out : ListFilesInput) (folder : ListDirectoryInput)
    → ((validate_list_files_input input ≡ ok out) ↔ DescribesListFiles input out)
      × ((validate_list_directory_input input ≡ ok folder) ↔ DescribesListDirectory input folder)
listing_validators_iff input out folder =
    (validate_list_files_input_iff input out, validate_list_directory_input_iff input folder)
