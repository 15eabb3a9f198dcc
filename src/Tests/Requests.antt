-- ===== src/Tests/Requests.antt =====
-- Requests to the server functions at concrete inputs, against services that answer by rote.
use file_indexer.Prelude.{
  ℕ, ℤ, pos, suc, ◌≡◌, ◌≢◌, refl, ◌↔◌, ◌⊎◌, Option, none, some, List, [], ◌∷◌, ◌++◌, Text, codes,
  ◌===◌, find, Result, ok, err, Failure, error, rejected, Outcome, done, failed, Eff, pure, int_eq,
}
use file_indexer.Prelude.Effects.{◌>>=◌}
use file_indexer.Js.Value.{Value, int, str, arr, nil, cons, obj, end, field, get}
use file_indexer.Js.Decimal.{decimal, is_numeric, to_string}
use file_indexer.Js.BigInt.{big_int}
use file_indexer.Js.Number.{to_number}
use file_indexer.Server.Types.{Timestamp}
use file_indexer.Server.Services.{SearchClient, FilesClient}
use file_indexer.Server.Inputs.{
  SortFieldInput, ListFilesInput, ListDirectoryInput, MoveFileInput, find_sort_field,
  sort_field_text,
}
use file_indexer.Server.Validate.{
  validate_list_files_input, validate_list_directory_input, validate_id_input,
  validate_move_file_input, validate_path_input, validate_preview_statuses_input, read_page_size,
  read_text, read_sort_field, read_sort_order, require_numeric,
}
use file_indexer.Server.Validate.Listings.{
  DescribesListFiles, DescribesListDirectory, listing_validators_iff,
}
use file_indexer.Server.Calls.{
  or_throw, get_download_url_impl, get_open_url_impl, get_file_preview_statuses_impl,
}
use file_indexer.Server.Calls.Urls.{get_download_url_impl-leading_zero}
use file_indexer.Server.Functions.Urls.{UrlEnds, url_functions-cases}
use file_indexer.Server.Functions.{
  delete_file, move_file, delete_directory, get_file_preview_statuses, get_download_url,
  get_open_url,
}
use file_indexer.Server.Functions.Mutations.{move_file-cases, delete_directory-cases}

abbrev listing : Value
listing = obj (
    field (codes "pageSize") (int (pos 24)) (
      field (codes "query") (str (codes "cat"))
        (field (codes "sortField") (str (codes "size")) end)))

abbrev listing_read : ListFilesInput
listing_read = record {
  page_size = some 24;
  page_token = none;
  query = some (codes "cat");
  content_type = none;
  sort_field = some SortFieldInput.size;
  sort_order = none;
}

listing_accepted : validate_list_files_input listing ≡ ok listing_read
unfolding validate_list_files_input read_page_size read_text read_sort_field read_sort_order get
    find_sort_field sort_field_text ◌===◌
listing_accepted = refl

abbrev folder_read : ListDirectoryInput
folder_read = record {
  path = none;
  page_size = some 24;
  page_token = none;
  sort_field = some SortFieldInput.size;
  sort_order = none;
}

abbrev file_7 : Value
file_7 = obj (field (codes "id") (str (codes "7")) end)

abbrev moving : Value
moving = obj (
    field (codes "id") (str (codes "7"))
      (field (codes "destinationKey") (str (codes "docs/a.jpg")) end))

abbrev moving_read : MoveFileInput
moving_read = record { id = codes "7"; destination_key = codes "docs/a.jpg" }

-- A log of what was asked for.
data Asked : Type 0 where
  to_delete : ℤ → Asked
  to_move : ℤ → Text → Asked
  to_delete_folder : Text → Asked
  urls_for : List ℤ → Asked

abbrev Log : Type 0
Log = List Asked

abbrev refuse : {A : Type 0} → Eff Log A
refuse s = failed (rejected (codes "unimplemented")) s

abbrev files : FilesClient Log
files = record {
  get_download_url =
      λ ids s. done (record { id = pos 7; url = codes "u7" } ∷ []) (urls_for ids ∷ s);
  get_open_url = λ ids s. done (record { id = pos 7; url = codes "o7" } ∷ []) (urls_for ids ∷ s);
  get_preview_url = λ ids s. done [] (urls_for ids ∷ s);
  get_file_info = λ id. refuse;
  delete_file = λ id s. done tt (to_delete id ∷ s);
  move_file = λ id key s. done none (to_move id key ∷ s);
  get_upload_url = λ key. refuse;
  commit_upload = λ key. refuse;
  create_multipart_upload = λ key content_type. refuse;
  get_upload_part_url = λ key id number. refuse;
  list_uploaded_parts = λ key id. refuse;
  complete_multipart_upload = λ key id. refuse;
  abort_multipart_upload = λ key id. refuse;
  get_directory_stats = λ path. refuse;
  delete_directory = λ path s. done (pos 2) (to_delete_folder path ∷ s);
  get_file_preview_statuses = λ ids. refuse;
}

abbrev search : SearchClient Log
search = record {
  list_files = λ r. refuse;
  list_directory = λ r. refuse;
  list_content_types = refuse;
  search_directories = λ r. refuse;
}

abbrev no_dates : Timestamp → Result Text
no_dates t = err (rejected [])

deleted_7 : delete_file search files no_dates file_7 [] ≡ done tt (to_delete (pos 7) ∷ [])
unfolding delete_file validate_id_input require_numeric is_numeric big_int get ◌===◌
    file_indexer.Server.Calls.delete_file_impl
deleted_7 = refl

-- The service has file 7, and the validator lets "07" through.
zero_seven_accepted :
    validate_id_input (obj (field (codes "id") (str (codes "07")) end)) ≡ ok (codes "07")
unfolding validate_id_input require_numeric is_numeric get ◌===◌
zero_seven_accepted = refl

get_download_url_impl-leading_zero_example :
    get_download_url_impl files (codes "07") [] ≢ done (codes "u7") (urls_for (pos 7 ∷ []) ∷ [])
get_download_url_impl-leading_zero_example =
    get_download_url_impl-leading_zero files b'7' [] [] {url = codes "u7"}
      {s' = urls_for (pos 7 ∷ []) ∷ []}

move_file-cases_example :
    ((e : Failure) × (validate_move_file_input moving ≡ err e)
      × (move_file search files no_dates moving [] ≡ failed e []))
    ⊎ ((id : Text) × (n : ℕ) × (destination : Text) × (get moving (codes "id") ≡ str id)
        × (big_int id ≡ ok (pos n))
        × (get moving (codes "destinationKey") ≡ str destination)
        × (destination ≢ [])
        × (move_file search files no_dates moving []
            ≡ (files.move_file (pos n) destination >>= λ _. pure tt) []))
move_file-cases_example = move_file-cases search files no_dates moving []

abbrev folder : Value
folder = obj (field (codes "path") (str (codes "docs/")) end)

delete_directory-cases_example :
    ((e : Failure) × (validate_path_input folder ≡ err e)
      × (delete_directory search files no_dates folder [] ≡ failed e []))
    ⊎ ((path : Text) × (get folder (codes "path") ≡ str path)
        × (path ≢ [])
        × (delete_directory search files no_dates folder []
            ≡ (files.delete_directory path >>= λ n. pure (to_number n)) []))
delete_directory-cases_example = delete_directory-cases search files no_dates folder []

-- A text that is no number passes the validator of the preview statuses; `BigInt` throws on it.
statuses_of_a_word :
    get_file_preview_statuses search files no_dates
      (obj (field (codes "ids") (arr (cons (str (codes "x")) nil)) end))
      []
    ≡ failed Failure.syntax_error []
unfolding get_file_preview_statuses get_file_preview_statuses_impl validate_preview_statuses_input
    file_indexer.Prelude.map_all big_int get ◌===◌
statuses_of_a_word = refl

listing_validators_iff_example :
    ((validate_list_files_input listing ≡ ok listing_read)
      ↔ DescribesListFiles listing listing_read)
    × ((validate_list_directory_input listing ≡ ok folder_read)
        ↔ DescribesListDirectory listing folder_read)
listing_validators_iff_example = listing_validators_iff listing listing_read folder_read

url_functions-cases_example :
    ((e : Failure) × (validate_id_input file_7 ≡ err e)
      × (get_download_url search files no_dates file_7 [] ≡ failed e [])
      × (get_open_url search files no_dates file_7 [] ≡ failed e []))
    ⊎ ((id : Text) × (n : ℕ) × (get file_7 (codes "id") ≡ str id)
        × (big_int id ≡ ok (pos n))
        × UrlEnds files.get_download_url
            (codes "no download URL returned for file ")
            id
            n
            []
            (get_download_url search files no_dates file_7 [])
        × UrlEnds files.get_open_url
            (codes "no open URL returned for file ")
            id
            n
            []
            (get_open_url search files no_dates file_7 []))
url_functions-cases_example = url_functions-cases search files no_dates file_7 []

-- File 7 has a URL, and there is none for the same number with a zero in front.
download_7 :
    get_download_url search files no_dates file_7 []
    ≡ done (codes "u7") (urls_for (pos 7 ∷ []) ∷ [])
unfolding get_download_url get_download_url_impl file_indexer.Server.Calls.find_url to_string
    validate_id_input require_numeric is_numeric big_int get ◌===◌ decimal
download_7 = refl

download_07 :
    get_download_url search files no_dates (obj (field (codes "id") (str (codes "07")) end)) []
    ≡ failed (error (codes "no download URL returned for file 07")) (urls_for (pos 7 ∷ []) ∷ [])
unfolding get_download_url get_download_url_impl file_indexer.Server.Calls.find_url to_string
    validate_id_input require_numeric is_numeric big_int get ◌===◌ decimal
download_07 = refl
