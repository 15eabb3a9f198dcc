-- ===== src/Tests/Rows.antt =====
-- Pages of files at concrete inputs, against services that answer by rote.
use file_indexer.Prelude.{
  ℕ, suc, pos, ◌≡◌, refl, Option, none, some, List, [], ◌∷◌, Text, codes, ◌===◌, Result, ok,
  map_all, rejected, done, failed, Eff,
}
use file_indexer.Js.Decimal.{to_string}
use file_indexer.Js.Number.{to_number}
use file_indexer.Js.Dictionary.{map_get, map_set, map_of}
use file_indexer.Server.Types.{PreviewStatus, Timestamp, FileInfo, FileDto}
use file_indexer.Server.Dto.{to_file_dto}
use file_indexer.Server.Services.{SearchClient, FilesClient, UrlSpec}
use file_indexer.Server.Inputs.{ListFilesInput, ListDirectoryInput}
use file_indexer.Server.Listing.{
  ListFilesResult, ListDirectoryResult, preview_ids, list_files_impl, list_directory_impl,
  look_up_previews, sort_field_pb, sort_order_pb,
}
use file_indexer.Server.Listing.Previews.{Rows}
use file_indexer.Server.Listing.Pages.{Lookup, list_files_impl-Rows, list_directory_impl-Rows}

abbrev file : ℕ → Text → FileInfo
file id preview_key = record {
  id = pos id;
  key = codes "a.jpg";
  content_type = codes "image/jpeg";
  size_bytes = pos 9;
  created_at = none;
  updated_at = none;
  preview_key = preview_key;
  preview_width = pos 40;
  preview_height = pos 30;
  exif = none;
  preview_status = PreviewStatus.ready;
}

abbrev dto : Text → Option ℕ → Option ℕ → Option Text → FileDto
dto id width height url = record {
  id = id;
  key = codes "a.jpg";
  content_type = codes "image/jpeg";
  size_bytes = pos 9;
  created_at = none;
  updated_at = none;
  taken_at = none;
  preview_url = url;
  preview_width = elim width [ none ↦ none | some w ↦ some (pos w) ];
  preview_height = elim height [ none ↦ none | some h ↦ some (pos h) ];
  preview_status = PreviewStatus.ready;
}

abbrev epoch : Timestamp → Result Text
epoch t = ok (codes "1970")

shown_7 : to_file_dto epoch (file 7 (codes "p/7")) ≡ ok (dto (codes "7") (some 40) (some 30) none)
unfolding to_file_dto to_string to_number ◌===◌
shown_7 = refl

shown_8 : to_file_dto epoch (file 8 []) ≡ ok (dto (codes "8") none none none)
unfolding to_file_dto to_string to_number ◌===◌
shown_8 = refl

abbrev two_files : List FileInfo
two_files = file 7 (codes "p/7") ∷ file 8 [] ∷ []

abbrev refuse : {A : Type 0} → Eff ℕ A
refuse s = failed (rejected (codes "unimplemented")) s

-- The state counts the lookups of previews.
abbrev files : FilesClient ℕ
files = record {
  get_download_url = λ ids. refuse;
  get_open_url = λ ids. refuse;
  get_preview_url = λ ids s. done (record { id = pos 7; url = codes "u7" } ∷ []) (suc s);
  get_file_info = λ id. refuse;
  delete_file = λ id. refuse;
  move_file = λ id key. refuse;
  get_upload_url = λ key. refuse;
  commit_upload = λ key. refuse;
  create_multipart_upload = λ key content_type. refuse;
  get_upload_part_url = λ key id number. refuse;
  list_uploaded_parts = λ key id. refuse;
  complete_multipart_upload = λ key id. refuse;
  abort_multipart_upload = λ key id. refuse;
  get_directory_stats = λ path. refuse;
  delete_directory = λ path. refuse;
  get_file_preview_statuses = λ ids. refuse;
}

abbrev search : SearchClient ℕ
search = record {
  list_files = λ r s. done (record { files = two_files; next_page_token = codes "t" }) s;
  list_directory = λ r s.
      done
        (record {
          directories = codes "docs/" ∷ [];
          files = two_files;
          next_page_token = codes "t";
        })
        s;
  list_content_types = refuse;
  search_directories = λ r. refuse;
}

abbrev two_rows : List FileDto
two_rows = dto (codes "7") (some 40) (some 30) none ∷ dto (codes "8") none none none ∷ []

two_shown : map_all (to_file_dto epoch) two_files ≡ ok two_rows
unfolding map_all to_file_dto to_string to_number ◌===◌
two_shown = refl

abbrev anything : ListFilesInput
anything = record {
  page_size = none;
  page_token = none;
  query = none;
  content_type = none;
  sort_field = none;
  sort_order = none;
}

listed :
    list_files_impl files search epoch anything 0
    ≡ done
        (record {
          files =
              dto (codes "7") (some 40) (some 30) (some (codes "u7"))
              ∷ dto (codes "8") none none none
              ∷ [];
          next_page_token = codes "t";
        })
        1
unfolding list_files_impl look_up_previews sort_field_pb sort_order_pb map_all to_file_dto to_string
    to_number map_of map_get map_set ◌===◌
listed = refl

list_files_impl-Rows_example :
    (page : ListFilesResult) × (answer : Option (List UrlSpec)) × (t : ℕ) × (list_files_impl files
        search epoch anything 0
      ≡ done page t)
    × Lookup files (preview_ids two_files) 0 answer t
    × Rows answer two_files page.files
    × (page.next_page_token ≡ codes "t")
list_files_impl-Rows_example = list_files_impl-Rows files search epoch anything 0 refl two_shown

abbrev any_folder : ListDirectoryInput
any_folder = record {
  path = none;
  page_size = none;
  page_token = none;
  sort_field = none;
  sort_order = none;
}

list_directory_impl-Rows_example :
    (page : ListDirectoryResult) × (answer : Option (List UrlSpec)) × (t : ℕ) × (list_directory_impl
        files search epoch any_folder 0
      ≡ done page t)
    × Lookup files (preview_ids two_files) 0 answer t
    × Rows answer two_files page.files
    × (page.directories ≡ codes "docs/" ∷ [])
    × (page.next_page_token ≡ codes "t")
list_directory_impl-Rows_example =
    list_directory_impl-Rows files search epoch any_folder 0 refl two_shown
