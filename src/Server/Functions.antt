-- ===== src/Server/Functions.antt =====
-- web/src/server/files.ts: each server function is a validator and a handler over the two clients.
pub mod Mutations
pub mod Urls
use file_indexer.Prelude.{ℤ, List, Text, Result, Eff, lift}
use file_indexer.Prelude.Effects.{◌>>=◌}
use file_indexer.Js.Value.{Value}
use file_indexer.Server.Types.{Timestamp, FileDto, FileMetadataDto}
use file_indexer.Server.Services.{
  SearchClient, FilesClient, SearchDirectoriesResponse, DirectoryStats,
}
use file_indexer.Server.Inputs.{ListFilesInput}
use file_indexer.Server.Validate.{
  validate_list_files_input, validate_search_directories_input, validate_list_directory_input,
  validate_id_input, validate_key_input, validate_path_input, validate_move_file_input,
  validate_create_multipart_upload_input, validate_upload_part_url_input, validate_upload_id_input,
  validate_preview_statuses_input,
}
use file_indexer.Server.Calls.{
  list_content_types_impl, search_directories_impl, get_download_url_impl, get_open_url_impl,
  delete_file_impl, move_file_impl, get_upload_url_impl, create_multipart_upload_impl,
  get_upload_part_url_impl, list_uploaded_parts_impl, abort_multipart_upload_impl,
  get_directory_stats_impl, delete_directory_impl, get_file_preview_statuses_impl,
  get_file_metadata_impl, commit_upload_impl, complete_multipart_upload_impl, UploadedPartDto,
  FilePreviewStatusDto,
}
use file_indexer.Server.Listing.{
  ListFilesResult, ListDirectoryResult, list_files_impl, list_directory_impl,
}

-- `createServerFn().validator(validate).handler(handler)`
abbrev server_fn : {S A B : Type 0} → (Value → Result A) → (A → Eff S B) → Value → Eff S B
server_fn validate handler input = lift (validate input) >>= handler

module _ {S : Type 0} (search : SearchClient S) (files : FilesClient S)
    (to_iso_string : Timestamp → Result Text) where
  unfoldable pub list_files : Value → Eff S ListFilesResult
  list_files = server_fn validate_list_files_input (list_files_impl files search to_iso_string)

  unfoldable pub list_content_types : Eff S (List Text)
  list_content_types = list_content_types_impl search

  unfoldable pub search_directories : Value → Eff S SearchDirectoriesResponse
  search_directories = server_fn validate_search_directories_input (search_directories_impl search)

  unfoldable pub get_download_url : Value → Eff S Text
  get_download_url = server_fn validate_id_input (get_download_url_impl files)

  unfoldable pub get_open_url : Value → Eff S Text
  get_open_url = server_fn validate_id_input (get_open_url_impl files)

  unfoldable pub delete_file : Value → Eff S (Unit {0})
  delete_file = server_fn validate_id_input (delete_file_impl files)

  unfoldable pub move_file : Value → Eff S (Unit {0})
  move_file =
      server_fn validate_move_file_input
        λ input. move_file_impl files input.id input.destination_key

  unfoldable pub get_file_metadata : Value → Eff S FileMetadataDto
  get_file_metadata = server_fn validate_id_input (get_file_metadata_impl files to_iso_string)

  unfoldable pub get_upload_url : Value → Eff S Text
  get_upload_url = server_fn validate_key_input (get_upload_url_impl files)

  unfoldable pub commit_upload : Value → Eff S FileDto
  commit_upload = server_fn validate_key_input (commit_upload_impl files to_iso_string)

  unfoldable pub create_multipart_upload : Value → Eff S Text
  create_multipart_upload =
      server_fn validate_create_multipart_upload_input
        λ (key, content_type). create_multipart_upload_impl files key content_type

  unfoldable pub get_upload_part_url : Value → Eff S Text
  get_upload_part_url =
      server_fn validate_upload_part_url_input
        λ (key, upload_id, part_number). get_upload_part_url_impl files key upload_id part_number

  unfoldable pub list_uploaded_parts : Value → Eff S (List UploadedPartDto)
  list_uploaded_parts =
      server_fn validate_upload_id_input
        λ (key, upload_id). list_uploaded_parts_impl files key upload_id

  unfoldable pub complete_multipart_upload : Value → Eff S FileDto
  complete_multipart_upload =
      server_fn validate_upload_id_input
        λ (key, upload_id). complete_multipart_upload_impl files to_iso_string key upload_id

  unfoldable pub abort_multipart_upload : Value → Eff S (Unit {0})
  abort_multipart_upload =
      server_fn validate_upload_id_input
        λ (key, upload_id). abort_multipart_upload_impl files key upload_id

  unfoldable pub list_directory : Value → Eff S ListDirectoryResult
  list_directory =
      server_fn validate_list_directory_input (list_directory_impl files search to_iso_string)

  unfoldable pub get_directory_stats : Value → Eff S DirectoryStats
  get_directory_stats = server_fn validate_path_input (get_directory_stats_impl files)

  unfoldable pub delete_directory : Value → Eff S ℤ
  delete_directory = server_fn validate_path_input (delete_directory_impl files)

  unfoldable pub get_file_preview_statuses : Value → Eff S (List FilePreviewStatusDto)
  get_file_preview_statuses =
      server_fn validate_preview_statuses_input (get_file_preview_statuses_impl files)
