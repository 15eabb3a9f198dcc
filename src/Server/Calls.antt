-- ===== src/Server/Calls.antt =====
-- The functions of web/src/server/impl.ts that make one call of the files service.
pub mod Urls
use file_indexer.Prelude.{
  ℤ, Option, none, some, List, [], ◌∷◌, ◌++◌, map, Text, codes, ◌===◌, find, if◌then◌else◌, Result,
  ok, map_all, error, Eff, pure, throw, lift, if◌then◌else◌,
}
use file_indexer.Prelude.Effects.{◌>>=◌, ◌>>◌}
use file_indexer.Js.Decimal.{to_string}
use file_indexer.Js.Number.{to_number}
use file_indexer.Js.BigInt.{big_int}
use file_indexer.Server.Types.{Timestamp, FileInfo, FileDto, FileMetadataDto, PreviewStatus}
use file_indexer.Server.Dto.{to_file_dto, to_file_metadata_dto}
use file_indexer.Server.Services.{
  FilesClient, SearchClient, SearchDirectoriesRequest, SearchDirectoriesResponse, UrlSpec,
  UploadedPart, DirectoryStats, FilePreviewStatus,
}
use file_indexer.Server.Inputs.{SearchDirectoriesInput}
use file_indexer.Prelude.{or_default}

-- `file ?? throw new Error(message)`
abbrev pub or_throw {ℓ} : {S A : Type ℓ} → Text → Option A → Eff S A
or_throw message none = throw (error message)
or_throw message (some a) = pure a

-- `specs.find((u) => u.id.toString() === id)`
unfoldable pub find_url : Text → List UrlSpec → Option UrlSpec
find_url id specs = find (λ u. to_string u.id === id) specs

pub record FilePreviewStatusDto : Type 0 where
  pub id : Text
  pub preview_status : PreviewStatus
  pub preview_url : Option Text

-- `url || null`
abbrev pub text_or_null : Text → Option Text
text_or_null [] = none
text_or_null (c ∷ s) = some (c ∷ s)

abbrev pub to_preview_status_dto : FilePreviewStatus → FilePreviewStatusDto
to_preview_status_dto s = record {
  id = to_string s.id;
  preview_status = s.preview_status;
  preview_url = text_or_null s.preview_url;
}

pub record UploadedPartDto : Type 0 where
  pub part_number : ℤ
  pub size : ℤ

abbrev pub to_part_dto : UploadedPart → UploadedPartDto
to_part_dto p = record { part_number = p.part_number; size = to_number p.size }

module _ {S : Type 0} (search : SearchClient S) where
  unfoldable pub list_content_types_impl : Eff S (List Text)
  list_content_types_impl = search.list_content_types

  unfoldable pub search_directories_impl : SearchDirectoriesInput → Eff S SearchDirectoriesResponse
  search_directories_impl input = search.search_directories (record {
    query = or_default input.query [];
    page_size = or_default input.page_size 0;
    page_token = or_default input.page_token [];
  })

module _ {S : Type 0} (files : FilesClient S) where
  unfoldable pub get_download_url_impl : Text → Eff S Text
  unfolding find_url
  get_download_url_impl id = do
    n ← lift (big_int id)
    specs ← files.get_download_url (n ∷ [])
    spec ← or_throw (codes "no download URL returned for file " ++ id) (find_url id specs)
    pure spec.url

  unfoldable pub get_open_url_impl : Text → Eff S Text
  unfolding find_url
  get_open_url_impl id = do
    n ← lift (big_int id)
    specs ← files.get_open_url (n ∷ [])
    spec ← or_throw (codes "no open URL returned for file " ++ id) (find_url id specs)
    pure spec.url

  unfoldable pub delete_file_impl : Text → Eff S (Unit {0})
  delete_file_impl id = do n ← lift (big_int id); files.delete_file n

  unfoldable pub move_file_impl : Text → Text → Eff S (Unit {0})
  move_file_impl id destination_key = do
    n ← lift (big_int id)
    moved ← files.move_file n destination_key
    pure tt

  unfoldable pub get_upload_url_impl : Text → Eff S Text
  get_upload_url_impl key = files.get_upload_url key

  unfoldable pub create_multipart_upload_impl : Text → Text → Eff S Text
  create_multipart_upload_impl key content_type = files.create_multipart_upload key content_type

  unfoldable pub get_upload_part_url_impl : Text → Text → ℤ → Eff S Text
  get_upload_part_url_impl key upload_id part_number =
      files.get_upload_part_url key upload_id part_number

  unfoldable pub list_uploaded_parts_impl : Text → Text → Eff S (List UploadedPartDto)
  list_uploaded_parts_impl key upload_id = do
    parts ← files.list_uploaded_parts key upload_id
    pure (map to_part_dto parts)

  unfoldable pub abort_multipart_upload_impl : Text → Text → Eff S (Unit {0})
  abort_multipart_upload_impl key upload_id = files.abort_multipart_upload key upload_id

  unfoldable pub get_directory_stats_impl : Text → Eff S DirectoryStats
  get_directory_stats_impl path = do
    stats ← files.get_directory_stats path
    pure (record {
      file_count = to_number stats.file_count;
      total_bytes = to_number stats.total_bytes;
    })

  unfoldable pub delete_directory_impl : Text → Eff S ℤ
  delete_directory_impl path = do count ← files.delete_directory path; pure (to_number count)

  unfoldable pub get_file_preview_statuses_impl : List Text → Eff S (List FilePreviewStatusDto)
  get_file_preview_statuses_impl ids = do
    ns ← lift (map_all big_int ids)
    statuses ← files.get_file_preview_statuses ns
    pure (map to_preview_status_dto statuses)

  module _ (to_iso_string : Timestamp → Result Text) where
    unfoldable pub get_file_metadata_impl : Text → Eff S FileMetadataDto
    get_file_metadata_impl id = do
      n ← lift (big_int id)
      found ← files.get_file_info n
      file ← or_throw (codes "no file returned for id " ++ id) found
      lift (to_file_metadata_dto to_iso_string file)

    unfoldable pub commit_upload_impl : Text → Eff S FileDto
    commit_upload_impl key = do
      found ← files.commit_upload key
      file ← or_throw (codes "no file returned committing upload for key " ++ key) found
      lift (to_file_dto to_iso_string file)

    unfoldable pub complete_multipart_upload_impl : Text → Text → Eff S FileDto
    complete_multipart_upload_impl key upload_id = do
      found ← files.complete_multipart_upload key upload_id
      file ← or_throw (codes "no file returned completing multipart upload for key " ++ key) found
      lift (to_file_dto to_iso_string file)
