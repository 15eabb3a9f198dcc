-- ===== src/Server/Services.antt =====
-- The gRPC services that the server functions call (web/src/gen/service/v1). Both are code outside
-- the web front end, reached over the network: a call takes the state of the services to its
-- answer, or fails, and may have changed the state either way.
use file_indexer.Prelude.{ℤ, ℕ, Option, List, Text, Eff}
use file_indexer.Server.Types.{FileInfo, PreviewStatus}

pub data SortField : Type 0 where
  unspecified key last_modified size taken_at : SortField

pub data SortOrder : Type 0 where
  unspecified asc desc : SortOrder

pub record ListFilesRequest : Type 0 where
  pub page_size : ℕ
  pub page_token : Text
  pub query : Text
  pub content_type : Text
  pub sort_field : SortField
  pub sort_order : SortOrder

pub record ListFilesResponse : Type 0 where
  pub files : List FileInfo
  pub next_page_token : Text

pub record ListDirectoryRequest : Type 0 where
  pub path : Text
  pub page_size : ℕ
  pub page_token : Text
  pub sort_field : SortField
  pub sort_order : SortOrder

pub record ListDirectoryResponse : Type 0 where
  pub directories : List Text
  pub files : List FileInfo
  pub next_page_token : Text

pub record SearchDirectoriesRequest : Type 0 where
  pub query : Text
  pub page_size : ℕ
  pub page_token : Text

pub record SearchDirectoriesResponse : Type 0 where
  pub directories : List Text
  pub next_page_token : Text

-- `DownloadURLSpec`, `OpenURLSpec` and `PreviewURLSpec`
pub record UrlSpec : Type 0 where
  pub id : ℤ
  pub url : Text

pub record UploadedPart : Type 0 where
  pub part_number : ℤ
  pub size : ℤ

pub record DirectoryStats : Type 0 where
  pub file_count : ℤ
  pub total_bytes : ℤ

pub record FilePreviewStatus : Type 0 where
  pub id : ℤ
  pub preview_status : PreviewStatus
  pub preview_url : Text

pub record SearchClient (S : Type 0) : Type 0 where
  pub list_files : ListFilesRequest → Eff S ListFilesResponse
  pub list_directory : ListDirectoryRequest → Eff S ListDirectoryResponse
  pub list_content_types : Eff S (List Text)
  pub search_directories : SearchDirectoriesRequest → Eff S SearchDirectoriesResponse

pub record FilesClient (S : Type 0) : Type 0 where
  pub get_download_url : List ℤ → Eff S (List UrlSpec)
  pub get_open_url : List ℤ → Eff S (List UrlSpec)
  pub get_preview_url : List ℤ → Eff S (List UrlSpec)
  pub get_file_info : ℤ → Eff S (Option FileInfo)
  pub delete_file : ℤ → Eff S (Unit {0})
  pub move_file : ℤ → Text → Eff S (Option FileInfo)
  pub get_upload_url : Text → Eff S Text
  pub commit_upload : Text → Eff S (Option FileInfo)
  pub create_multipart_upload : Text → Text → Eff S Text
  pub get_upload_part_url : Text → Text → ℤ → Eff S Text
  pub list_uploaded_parts : Text → Text → Eff S (List UploadedPart)
  pub complete_multipart_upload : Text → Text → Eff S (Option FileInfo)
  pub abort_multipart_upload : Text → Text → Eff S (Unit {0})
  pub get_directory_stats : Text → Eff S DirectoryStats
  pub delete_directory : Text → Eff S ℤ
  pub get_file_preview_statuses : List ℤ → Eff S (List FilePreviewStatus)
