-- ===== src/Server/Listing.antt =====
-- `listFilesImpl` and `listDirectoryImpl` of web/src/server/impl.ts: one call for the page, and one
-- for the preview URLs of the files in it that have a preview.
pub mod Previews
pub mod Pages
use file_indexer.Prelude.{
  ℤ, true, false, Option, none, some, List, [], ◌∷◌, map, Text, ◌===◌, keep, if◌then◌else◌,
  or_default, Result, map_all, Eff, pure, lift, try_catch,
}
use file_indexer.Prelude.Effects.{◌>>=◌}
use file_indexer.Js.Decimal.{to_string}
use file_indexer.Js.Dictionary.{map_get, map_of}
use file_indexer.Server.Types.{Timestamp, FileInfo, FileDto}
use file_indexer.Server.Dto.{has_preview, to_file_dto}
use file_indexer.Server.Services.{SearchClient, FilesClient, SortField, SortOrder, UrlSpec}
use file_indexer.Server.Inputs.{SortFieldInput, SortOrderInput, ListFilesInput, ListDirectoryInput}

-- `SORT_FIELD_PB` and `SORT_ORDER_PB`
unfoldable pub sort_field_pb : SortFieldInput → SortField
sort_field_pb SortFieldInput.key = SortField.key
sort_field_pb SortFieldInput.last_modified = SortField.last_modified
sort_field_pb SortFieldInput.size = SortField.size
sort_field_pb SortFieldInput.taken_at = SortField.taken_at

unfoldable pub sort_order_pb : SortOrderInput → SortOrder
sort_order_pb SortOrderInput.asc = SortOrder.asc
sort_order_pb SortOrderInput.desc = SortOrder.desc

pub record ListFilesResult : Type 0 where
  pub files : List FileDto
  pub next_page_token : Text

pub record ListDirectoryResult : Type 0 where
  pub directories : List Text
  pub files : List FileDto
  pub next_page_token : Text

-- `new Map(previews.previewUrls.map((p) => [p.id.toString(), p.url]))`
abbrev pub urls_by_id : List UrlSpec → List (Text × Text)
urls_by_id specs = map_of ◌===◌ (map (λ (p : UrlSpec). (to_string p.id, p.url)) specs)

-- The loop that fills in `previewUrl`.
abbrev pub with_url : List (Text × Text) → FileDto → FileDto
with_url by_id dto = record dto { preview_url = map_get ◌===◌ by_id dto.id }

abbrev pub fill_in : List (Text × Text) → List FileDto → List FileDto
fill_in by_id dtos = map (with_url by_id) dtos

-- The ids of the files that have a preview.
abbrev pub preview_ids : List FileInfo → List ℤ
preview_ids infos = map (λ (f : FileInfo). f.id) (keep has_preview infos)

module _ {S : Type 0} (files : FilesClient S) where
  -- A failed lookup is logged, and leaves the page without previews.
  unfoldable pub look_up_previews : List ℤ → List FileDto → Eff S (List FileDto)
  look_up_previews [] dtos = pure dtos
  look_up_previews (id ∷ ids) dtos =
      try_catch
        (do specs ← files.get_preview_url (id ∷ ids); pure (fill_in (urls_by_id specs) dtos))
        λ _. pure dtos

  module _ (search : SearchClient S) (to_iso_string : Timestamp → Result Text) where
    unfoldable pub list_files_impl : ListFilesInput → Eff S ListFilesResult
    list_files_impl input = do
      res ← search.list_files (record {
        page_size = or_default input.page_size 0;
        page_token = or_default input.page_token [];
        query = or_default input.query [];
        content_type = or_default input.content_type [];
        sort_field = sort_field_pb (or_default input.sort_field SortFieldInput.key);
        sort_order = sort_order_pb (or_default input.sort_order SortOrderInput.asc);
      })
      dtos ← lift (map_all (to_file_dto to_iso_string) res.files)
      shown ← look_up_previews (preview_ids res.files) dtos
      pure (record { files = shown; next_page_token = res.next_page_token })

    unfoldable pub list_directory_impl : ListDirectoryInput → Eff S ListDirectoryResult
    list_directory_impl input = do
      res ← search.list_directory (record {
        path = or_default input.path [];
        page_size = or_default input.page_size 0;
        page_token = or_default input.page_token [];
        sort_field = sort_field_pb (or_default input.sort_field SortFieldInput.key);
        sort_order = sort_order_pb (or_default input.sort_order SortOrderInput.asc);
      })
      dtos ← lift (map_all (to_file_dto to_iso_string) res.files)
      shown ← look_up_previews (preview_ids res.files) dtos
      pure (record {
        directories = res.directories;
        files = shown;
        next_page_token = res.next_page_token;
      })
