-- ===== src/Server/Listing/Pages.antt =====
-- A page of a listing is whole whatever happens to its previews.
use file_indexer.Prelude.{
  ℤ, ◌≡◌, refl, Option, none, some, List, [], ◌∷◌, Text, Result, ok, map_all, Failure, Outcome,
  done, failed,
}
use file_indexer.Server.Types.{Timestamp, FileInfo, FileDto}
use file_indexer.Server.Dto.{to_file_dto}
use file_indexer.Server.Services.{
  SearchClient, FilesClient, UrlSpec, ListFilesRequest, ListFilesResponse, ListDirectoryRequest,
  ListDirectoryResponse,
}
use file_indexer.Server.Inputs.{SortFieldInput, SortOrderInput, ListFilesInput, ListDirectoryInput}
use file_indexer.Server.Listing.{
  preview_ids, look_up_previews, ListFilesResult, ListDirectoryResult, list_files_impl,
  list_directory_impl, sort_field_pb, sort_order_pb,
}
use file_indexer.Server.Listing.Previews.{Rows, Rows-fill_in, map_all-Rows}
use file_indexer.Prelude.{or_default}

-- The requests that the defaults make of an input.
abbrev pub list_files_request : ListFilesInput → ListFilesRequest
list_files_request input = record {
  page_size = or_default input.page_size 0;
  page_token = or_default input.page_token [];
  query = or_default input.query [];
  content_type = or_default input.content_type [];
  sort_field = sort_field_pb (or_default input.sort_field SortFieldInput.key);
  sort_order = sort_order_pb (or_default input.sort_order SortOrderInput.asc);
}

abbrev pub list_directory_request : ListDirectoryInput → ListDirectoryRequest
list_directory_request input = record {
  path = or_default input.path [];
  page_size = or_default input.page_size 0;
  page_token = or_default input.page_token [];
  sort_field = sort_field_pb (or_default input.sort_field SortFieldInput.key);
  sort_order = sort_order_pb (or_default input.sort_order SortOrderInput.asc);
}

module _ {S : Type 0} (files : FilesClient S) where
  -- How a page came by its previews: no file has one, the service answered, or the call was lost.
  pub data Lookup (ids : List ℤ) (s : S) : Option (List UrlSpec) → S → Type 0 where
    not_needed : {t : S} → ids ≡ [] → t ≡ s → Lookup ids s none t
    answered :
        {specs : List UrlSpec} {t : S}
        → files.get_preview_url ids s ≡ done specs t
        → Lookup ids s (some specs) t
    lost : {e : Failure} {t : S} → files.get_preview_url ids s ≡ failed e t → Lookup ids s none t

  abbrev Looked : List ℤ → List FileInfo → List FileDto → S → Type 0
  Looked ids infos dtos s =
      (shown : List FileDto) × (answer : Option (List UrlSpec)) × (t : S) × (look_up_previews files
          ids dtos s
        ≡ done shown t)
      × Lookup ids s answer t
      × Rows answer infos shown

  look_up_previews_lem :
      (id : ℤ) (ids : List ℤ) (infos : List FileInfo) (dtos : List FileDto) (s : S)
      → Rows none infos dtos
      → (o : Outcome S (List UrlSpec)) → files.get_preview_url (id ∷ ids) s ≡ o
      → Looked (id ∷ ids) infos dtos s
  unfolding look_up_previews
  look_up_previews_lem id ids infos dtos s rows (done specs t) e =
      (_, some specs, t, rw e, answered e, Rows-fill_in specs infos dtos rows)
  look_up_previews_lem id ids infos dtos s rows (failed f t) e = (dtos, none, t, rw e, lost e, rows)

  look_up_previews-Rows :
      (ids : List ℤ) (infos : List FileInfo) (dtos : List FileDto) (s : S)
      → Rows none infos dtos
      → Looked ids infos dtos s
  unfolding look_up_previews
  look_up_previews-Rows [] infos dtos s rows = (dtos, none, s, refl, not_needed refl refl, rows)
  look_up_previews-Rows (id ∷ ids) infos dtos s rows =
      look_up_previews_lem id ids infos dtos s rows (files.get_preview_url (id ∷ ids) s) refl

  module _ (search : SearchClient S) (to_iso_string : Timestamp → Result Text) where
    -- Once the search service has answered and its timestamps are dates, `listFilesImpl` returns a
    -- page, with the answer's files row by row and its token. A row's URL is the last that the
    -- preview service gave for its id, and null if there was no call, no such id, or no answer.
    pub list_files_impl-Rows :
        (input : ListFilesInput) (s : S) {res : ListFilesResponse} {mid : S} {dtos : List FileDto}
        → search.list_files (list_files_request input) s ≡ done res mid
        → map_all (to_file_dto to_iso_string) res.files ≡ ok dtos
        → (page : ListFilesResult) × (answer : Option (List UrlSpec)) × (t : S) × (list_files_impl
              files search to_iso_string input s
            ≡ done page t)
          × Lookup (preview_ids res.files) mid answer t
          × Rows answer res.files page.files
          × (page.next_page_token ≡ res.next_page_token)
    unfolding list_files_impl
    list_files_impl-Rows input s {res} {mid} {dtos} found converted =
        let (shown, answer, t, e, l, rows) =
          look_up_previews-Rows (preview_ids res.files) res.files dtos mid
            (map_all-Rows to_iso_string res.files dtos converted) in
        (
          record { files = shown; next_page_token = res.next_page_token },
          answer,
          t,
          rw (found, converted, e),
          l,
          rows,
          refl,
        )

    -- `listDirectoryImpl` does the same, and passes the child directories on.
    pub list_directory_impl-Rows :
        (input : ListDirectoryInput) (s : S) {res : ListDirectoryResponse} {mid : S}
        {dtos : List FileDto}
        → search.list_directory (list_directory_request input) s ≡ done res mid
        → map_all (to_file_dto to_iso_string) res.files ≡ ok dtos
        → (page : ListDirectoryResult) × (answer : Option (List UrlSpec)) × (t : S)
          × (list_directory_impl files search to_iso_string input s ≡ done page t)
          × Lookup (preview_ids res.files) mid answer t
          × Rows answer res.files page.files
          × (page.directories ≡ res.directories)
          × (page.next_page_token ≡ res.next_page_token)
    unfolding list_directory_impl
    list_directory_impl-Rows input s {res} {mid} {dtos} found converted =
        let (shown, answer, t, e, l, rows) =
          look_up_previews-Rows (preview_ids res.files) res.files dtos mid
            (map_all-Rows to_iso_string res.files dtos converted) in
        (
          record {
            directories = res.directories;
            files = shown;
            next_page_token = res.next_page_token;
          },
          answer,
          t,
          rw (found, converted, e),
          l,
          rows,
          refl,
          refl,
        )
