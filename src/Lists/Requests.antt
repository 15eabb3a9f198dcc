-- ===== src/Lists/Requests.antt =====
-- The listing requests of the pages, as the server reads them.
use file_indexer.Prelude.{◌≡◌, refl, ok, none, some, [], Text, codes, ◌===◌}
use file_indexer.Js.Value.{get}
use file_indexer.Server.Inputs.{SortFieldInput, SortOrderInput}
use file_indexer.Server.Validate.{
  read_page_size, read_text, read_sort_field, read_sort_order, validate_list_files_input,
  validate_search_directories_input, validate_list_directory_input,
}
use file_indexer.Server.Validate.Readers.{find_sort_field-text, find_sort_order-text}
use file_indexer.Filters.{SearchFilters}
use file_indexer.Lists.{
  list_files_data, photos_data, dropdown_data, dropdown_folders_data, directory_data,
}

-- The server accepts every page that a list of files, the photo wall and a listing of a folder ask for,
-- and what the search box asks for, and reads the filters, the order, the path and the page's token
-- from them unchanged.
pub validate_list_files_input-list_files_data :
    (filters : SearchFilters) (path query token : Text) (sort : SortFieldInput)
    (order : SortOrderInput)
    → (validate_list_files_input (list_files_data filters token)
        ≡ ok (record {
          page_size = some 50;
          page_token = some token;
          query = some filters.query;
          content_type = some filters.type;
          sort_field = some filters.sort;
          sort_order = some filters.order;
        }))
      × (validate_list_files_input (photos_data token)
          ≡ ok (record {
            page_size = some 24;
            page_token = some token;
            query = some [];
            content_type = some (codes "image/");
            sort_field = some SortFieldInput.taken_at;
            sort_order = some SortOrderInput.desc;
          }))
      × (validate_list_files_input (dropdown_data query)
          ≡ ok (record {
            page_size = some 10;
            page_token = none;
            query = some query;
            content_type = none;
            sort_field = some SortFieldInput.key;
            sort_order = some SortOrderInput.asc;
          }))
      × (validate_search_directories_input (dropdown_folders_data query)
          ≡ ok (record { page_size = some 5; page_token = none; query = some query }))
      × (validate_list_directory_input (directory_data path sort order token)
          ≡ ok (record {
            path = some path;
            page_size = some 50;
            page_token = some token;
            sort_field = some sort;
            sort_order = some order;
          }))
unfolding validate_list_files_input validate_search_directories_input validate_list_directory_input
    list_files_data photos_data dropdown_data dropdown_folders_data directory_data read_page_size
    read_text read_sort_field read_sort_order get ◌===◌
validate_list_files_input-list_files_data filters path query token sort order = (
  rw (find_sort_field-text filters.sort, find_sort_order-text filters.order) refl,
  rw (find_sort_field-text SortFieldInput.taken_at, find_sort_order-text SortOrderInput.desc) refl,
  rw (find_sort_field-text SortFieldInput.key, find_sort_order-text SortOrderInput.asc) refl,
  refl,
  rw (find_sort_field-text sort, find_sort_order-text order) refl,
)
