-- ===== src/Routes/Searching.antt =====
-- From the search box to the server.
use file_indexer.Prelude.{◌≡◌, ◌≢◌, ok, some, List, [], ◌∷◌, All, map, Result, Text}
use file_indexer.Js.Space.{trim}
use file_indexer.Server.Inputs.{SortFieldInput, SortOrderInput, ListFilesInput}
use file_indexer.Server.Validate.{validate_list_files_input}
use file_indexer.Filters.{SearchFilters, normalize_browse_filters, normalize_search_filters}
use file_indexer.Filters.Laws.{
  browse_params, search_params, normalize_browse_filters-params, normalize_search_filters-params,
}
use file_indexer.Lists.{list_files_data}
use file_indexer.Lists.Requests.{validate_list_files_input-list_files_data}
use file_indexer.Search.{Asked, select, select_folder, search, new_box, Event, handle_boxes}
use file_indexer.Search.Settling.{IsProper, handle_boxes-IsProper}
use file_indexer.Routes.{Destination, browse_page, search_page, header_destination}

-- What a page reads from its URL and asks the server for, as the server reads it.
abbrev pub read_request : SearchFilters → Text → Result ListFilesInput
read_request filters token =
    validate_list_files_input
      (list_files_data (normalize_search_filters (search_params filters)) token)

-- A search page that finds what was asked: files by a text that is not empty and has no space at its
-- ends, of all types, in the order of their keys. A browse page shows the folder that it was sent to.
abbrev pub Finds : Text → Destination → Type 0
Finds token (search_page filters) =
    (q : Text) × (q ≢ [])
    × (trim q ≡ q)
    × (read_request filters token
        ≡ ok (record {
          page_size = some 50;
          page_token = some token;
          query = some q;
          content_type = some [];
          sort_field = some SortFieldInput.key;
          sort_order = some SortOrderInput.asc;
        }))
Finds token (browse_page filters) = normalize_browse_filters (browse_params filters) ≡ filters
Finds token _ = Unit

read_request-filters :
    (filters : SearchFilters) (token : Text)
    → read_request filters token
      ≡ ok (record {
        page_size = some 50;
        page_token = some token;
        query = some filters.query;
        content_type = some filters.type;
        sort_field = some filters.sort;
        sort_order = some filters.order;
      })
read_request-filters filters token =
    rw (normalize_search_filters-params filters)
      ((validate_list_files_input-list_files_data filters [] [] token filters.sort filters.order).0)

header_destination-Finds :
    (token : Text) (a : Asked) → IsProper a → Finds token (header_destination a)
unfolding header_destination
header_destination-Finds token (select id) h = tt
header_destination-Finds token (select_folder path) h = normalize_browse_filters-params _
header_destination-Finds token (search q) (full, trimmed) =
    (q, full, trimmed, read_request-filters _ token)

All-Finds :
    (token : Text) (asked : List Asked)
    → All IsProper asked
    → All (Finds token) (map header_destination asked)
All-Finds token [] h = tt
All-Finds token (a ∷ asked) (first, h) =
    (header_destination-Finds token a first, All-Finds token asked h)

-- Whatever was typed, pressed and picked in the search box, each search that the header navigates to
-- asks the server, for any page of its results, for the files that match a text that is not empty and
-- has no space at its ends, and the server accepts that; each folder that it navigates to comes back
-- unchanged out of its URL.
pub header_destination-handle_boxes :
    (events : List Event) (token : Text)
    → All (Finds token) (map header_destination (handle_boxes new_box events).asked)
header_destination-handle_boxes events token =
    All-Finds token (handle_boxes new_box events).asked (handle_boxes-IsProper events)
