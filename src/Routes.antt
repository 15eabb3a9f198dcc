-- ===== src/Routes.antt =====
-- Where the pages navigate to: web/src/routes.
pub mod Searching
use file_indexer.Prelude.{Bool, true, Text, ◌===◌}
use file_indexer.Filters.{
  BrowseFilters, SearchFilters, ListFilters, default_browse_filters, default_search_filters,
}
use file_indexer.Search.{Asked, select, select_folder, search}

-- A page with the parameters of its URL.
pub data Destination : Type 0 where
  file_page : Text → Destination
  browse_page : BrowseFilters → Destination
  search_page : SearchFilters → Destination
  recents_page : ListFilters → Destination

-- What the header navigates to when its search box asks for something.
unfoldable pub header_destination : Asked → Destination
header_destination (select id) = file_page id
header_destination (select_folder path) =
    browse_page (record default_browse_filters { path = path })
header_destination (search query) = search_page (record default_search_filters { query = query })

-- A navigation, and whether it replaces the entry of the browser's history.
pub record Navigation : Type 0 where
  pub destination : Destination
  pub replace : Bool

-- `handleFiltersChange` of the three pages
unfoldable pub change_browse : BrowseFilters → BrowseFilters → Navigation
change_browse filters next = record {
  destination = browse_page next;
  replace = next.path === filters.path;
}

unfoldable pub change_search : SearchFilters → Navigation
change_search next = record { destination = search_page next; replace = true }

unfoldable pub change_recents : SearchFilters → Navigation
change_recents next = record {
  destination = recents_page (record { sort = next.sort; order = next.order });
  replace = true;
}
