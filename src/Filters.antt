-- ===== src/Filters.antt =====
-- web/src/lib/fileFilters.ts: what the pages read from the parameters of their URLs.
pub mod Laws
pub mod Stripped
use file_indexer.Prelude.{Option, none, some, List, [], Text, codes, or_default}
use file_indexer.Js.Value.{Value, str, get}
use file_indexer.Server.Inputs.{SortFieldInput, SortOrderInput, find_sort_field, find_sort_order}

pub record BrowseFilters : Type 0 where
  pub path : Text
  pub sort : SortFieldInput
  pub order : SortOrderInput

pub record SearchFilters : Type 0 where
  pub query : Text
  pub type : Text
  pub sort : SortFieldInput
  pub order : SortOrderInput

pub record ListFilters : Type 0 where
  pub sort : SortFieldInput
  pub order : SortOrderInput

abbrev pub default_browse_filters : BrowseFilters
default_browse_filters = record { path = []; sort = SortFieldInput.key; order = SortOrderInput.asc }

abbrev pub default_search_filters : SearchFilters
default_search_filters = record {
  query = [];
  type = [];
  sort = SortFieldInput.key;
  order = SortOrderInput.asc;
}

abbrev pub default_list_filters : ListFilters
default_list_filters = record { sort = SortFieldInput.last_modified; order = SortOrderInput.desc }

unfoldable pub parse_sort : Value → SortFieldInput
parse_sort v = or_default (find_sort_field v) default_browse_filters.sort

unfoldable pub parse_order : Value → SortOrderInput
parse_order v = or_default (find_sort_order v) default_browse_filters.order

-- `typeof v === 'string' ? v : otherwise`
abbrev pub text_or : Text → Value → Text
text_or otherwise (str s) = s
text_or otherwise _ = otherwise

unfoldable pub normalize_browse_filters : Value → BrowseFilters
normalize_browse_filters search = record {
  path = text_or default_browse_filters.path (get search (codes "path"));
  sort = parse_sort (get search (codes "sort"));
  order = parse_order (get search (codes "order"));
}

unfoldable pub normalize_search_filters : Value → SearchFilters
normalize_search_filters search = record {
  query = text_or default_search_filters.query (get search (codes "query"));
  type = text_or default_search_filters.type (get search (codes "type"));
  sort = parse_sort (get search (codes "sort"));
  order = parse_order (get search (codes "order"));
}

unfoldable pub normalize_list_filters : Value → ListFilters
normalize_list_filters search = record {
  sort = or_default (find_sort_field (get search (codes "sort"))) default_list_filters.sort;
  order = or_default (find_sort_order (get search (codes "order"))) default_list_filters.order;
}
