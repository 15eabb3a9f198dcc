-- ===== src/Filters/Laws.antt =====
-- Filters that were put into a URL come back out of it.
use file_indexer.Prelude.{◌≡◌, refl, codes, ◌===◌}
use file_indexer.Js.Value.{Value, str, obj, end, field, get}
use file_indexer.Server.Inputs.{sort_field_text, sort_order_text}
use file_indexer.Server.Validate.Readers.{find_sort_field-text, find_sort_order-text}
use file_indexer.Filters.{
  BrowseFilters, SearchFilters, ListFilters, parse_sort, parse_order, normalize_browse_filters,
  normalize_search_filters, normalize_list_filters,
}

-- The parameters that a route writes into its URL: the filters' fields, each a text.
abbrev pub browse_params : BrowseFilters → Value
browse_params f = obj (
    field (codes "path") (str f.path) (
      field (codes "sort") (str (sort_field_text f.sort))
        (field (codes "order") (str (sort_order_text f.order)) end)))

abbrev pub search_params : SearchFilters → Value
search_params f = obj (
    field (codes "query") (str f.query) (
      field (codes "type") (str f.type) (
        field (codes "sort") (str (sort_field_text f.sort))
          (field (codes "order") (str (sort_order_text f.order)) end))))

abbrev pub list_params : ListFilters → Value
list_params f = obj (
    field (codes "sort") (str (sort_field_text f.sort))
      (field (codes "order") (str (sort_order_text f.order)) end))

-- The filters of a browsed folder come back from the parameters that carry them.
pub normalize_browse_filters-params :
    (f : BrowseFilters) → normalize_browse_filters (browse_params f) ≡ f
unfolding normalize_browse_filters parse_sort parse_order get ◌===◌
normalize_browse_filters-params f =
    rw (find_sort_field-text f.sort, find_sort_order-text f.order) refl

-- The filters of a search come back from the parameters that carry them.
pub normalize_search_filters-params :
    (f : SearchFilters) → normalize_search_filters (search_params f) ≡ f
unfolding normalize_search_filters parse_sort parse_order get ◌===◌
normalize_search_filters-params f =
    rw (find_sort_field-text f.sort, find_sort_order-text f.order) refl

-- The order of a plain list comes back from the parameters that carry it.
normalize_list_filters-params : (f : ListFilters) → normalize_list_filters (list_params f) ≡ f
unfolding normalize_list_filters get ◌===◌
normalize_list_filters-params f =
    rw (find_sort_field-text f.sort, find_sort_order-text f.order) refl

-- The filters of a browsed folder, those of a search and the order of a plain list come back from the
-- URL parameters that carry them.
pub filters_roundtrip :
    (browse : BrowseFilters) (search : SearchFilters) (list : ListFilters)
    → (normalize_browse_filters (browse_params browse) ≡ browse)
      × (normalize_search_filters (search_params search) ≡ search)
      × (normalize_list_filters (list_params list) ≡ list)
filters_roundtrip browse search list = (
  normalize_browse_filters-params browse,
  normalize_search_filters-params search,
  normalize_list_filters-params list,
)
