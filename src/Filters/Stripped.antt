-- ===== src/Filters/Stripped.antt =====
-- The filters in a URL from which their default values are left out, as the routes of web/src/routes
-- have it by `stripSearchParams`.
use file_indexer.Prelude.{◌≡◌, sym, ap, ◌∙◌, ◌⊎◌, inl, inr, Text, codes, ◌===◌, or_default}
use file_indexer.Js.Value.{Value, undefined, str, get}
use file_indexer.Server.Inputs.{
  SortFieldInput, SortOrderInput, sort_field_text, sort_order_text, find_sort_field,
  find_sort_order,
}
use file_indexer.Server.Validate.Readers.{find_sort_field-text, find_sort_order-text}
use file_indexer.Filters.{
  BrowseFilters, SearchFilters, ListFilters, default_browse_filters, default_search_filters,
  default_list_filters, text_or, parse_sort, parse_order, normalize_browse_filters,
  normalize_search_filters, normalize_list_filters,
}
use file_indexer.Filters.Laws.{browse_params, search_params, list_params}

-- What a parameter of value `w` may read as, where its default is `d`: as it is, or as nothing if it has
-- its default.
abbrev pub IsStripped : Value → Value → Value → Type 0
IsStripped d w v = (v ≡ w) ⊎ ((w ≡ d) × (v ≡ undefined))

text_or-IsStripped : (d x : Text) (v : Value) → IsStripped (str d) (str x) v → text_or d v ≡ x
text_or-IsStripped d x v (inl kept) = ap (text_or d) kept
text_or-IsStripped d x v (inr (same, gone)) = ap (text_or d) gone ∙ sym (ap (text_or d) same)

sort-IsStripped :
    (d x : SortFieldInput) (v : Value)
    → IsStripped (str (sort_field_text d)) (str (sort_field_text x)) v
    → or_default (find_sort_field v) d ≡ x
unfolding find_sort_field
sort-IsStripped d x v (inl kept) =
    ap (λ w. or_default (find_sort_field w) d) kept
    ∙ ap (λ o. or_default o d) (find_sort_field-text x)
sort-IsStripped d x v (inr (same, gone)) =
    ap (λ w. or_default (find_sort_field w) d) gone
    ∙ ap (λ o. or_default o d) (sym (find_sort_field-text d))
    ∙ ap (λ w. or_default (find_sort_field w) d) (sym same)
    ∙ ap (λ o. or_default o d) (find_sort_field-text x)

order-IsStripped :
    (d x : SortOrderInput) (v : Value)
    → IsStripped (str (sort_order_text d)) (str (sort_order_text x)) v
    → or_default (find_sort_order v) d ≡ x
unfolding find_sort_order
order-IsStripped d x v (inl kept) =
    ap (λ w. or_default (find_sort_order w) d) kept
    ∙ ap (λ o. or_default o d) (find_sort_order-text x)
order-IsStripped d x v (inr (same, gone)) =
    ap (λ w. or_default (find_sort_order w) d) gone
    ∙ ap (λ o. or_default o d) (sym (find_sort_order-text d))
    ∙ ap (λ w. or_default (find_sort_order w) d) (sym same)
    ∙ ap (λ o. or_default o d) (find_sort_order-text x)

-- `stripSearchParams(defaults)`: of the parameters of a URL it leaves out some that have their default
-- value, and changes no other.
module _ (strip_search_params : Value → Value → Value)
    (strips : (defaults search : Value) (k : Text)
      → IsStripped
          (get defaults k)
          (get search k)
          (get (strip_search_params defaults search) k)) where
  browse_stripped :
      (f : BrowseFilters)
      → normalize_browse_filters
          (strip_search_params (browse_params default_browse_filters) (browse_params f))
        ≡ f
  unfolding normalize_browse_filters parse_sort parse_order get ◌===◌
  browse_stripped f =
      let d = default_browse_filters in
      let at = strips (browse_params d) (browse_params f) in
      let url = strip_search_params (browse_params d) (browse_params f) in
      let path = text_or-IsStripped d.path f.path (get url (codes "path")) (at (codes "path")) in
      let sort = sort-IsStripped d.sort f.sort (get url (codes "sort")) (at (codes "sort")) in
      let order = order-IsStripped d.order f.order (get url (codes "order")) (at (codes "order")) in
      λ i. record { path = path i; sort = sort i; order = order i }

  search_stripped :
      (f : SearchFilters)
      → normalize_search_filters
          (strip_search_params (search_params default_search_filters) (search_params f))
        ≡ f
  unfolding normalize_search_filters parse_sort parse_order get ◌===◌
  search_stripped f =
      let d = default_search_filters in
      let at = strips (search_params d) (search_params f) in
      let url = strip_search_params (search_params d) (search_params f) in
      let query =
        text_or-IsStripped d.query f.query (get url (codes "query")) (at (codes "query")) in
      let type = text_or-IsStripped d.type f.type (get url (codes "type")) (at (codes "type")) in
      let sort = sort-IsStripped d.sort f.sort (get url (codes "sort")) (at (codes "sort")) in
      let order = order-IsStripped d.order f.order (get url (codes "order")) (at (codes "order")) in
      λ i. record { query = query i; type = type i; sort = sort i; order = order i }

  list_stripped :
      (f : ListFilters)
      → normalize_list_filters
          (strip_search_params (list_params default_list_filters) (list_params f))
        ≡ f
  unfolding normalize_list_filters get ◌===◌
  list_stripped f =
      let d = default_list_filters in
      let at = strips (list_params d) (list_params f) in
      let url = strip_search_params (list_params d) (list_params f) in
      let sort = sort-IsStripped d.sort f.sort (get url (codes "sort")) (at (codes "sort")) in
      let order = order-IsStripped d.order f.order (get url (codes "order")) (at (codes "order")) in
      λ i. record { sort = sort i; order = order i }

  -- Where the router leaves parameters out of a URL only if they have their default value: the filters
  -- of a browsed folder, those of a search and the order of a plain list come back from the URL that
  -- their route gives them.
  pub stripped_roundtrip :
      (browse : BrowseFilters) (search : SearchFilters) (list : ListFilters)
      → (normalize_browse_filters
            (strip_search_params (browse_params default_browse_filters) (browse_params browse))
          ≡ browse)
        × (normalize_search_filters
              (strip_search_params (search_params default_search_filters) (search_params search))
            ≡ search)
        × (normalize_list_filters
              (strip_search_params (list_params default_list_filters) (list_params list))
            ≡ list)
  stripped_roundtrip browse search list =
      (browse_stripped browse, search_stripped search, list_stripped list)
