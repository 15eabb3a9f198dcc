-- ===== src/Lists.antt =====
-- What the lists ask for and show: web/src/components/FileList.tsx, DirectoryList.tsx, PhotoWall.tsx and
-- SearchBar.tsx.
pub mod Requests
pub mod Options
pub mod Folders
pub mod Deletion
pub mod Paging
pub mod Fetching
pub mod Scrolling
pub mod Ending
pub mod Failing
use file_indexer.Prelude.{
  ℕ, zero, suc, pos, Bool, true, false, not, ◌&&◌, Option, none, some, List, [], ◌∷◌, ◌++◌, any,
  Text, codes, length, ◌==◌, ◌===◌, leb, ◌-◌, if◌then◌else◌,
}
use mathlib.Core.List.{foldl}
use file_indexer.Js.Value.{Value, int, str, obj, end, field}
use file_indexer.Server.Inputs.{SortFieldInput, SortOrderInput, sort_field_text, sort_order_text}
use file_indexer.Filters.{SearchFilters, ListFilters, default_list_filters}
use file_indexer.Folders.{drop_end_slash}

-- The input of a listing of files: `listFiles({ data: … })`.
abbrev listing : ℕ → Text → Text → Text → SortFieldInput → SortOrderInput → Value
listing page_size page_token query content_type sort order = obj (
    field (codes "pageSize") (int (pos page_size)) (
      field (codes "pageToken") (str page_token) (
        field (codes "query") (str query) (
          field (codes "contentType") (str content_type) (
            field (codes "sortField") (str (sort_field_text sort))
              (field (codes "sortOrder") (str (sort_order_text order)) end))))))

-- A page of the files that match, of the photos, and of the files in the dropdown of the search box.
unfoldable pub list_files_data : SearchFilters → Text → Value
list_files_data filters page_param =
    listing 50 page_param filters.query filters.type filters.sort filters.order

unfoldable pub photos_data : Text → Value
photos_data page_param =
    listing 24 page_param [] (codes "image/") SortFieldInput.taken_at SortOrderInput.desc

unfoldable pub dropdown_data : Text → Value
dropdown_data query = obj (
    field (codes "query") (str query) (
      field (codes "pageSize") (int (pos 10)) (
        field (codes "sortField") (str (sort_field_text SortFieldInput.key))
          (field (codes "sortOrder") (str (sort_order_text SortOrderInput.asc)) end))))

unfoldable pub dropdown_folders_data : Text → Value
dropdown_folders_data query =
    obj (field (codes "query") (str query) (field (codes "pageSize") (int (pos 5)) end))

unfoldable pub directory_data : Text → SortFieldInput → SortOrderInput → Text → Value
directory_data path sort order page_param = obj (
    field (codes "path") (str path) (
      field (codes "pageSize") (int (pos 50)) (
        field (codes "pageToken") (str page_param) (
          field (codes "sortField") (str (sort_field_text sort))
            (field (codes "sortOrder") (str (sort_order_text order)) end)))))

-- `{ ...RECENTS_FILTERS, ...filters }`
unfoldable pub recents_filters : ListFilters → SearchFilters
recents_filters filters = record {
  query = [];
  type = [];
  sort = filters.sort;
  order = filters.order;
}

-- `xs.includes(x)`
unfoldable pub includes : List Text → Text → Bool
includes xs x = any (λ y. y === x) xs

-- The types that the dropdown offers behind `All types`.
unfoldable pub option_values : Text → List Text → List Text
unfolding includes
option_values type categories =
    if not (type === []) && not (includes categories type) then type ∷ categories else categories

-- `toUpperCase` depends on tables of letters, and is a parameter.
module _ (to_upper_case : Text → Text) where
  abbrev pub capitalized : Text → Text
  capitalized [] = to_upper_case []
  capitalized (c ∷ s) = to_upper_case (c ∷ []) ++ s

  unfoldable pub category_label : Text → Text
  unfolding drop_end_slash
  category_label category = capitalized (drop_end_slash category)

-- `key.slice(path.length)`
unfoldable pub basename : Text → Text → Text
basename [] key = key
basename (_ ∷ path) [] = []
basename (_ ∷ path) (_ ∷ key) = basename path key

unfoldable pub dir_name : Text → Text → Text
unfolding basename drop_end_slash
dir_name path dir = drop_end_slash (basename path dir)
