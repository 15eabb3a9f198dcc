-- ===== src/Lists/Paging.antt =====
-- Loading a list page by page: the infinite queries and the sentinels of web/src/components/FileList.tsx,
-- DirectoryList.tsx and PhotoWall.tsx, and what each of these shows.
use file_indexer.Prelude.{
  ◌≡◌, ◌≢◌, Bool, true, false, not, ◌&&◌, Option, none, some, List, [], ◌∷◌, ◌++◌, flat_map, map,
  ◌⊎◌, inl, inr, ◌||◌, Text, ◌===◌, if◌then◌else◌,
}
use mathlib.Core.List.{foldl}
use file_indexer.Filters.{SearchFilters}
use file_indexer.Server.Types.{FileDto}
use file_indexer.Server.Listing.{ListFilesResult, ListDirectoryResult}

-- `lastPage.nextPageToken || undefined`
abbrev pub token_or_none : Text → Option Text
token_or_none [] = none
token_or_none (c ∷ s) = some (c ∷ s)

-- `getNextPageParam` of a list of files and of the photo wall, and of a listing of a folder.
unfoldable pub next_files_param : ListFilesResult → Option Text
next_files_param last_page = token_or_none last_page.next_page_token

unfoldable pub next_directory_param : ListDirectoryResult → Option Text
next_directory_param last_page = token_or_none last_page.next_page_token

abbrev pub is_some : {A : Type 0} → Option A → Bool
is_some none = false
is_some (some _) = true

-- What `getNextPageParam` gives for the last page of all.
module _ {P : Type 0} (next_param : P → Option Text) where
  abbrev pub param_after : Option Text → List P → Option Text
  param_after found [] = found
  param_after found (p ∷ pages) = param_after (next_param p) pages

  -- What the lists use of `useInfiniteQuery`, as its documentation has it. `param` is the parameter of
  -- the page that is being fetched; `succeed` and `fail` are the ends of that, after the library's own retries.
  pub record InfiniteQuery (Q : Type 0) : Type 0 where
    pub start : Q
    pub pages : Q → List P
    pub param : Q → Option Text
    pub is_error : Q → Bool
    pub has_next_page : Q → Bool
    pub is_fetching_next_page : Q → Bool
    pub fetch_next_page : Q → Q
    pub succeed : P → Q → Q
    pub fail : Q → Q
    -- `initialPageParam`
    pub start_pages : pages start ≡ []
    pub start_param : param start ≡ some []
    pub start_ok : is_error start ≡ false
    pub has_next_page_lem : (q : Q) → has_next_page q ≡ is_some (param_after none (pages q))
    pub is_fetching_lem : (q : Q) → pages q ≢ [] → is_fetching_next_page q ≡ is_some (param q)
    pub pages-fetch : (q : Q) → pages (fetch_next_page q) ≡ pages q
    pub param-fetch :
        (q : Q) (t : Text)
        → param q ≡ none
        → param_after none (pages q) ≡ some t
        → param (fetch_next_page q) ≡ some t
    pub is_error-fetch : (q : Q) → is_error (fetch_next_page q) ≡ is_error q
    pub pages-succeed : (p : P) (q : Q) → pages (succeed p q) ≡ pages q ++ p ∷ []
    pub param-succeed : (p : P) (q : Q) → param (succeed p q) ≡ none
    pub is_error-succeed : (p : P) (q : Q) → is_error (succeed p q) ≡ false
    pub pages-fail : (q : Q) → pages (fail q) ≡ pages q
    pub param-fail : (q : Q) → param (fail q) ≡ none
    pub is_error-fail : (q : Q) → is_error (fail q) ≡ true

-- The sentinel comes into sight or leaves it, and a page arrives or fails to.
pub data ScrollEvent : Type 0 where
  sentinel : Bool → ScrollEvent
  page_arrived page_failed : ScrollEvent

abbrev pub is_nil : {A : Type 0} → List A → Bool
is_nil [] = true
is_nil (_ ∷ _) = false

-- What a list of files, a listing of a folder or the photo wall has on the page.
pub data ListView (A : Type 0) : Type 0 where
  loading failed : ListView A
  -- whether the list is filtered, and whether more is loading
  no_rows : Bool → Bool → ListView A
  table : List A → Bool → ListView A

module _ {A : Type 0} where
  abbrev pub rows_view : List A → Bool → Bool → ListView A
  rows_view [] is_filtered is_fetching = no_rows is_filtered is_fetching
  rows_view (r ∷ rs) is_filtered is_fetching = table (r ∷ rs) is_fetching

  -- The photo wall has no sentinel while it has no photos, which is what `needs_rows` says.
  abbrev pub has_sentinel : Bool → ListView A → Bool
  has_sentinel needs_rows loading = false
  has_sentinel needs_rows failed = false
  has_sentinel needs_rows (no_rows _ _) = not needs_rows
  has_sentinel needs_rows (table _ _) = true

-- `A` is the type of the rows.
module _ {P Q A : Type 0} (next_param : P → Option Text) (query : InfiniteQuery next_param Q)
    (rows : List P → List A) (needs_rows : Bool) where
  abbrev pub shown_rows : Q → List A
  shown_rows q = rows (query.pages q)

  -- Without data and without an error the query is pending.
  unfoldable pub is_pending : Q → Bool
  is_pending q = is_nil (query.pages q) && not (query.is_error q)

  unfoldable pub list_view : Bool → Q → ListView A
  unfolding is_pending
  list_view is_filtered q =
      if is_pending q
      then loading
      else if query.is_error q
      then failed
      else rows_view (shown_rows q) is_filtered (query.is_fetching_next_page q)

  -- The observer's function, where the sentinel is on the page.
  unfoldable pub on_intersect : Q → Bool → Q
  unfolding list_view
  on_intersect q is_intersecting =
      if has_sentinel needs_rows (list_view false q)
        && (is_intersecting && (query.has_next_page q && not (query.is_fetching_next_page q)))
      then query.fetch_next_page q
      else q

  -- `serve` answers the query's function.
  module _ (serve : Text → P) where
    abbrev pub on_page : Q → Option Text → Q
    on_page q none = q
    on_page q (some token) = query.succeed (serve token) q

    abbrev pub on_failed_page : Q → Option Text → Q
    on_failed_page q none = q
    on_failed_page q (some token) = query.fail q

    unfoldable pub scroll : Q → ScrollEvent → Q
    unfolding on_intersect
    scroll q (sentinel is_intersecting) = on_intersect q is_intersecting
    scroll q page_arrived = on_page q (query.param q)
    scroll q page_failed = on_failed_page q (query.param q)

    unfoldable pub scrolls : Q → List ScrollEvent → Q
    unfolding scroll
    scrolls q events = foldl scroll q events

-- The rows of a list of files and of the photo wall: `data.pages.flatMap((page) => page.files)`.
unfoldable pub file_rows : List ListFilesResult → List FileDto
file_rows pages = flat_map (λ (p : ListFilesResult). p.files) pages

-- The rows of a listing: all folders, then all files.
unfoldable pub directory_rows : List ListDirectoryResult → List (Text ⊎ FileDto)
directory_rows pages =
    map inl (flat_map (λ (p : ListDirectoryResult). p.directories) pages)
    ++ map inr (flat_map (λ (p : ListDirectoryResult). p.files) pages)

-- `isFiltered`
unfoldable pub is_filtered : SearchFilters → Bool
is_filtered filters = not (filters.query === []) || not (filters.type === [])
