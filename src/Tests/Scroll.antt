-- ===== src/Tests/Scroll.antt =====
-- A list of two pages at concrete scrolling, over an infinite query that keeps what it is told.
use file_indexer.Prelude.{
  ◌≡◌, refl, Bool, true, false, ◌⊎◌, inl, inr, Option, none, some, List, [], ◌∷◌, ◌++◌, Text, codes,
  ◌===◌, pos, Bool-cases, if◌then◌else◌,
}
use file_indexer.Server.Types.{PreviewStatus, FileDto}
use file_indexer.Server.Listing.{ListFilesResult}
use file_indexer.Lists.Paging.{
  InfiniteQuery, table, failed, next_files_param, param_after, is_some, ScrollEvent, sentinel,
  page_arrived, page_failed, file_rows, list_view, scrolls,
}
use file_indexer.Lists.Fetching.{due}
use file_indexer.Lists.Scrolling.{Serves, so_far, left_at, scrolls-left}
use file_indexer.Lists.Failing.{scrolls-failed}
use file_indexer.Lists.Ending.{rounds, Ends, scrolls-whole}

record Query : Type 0 where
  pages : List ListFilesResult
  param : Option Text
  is_error : Bool

abbrev next_of : Query → Option Text
next_of q = param_after next_files_param none q.pages

abbrev fetch : Query → Query
fetch q = record q { param = next_of q }

abbrev query : InfiniteQuery next_files_param Query
query = record {
  start = record { pages = []; param = some []; is_error = false };
  pages = λ q. q.pages;
  param = λ q. q.param;
  is_error = λ q. q.is_error;
  has_next_page = λ q. is_some (next_of q);
  is_fetching_next_page = λ q. is_some q.param;
  fetch_next_page = fetch;
  succeed = λ p q. record { pages = q.pages ++ p ∷ []; param = none; is_error = false };
  fail = λ q. record q { param = none; is_error = true };
  start_pages = refl;
  start_param = refl;
  start_ok = refl;
  has_next_page_lem = λ q. refl;
  is_fetching_lem = λ q h. refl;
  pages-fetch = λ q. refl;
  param-fetch = λ q t idle next. next;
  is_error-fetch = λ q. refl;
  pages-succeed = λ p q. refl;
  param-succeed = λ p q. refl;
  is_error-succeed = λ p q. refl;
  pages-fail = λ q. refl;
  param-fail = λ q. refl;
  is_error-fail = λ q. refl;
}

abbrev file : Text → FileDto
file id = record {
  id = id;
  key = codes "a.jpg";
  content_type = codes "image/jpeg";
  size_bytes = pos 3;
  created_at = none;
  updated_at = none;
  taken_at = none;
  preview_url = none;
  preview_width = none;
  preview_height = none;
  preview_status = PreviewStatus.ready;
}

abbrev serve : Text → ListFilesResult
serve token =
    if token === []
    then record { files = file (codes "1") ∷ []; next_page_token = codes "n" }
    else if token === codes "n"
    then record { files = file (codes "2") ∷ []; next_page_token = [] }
    else record { files = []; next_page_token = [] }

abbrev left : Text → List FileDto
left token =
    if token === []
    then file (codes "1") ∷ file (codes "2") ∷ []
    else if token === codes "n"
    then file (codes "2") ∷ []
    else []

abbrev files_of : ListFilesResult → List FileDto
files_of p = p.files

serve_left : Serves next_files_param query file_rows false serve files_of left
unfolding next_files_param ◌===◌
serve_left token = elim (Bool-cases (token === [])) [
  | inl first ↦ rw first refl
  | inr other ↦ rw other (elim (Bool-cases (token === codes "n")) [
    | inl second ↦ rw second refl
    | inr neither ↦ rw neither refl
  ])
]

-- The second page fails, and is in sight all the time.
abbrev failing : List ScrollEvent
failing =
    page_arrived ∷ sentinel false ∷ sentinel true ∷ page_failed ∷ sentinel true ∷ page_arrived ∷ []

-- The list gives way to the text of the error, and stays so.
failing_view :
    list_view next_files_param query file_rows false false
      (scrolls next_files_param query file_rows false serve query.start failing)
    ≡ failed
unfolding scrolls list_view next_files_param ◌===◌ file_rows
failing_view = refl

scrolls-left_example :
    let q = scrolls next_files_param query file_rows false serve query.start failing in
    (so_far next_files_param query file_rows false serve files_of left q
        ++ left_at next_files_param query file_rows false serve files_of left
            (due next_files_param query q)
      ≡ left [])
    × ((query.pages q ≡ [])
        ⊎ (query.has_next_page q ≡ true)
        ⊎ (so_far next_files_param query file_rows false serve files_of left q ≡ left []))
scrolls-left_example =
    scrolls-left next_files_param query file_rows false serve files_of left serve_left failing

two_pages : Ends next_files_param query file_rows serve (some []) 2
unfolding next_files_param ◌===◌
two_pages = tt

scrolls-whole_example :
    let q = scrolls next_files_param query file_rows false serve query.start (rounds 2) in
    (so_far next_files_param query file_rows false serve files_of left q ≡ left [])
    × (query.has_next_page q ≡ false)
    × (query.param q ≡ none)
scrolls-whole_example =
    scrolls-whole next_files_param query file_rows serve files_of left 2 serve_left two_pages

whole_view :
    list_view next_files_param query file_rows false false
      (scrolls next_files_param query file_rows false serve query.start (rounds 2))
    ≡ table (file (codes "1") ∷ file (codes "2") ∷ []) false
unfolding scrolls list_view next_files_param ◌===◌ file_rows
whole_view = refl

-- The second page is asked for.
abbrev asking : List ScrollEvent
asking = page_arrived ∷ sentinel true ∷ []

second_asked :
    (scrolls next_files_param query file_rows false serve query.start asking).param
    ≡ some (codes "n")
unfolding scrolls list_view next_files_param ◌===◌ file_rows
second_asked = refl

scrolls-failed_example :
    let q = scrolls next_files_param query file_rows false serve query.start asking in
    let failed_at =
      scrolls next_files_param query file_rows false serve q (page_failed ∷ sentinel true ∷ []) in
    (list_view next_files_param query file_rows false true failed_at ≡ failed)
    × (query.pages failed_at ≡ query.pages q)
scrolls-failed_example =
    scrolls-failed next_files_param query file_rows false serve
      (scrolls next_files_param query file_rows false serve query.start asking) (codes "n")
      (sentinel true ∷ []) true second_asked
