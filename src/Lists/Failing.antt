-- ===== src/Lists/Failing.antt =====
-- A list whose next page could not be fetched.
use file_indexer.Prelude.{
  ◌≡◌, refl, ap, ◌∙◌, inl, inr, Bool, true, false, not, ◌&&◌, Option, none, some, List, [], ◌∷◌,
  Text, if◌then◌else◌,
}
use file_indexer.Lists.Paging.{
  InfiniteQuery, is_nil, ScrollEvent, sentinel, page_arrived, page_failed, ListView, loading,
  failed, rows_view, shown_rows, list_view, on_page, on_failed_page, scroll, scrolls,
}
use file_indexer.Lists.Fetching.{fetching}

module _ {P Q A : Type 0} (next_param : P → Option Text) (query : InfiniteQuery next_param Q)
    (rows : List P → List A) (needs_rows : Bool) (serve : Text → P) where
  abbrev HasFailed : Q → Type 0
  HasFailed q = (query.is_error q ≡ true) × (query.param q ≡ none)

  failed_test :
      (pages : List P) (is_error : Bool) (view : ListView A)
      → is_error ≡ true
      → (if is_nil pages && not is_error then loading else if is_error then failed else view)
        ≡ failed
  failed_test [] true view h = refl
  failed_test (p ∷ pages) true view h = refl
  failed_test pages false view h = cc

  scroll_failed :
      (q : Q) (e : ScrollEvent)
      → HasFailed q
      → scroll next_param query rows needs_rows serve q e ≡ q
  unfolding scroll
  scroll_failed q (sentinel is_intersecting) (lost, idle) =
      elim (fetching next_param query rows needs_rows q is_intersecting) [
        | inl still ↦ still
        | inr (_, sound, _, _, _) ↦ absurd (cc)
      ]
  scroll_failed q page_arrived (lost, idle) =
      ap (on_page next_param query rows needs_rows serve q) idle
  scroll_failed q page_failed (lost, idle) =
      ap (on_failed_page next_param query rows needs_rows serve q) idle

  scrolls_failed :
      (events : List ScrollEvent) (q : Q)
      → HasFailed q
      → scrolls next_param query rows needs_rows serve q events ≡ q
  unfolding scrolls
  scrolls_failed [] q f = refl
  scrolls_failed (e ∷ events) q f =
      ap (λ r. scrolls next_param query rows needs_rows serve r events) (scroll_failed q e f)
      ∙ scrolls_failed events q f

  -- When a page could not be fetched, also a further one, the list shows the error alone, the pages that
  -- it has notwithstanding, and no scrolling fetches the page again.
  pub scrolls-failed :
      (q : Q) (t : Text) (events : List ScrollEvent) (is_filtered : Bool)
      → query.param q ≡ some t
      → let failed_at = scrolls next_param query rows needs_rows serve q (page_failed ∷ events) in
        (list_view next_param query rows needs_rows is_filtered failed_at ≡ failed)
        × (query.pages failed_at ≡ query.pages q)
  unfolding scrolls list_view
  scrolls-failed q t events is_filtered busy =
      let r = query.fail q in
      let lost = query.is_error-fail q in
      let stays =
        ap
          (λ o.
            scrolls next_param query rows needs_rows serve
              (on_failed_page next_param query rows needs_rows serve q o) events)
          busy
        ∙ scrolls_failed events r (lost, query.param-fail q) in
      (
        ap (list_view next_param query rows needs_rows is_filtered) stays
            ∙ failed_test (query.pages r) (query.is_error r)
                (rows_view (shown_rows next_param query rows needs_rows r) is_filtered
                  (query.is_fetching_next_page r))
                lost,
        ap query.pages stays ∙ query.pages-fail q,
      )
