-- ===== src/Lists/Scrolling.antt =====
-- What a list that is loaded page by page shows.
use file_indexer.Prelude.{
  ◌≡◌, ◌≢◌, refl, sym, ap, ◌∙◌, subst, ◌⊎◌, inl, inr, Bool, true, Option, none, some, List, [], ◌∷◌,
  ◌++◌, append-nil, append_assoc, flat_map, flat_map-append, Text, Bool-cases,
}
use file_indexer.Lists.Paging.{
  InfiniteQuery, param_after, ScrollEvent, sentinel, page_arrived, page_failed, on_page,
  on_failed_page, scroll, scrolls,
}
use file_indexer.Lists.Fetching.{
  param_after-append, param_after-filled, none-eq, due, fetching, fetch-Fetched,
}

module _ {P Q A : Type 0} (next_param : P → Option Text) (query : InfiniteQuery next_param Q)
    (rows : List P → List A) (needs_rows : Bool) (serve : Text → P) where
  -- What is being fetched, if anything, is the page that is due.
  abbrev IsDue : Q → Option Text → Type 0
  IsDue q none = Unit
  IsDue q (some t) = due next_param query q ≡ some t

  -- `part` are rows of a page, `left token` those that the server has from a page's parameter on.
  module _ {B : Type 0} (part : P → List B) (left : Text → List B) where
    abbrev pub left_at : Option Text → List B
    left_at none = []
    left_at (some token) = left token

    -- A page has the first of the rows that are left, and its token leads to the others.
    abbrev pub Serves : Type 0
    Serves = (token : Text) → part (serve token) ++ left_at (next_param (serve token)) ≡ left token

    abbrev pub so_far : Q → List B
    so_far q = flat_map part (query.pages q)

    abbrev IsSound : Q → Type 0
    IsSound q = (so_far q ++ left_at (due next_param query q) ≡ left []) × IsDue q (query.param q)

    module _ (serves : Serves) where
      page-IsSound :
          (q : Q) (t : Text) (u : Q)
          → query.pages u ≡ query.pages q ++ serve t ∷ []
          → query.param u ≡ none
          → due next_param query q ≡ some t
          → so_far q ++ left_at (due next_param query q) ≡ left []
          → IsSound u
      page-IsSound q t u grown idle next whole =
          let after : due next_param query u ≡ next_param (serve t) =
            ap (param_after next_param (some [])) grown
            ∙ param_after-append next_param (some []) (query.pages q) (serve t) in
          let more : so_far u ≡ so_far q ++ part (serve t) =
            ap (flat_map part) grown
            ∙ flat_map-append part (query.pages q) (serve t ∷ [])
            ∙ ap (λ bs. so_far q ++ bs) (append-nil (part (serve t))) in
          (
            ap (λ bs. bs ++ left_at (due next_param query u)) more
                ∙ ap (λ o. (so_far q ++ part (serve t)) ++ left_at o) after
                ∙ append_assoc (so_far q) (part (serve t)) (left_at (next_param (serve t)))
                ∙ ap (λ bs. so_far q ++ bs) (serves t)
                ∙ ap (λ o. so_far q ++ left_at o) (sym next)
                ∙ whole,
            subst (IsDue u) (sym idle) tt,
          )

      same_pages-IsSound :
          (q u : Q)
          → query.pages u ≡ query.pages q
          → ((query.param u ≡ none)
              ⊎ ((t : Text) × (query.param u ≡ some t) × (due next_param query q ≡ some t)))
          → so_far q ++ left_at (due next_param query q) ≡ left []
          → IsSound u
      same_pages-IsSound q u same p whole = (
        ap (λ ps. flat_map part ps ++ left_at (param_after next_param (some []) ps)) same ∙ whole,
        elim p [
          | inl idle ↦ subst (IsDue u) (sym idle) tt
          | inr (t, busy, next) ↦
              subst (IsDue u) (sym busy) (ap (param_after next_param (some [])) same ∙ next)
        ],
      )

      on_page-IsSound :
          (q : Q) (o : Option Text)
          → IsDue q o
          → IsSound q
          → IsSound (on_page next_param query rows needs_rows serve q o)
      on_page-IsSound q none d s = s
      on_page-IsSound q (some t) d s =
          page-IsSound q t (query.succeed (serve t) q) (query.pages-succeed (serve t) q)
            (query.param-succeed (serve t) q) d s.0

      on_failed_page-IsSound :
          (q : Q) (o : Option Text)
          → IsSound q
          → IsSound (on_failed_page next_param query rows needs_rows serve q o)
      on_failed_page-IsSound q none s = s
      on_failed_page-IsSound q (some t) s =
          same_pages-IsSound q (query.fail q) (query.pages-fail q) (inl (query.param-fail q)) s.0

      scroll-IsSound :
          (q : Q) (e : ScrollEvent)
          → IsSound q
          → IsSound (scroll next_param query rows needs_rows serve q e)
      unfolding scroll
      scroll-IsSound q (sentinel is_intersecting) s =
          elim (fetching next_param query rows needs_rows q is_intersecting) [
            | inl still ↦ subst IsSound (sym still) s
            | inr (filled, sound, next, idle, fetched) ↦
                let (same, _, busy) =
                  fetch-Fetched next_param query rows needs_rows q filled next idle in
                subst IsSound (sym fetched)
                  (same_pages-IsSound q (query.fetch_next_page q) same (inr busy) s.0)
          ]
      scroll-IsSound q page_arrived s = on_page-IsSound q (query.param q) s.1 s
      scroll-IsSound q page_failed s = on_failed_page-IsSound q (query.param q) s

      scrolls-IsSound :
          (events : List ScrollEvent) (q : Q)
          → IsSound q
          → IsSound (scrolls next_param query rows needs_rows serve q events)
      unfolding scrolls
      scrolls-IsSound [] q s = s
      scrolls-IsSound (e ∷ events) q s =
          scrolls-IsSound events (scroll next_param query rows needs_rows serve q e)
            (scroll-IsSound q e s)

      start-IsSound : IsSound query.start
      start-IsSound = (
        ap (λ ps. flat_map part ps ++ left_at (param_after next_param (some []) ps))
            query.start_pages,
        subst (IsDue query.start) (sym query.start_param)
            (ap (param_after next_param (some [])) query.start_pages),
      )

      whole_or_more :
          (q : Q) (pages : List P)
          → query.pages q ≡ pages
          → so_far q ++ left_at (due next_param query q) ≡ left []
          → (query.pages q ≡ []) ⊎ (query.has_next_page q ≡ true) ⊎ (so_far q ≡ left [])
      whole_or_more q [] there whole = inl there
      whole_or_more q (p ∷ pages) there whole = elim (Bool-cases (query.has_next_page q)) [
        | inl more ↦ inr (inl more)
        | inr last ↦
            let filled : query.pages q ≢ [] = λ e. cc in
            let nothing : due next_param query q ≡ none =
              param_after-filled next_param (some []) none (query.pages q) filled
              ∙ none-eq (param_after next_param none (query.pages q))
                  (sym (query.has_next_page_lem q) ∙ last) in
            inr (
              inr (
                sym (append-nil (so_far q))
                ∙ ap (λ o. so_far q ++ left_at o) (sym nothing)
                ∙ whole))
      ]

      -- Whatever part of the list is in sight, whenever pages arrive or fail to: the rows so far, put
      -- before those that the server has from the next page's parameter on, are all its rows, in
      -- their order. So nothing is skipped or shown twice, and when pages are there and none is to
      -- follow, the list is whole.
      pub scrolls-left :
          (events : List ScrollEvent)
          → let q = scrolls next_param query rows needs_rows serve query.start events in
            (so_far q ++ left_at (due next_param query q) ≡ left [])
            × ((query.pages q ≡ []) ⊎ (query.has_next_page q ≡ true) ⊎ (so_far q ≡ left []))
      scrolls-left events =
          let q = scrolls next_param query rows needs_rows serve query.start events in
          let s = scrolls-IsSound events query.start start-IsSound in
          (s.0, whole_or_more q (query.pages q) refl s.0)
