-- ===== src/Lists/Fetching.antt =====
-- When the observer of a list fetches, and what it fetches.
use file_indexer.Prelude.{
  ◌≡◌, ◌≢◌, refl, sym, ap, ◌∙◌, ◌⊎◌, inl, inr, Bool, true, false, not, ◌&&◌, and-true, not-true,
  Option, none, some, List, [], ◌∷◌, ◌++◌, Text, Bool-cases, if◌then◌else◌,
}
use file_indexer.Lists.Paging.{
  InfiniteQuery, param_after, is_some, is_nil, ListView, loading, failed, rows_view, shown_rows,
  list_view, has_sentinel, on_intersect,
}

module _ {P : Type 0} (next_param : P → Option Text) where
  pub param_after-append :
      (found : Option Text) (pages : List P) (p : P)
      → param_after next_param found (pages ++ p ∷ []) ≡ next_param p
  param_after-append found [] p = refl
  param_after-append found (q ∷ pages) p = param_after-append (next_param q) pages p

  pub param_after-filled :
      (a b : Option Text) (pages : List P)
      → pages ≢ []
      → param_after next_param a pages ≡ param_after next_param b pages
  param_after-filled a b [] h = absurd (h refl)
  param_after-filled a b (p ∷ pages) h = refl

module _ {A : Type 0} where
  pub some-eq : (o : Option A) → is_some o ≡ true → (t : A) × (o ≡ some t)
  some-eq none h = cc
  some-eq (some t) h = (t, refl)

  pub none-eq : (o : Option A) → is_some o ≡ false → o ≡ none
  none-eq none h = refl
  none-eq (some t) h = cc

module _ {P Q : Type 0} (next_param : P → Option Text) (query : InfiniteQuery next_param Q) where
  -- The parameter of the page that comes after those that are there.
  abbrev pub due : Q → Option Text
  due q = param_after next_param (some []) (query.pages q)

module _ {P Q A : Type 0} (next_param : P → Option Text) (query : InfiniteQuery next_param Q)
    (rows : List P → List A) (needs_rows : Bool) where
  -- The sentinel is there only with pages, and with no error.
  sentinel-test :
      (pages : List P) (is_error : Bool) (view : ListView A)
      → has_sentinel needs_rows
          (if is_nil pages && not is_error then loading else if is_error then failed else view)
        ≡ true
      → (pages ≢ []) × (is_error ≡ false)
  sentinel-test [] true view h = cc
  sentinel-test [] false view h = cc
  sentinel-test (p ∷ pages) true view h = cc
  sentinel-test (p ∷ pages) false view h = ((λ e. cc), refl)

  -- When the observer fetches.
  pub fetching :
      (q : Q) (is_intersecting : Bool)
      → (on_intersect next_param query rows needs_rows q is_intersecting ≡ q)
        ⊎ ((query.pages q ≢ [])
            × (query.is_error q ≡ false)
            × (query.has_next_page q ≡ true)
            × (query.is_fetching_next_page q ≡ false)
            × (on_intersect next_param query rows needs_rows q is_intersecting
                ≡ query.fetch_next_page q))
  unfolding on_intersect list_view
  fetching q is_intersecting =
      let view =
        rows_view (shown_rows next_param query rows needs_rows q) false
          (query.is_fetching_next_page q) in
      let is_there = has_sentinel needs_rows (
        if is_nil (query.pages q) && not (query.is_error q)
        then loading
        else if query.is_error q
        then failed
        else view) in
      let wanted =
        is_intersecting && (query.has_next_page q && not (query.is_fetching_next_page q)) in
      elim (Bool-cases (is_there && wanted)) [
        | inl fetches ↦
            let (there, wants) = and-true is_there wanted fetches in
            let (_, more) =
              and-true is_intersecting
                (query.has_next_page q && not (query.is_fetching_next_page q)) wants in
            let (next, idle) =
              and-true (query.has_next_page q) (not (query.is_fetching_next_page q)) more in
            let (filled, sound) = sentinel-test (query.pages q) (query.is_error q) view there in
            inr (
              filled,
              sound,
              next,
              not-true (query.is_fetching_next_page q) idle,
              ap (λ b. if b then query.fetch_next_page q else q) fetches,
            )
        | inr not_so ↦ inl (ap (λ b. if b then query.fetch_next_page q else q) not_so)
      ]

  -- What the observer's fetch does to the query.
  abbrev pub Fetched : (q u : Q) → Type 0
  Fetched q u =
      (query.pages u ≡ query.pages q)
      × (query.is_error u ≡ query.is_error q)
      × ((t : Text) × (query.param u ≡ some t) × (due next_param query q ≡ some t))

  pub fetch-Fetched :
      (q : Q)
      → query.pages q ≢ []
      → query.has_next_page q ≡ true
      → query.is_fetching_next_page q ≡ false
      → Fetched q (query.fetch_next_page q)
  fetch-Fetched q filled next idle =
      let (t, e) =
        some-eq (param_after next_param none (query.pages q))
          (sym (query.has_next_page_lem q) ∙ next) in
      let at_rest = none-eq (query.param q) (sym (query.is_fetching_lem q filled) ∙ idle) in
      (
        query.pages-fetch q,
        query.is_error-fetch q,
        (
          t,
          query.param-fetch q t at_rest e,
          param_after-filled next_param (some []) none (query.pages q) filled ∙ e,
        ),
      )
