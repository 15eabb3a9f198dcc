-- ===== src/Lists/Ending.antt =====
-- A list that stays in sight gets to its end.
use file_indexer.Prelude.{
  ◌≡◌, ◌≢◌, refl, sym, ap, ◌∙◌, subst, inl, inr, ℕ, zero, suc, Bool, true, false, not, ◌&&◌, Option,
  none, some, List, [], ◌∷◌, ◌++◌, Text, if◌then◌else◌,
}
use file_indexer.Lists.Paging.{
  InfiniteQuery, param_after, is_some, is_nil, ScrollEvent, sentinel, page_arrived, loading, failed,
  rows_view, shown_rows, list_view, has_sentinel, on_intersect, on_page, scrolls,
}
use file_indexer.Lists.Fetching.{param_after-append, fetching}
use file_indexer.Lists.Scrolling.{Serves, so_far, scrolls-left}

-- A page arrives, and the sentinel, behind it, is in sight.
abbrev pub rounds : ℕ → List ScrollEvent
rounds zero = []
rounds (suc n) = page_arrived ∷ sentinel true ∷ rounds n

append-ne-nil : {A : Type 0} (xs : List A) (x : A) → xs ++ x ∷ [] ≢ []
append-ne-nil [] x e = cc
append-ne-nil (y ∷ xs) x e = cc

module _ {P Q A : Type 0} (next_param : P → Option Text) (query : InfiniteQuery next_param Q)
    (rows : List P → List A) (serve : Text → P) where
  -- The chain of pages that begins with a parameter has at most so many.
  abbrev pub Ends : Option Text → ℕ → Type 0
  Ends none n = Unit
  Ends (some token) zero = ⊥
  Ends (some token) (suc n) = Ends (next_param (serve token)) n

  -- A query that has yet to fetch a parameter, which it is at, or one that has fetched all pages.
  abbrev Wants : Option Text → Q → Type 0
  Wants none q = (query.param q ≡ none) × (query.has_next_page q ≡ false) × (query.pages q ≢ [])
  Wants (some t) q = (query.param q ≡ some t) × (query.is_error q ≡ false)

  -- Behind pages the sentinel is there.
  sentinel_there :
      (pages : List P) (is_error : Bool) (shown : List A) (is_fetching : Bool)
      → pages ≢ []
      → is_error ≡ false
      → has_sentinel false (
          if is_nil pages && not is_error
          then loading
          else if is_error
          then failed
          else rows_view shown false is_fetching)
        ≡ true
  sentinel_there [] is_error shown is_fetching h e = absurd (h refl)
  sentinel_there (p ∷ pages) true shown is_fetching h e = cc
  sentinel_there (p ∷ pages) false [] is_fetching h e = refl
  sentinel_there (p ∷ pages) false (r ∷ shown) is_fetching h e = refl

  on_intersect-eq :
      (q : Q) (b : Bool)
      → query.pages q ≢ []
      → query.is_error q ≡ false
      → (query.has_next_page q && not (query.is_fetching_next_page q)) ≡ b
      → on_intersect next_param query rows false q true ≡ (if b then query.fetch_next_page q else q)
  unfolding on_intersect list_view
  on_intersect-eq q b filled sound e =
      let there =
        sentinel_there (query.pages q) (query.is_error q) (shown_rows next_param query rows false q)
          (query.is_fetching_next_page q) filled sound in
      ap
        (λ s.
          if s && (true && (query.has_next_page q && not (query.is_fetching_next_page q)))
          then query.fetch_next_page q
          else q)
        there
      ∙ ap (λ s. if s then query.fetch_next_page q else q) e

  abbrev after_page : Option Text → Option Text
  after_page none = none
  after_page (some t) = next_param (serve t)

  -- Once a page is there, and nothing is fetched, the sentinel sees to the next.
  in_sight-Wants :
      (q : Q) (o : Option Text)
      → query.pages q ≢ []
      → query.is_error q ≡ false
      → query.param q ≡ none
      → param_after next_param none (query.pages q) ≡ o
      → Wants o (on_intersect next_param query rows false q true)
  in_sight-Wants q none filled sound idle last =
      let no_next = query.has_next_page_lem q ∙ ap is_some last in
      let still =
        on_intersect-eq q false filled sound
          (ap (λ b. b && not (query.is_fetching_next_page q)) no_next) in
      subst (Wants none) (sym still) (idle, no_next, filled)
  in_sight-Wants q (some u) filled sound idle last =
      let next = query.has_next_page_lem q ∙ ap is_some last in
      let free = query.is_fetching_lem q filled ∙ ap is_some idle in
      let fetched =
        on_intersect-eq q true filled sound
          (ap (λ b. b && not (query.is_fetching_next_page q)) next ∙ ap not free) in
      subst (Wants (some u)) (sym fetched)
        (query.param-fetch q u idle last, query.is_error-fetch q ∙ sound)

  round-Wants :
      (q : Q) (o : Option Text)
      → Wants o q
      → Wants
          (after_page o)
          (scrolls next_param query rows false serve q (page_arrived ∷ sentinel true ∷ []))
  unfolding scrolls
  round-Wants q none (idle, last, filled) =
      let seen : on_intersect next_param query rows false q true ≡ q =
        elim (fetching next_param query rows false q true) [
          | inl still ↦ still
          | inr (_, _, next, _, _) ↦ absurd (cc)
        ] in
      subst
        (λ o. Wants none (
          on_intersect next_param query rows false (on_page next_param query rows false serve q o)
            true))
        (sym idle) (subst (Wants none) (sym seen) (idle, last, filled))
  round-Wants q (some t) (busy, sound) =
      let p = serve t in
      let grown = query.pages-succeed p q in
      subst
        (λ o. Wants (next_param p) (
          on_intersect next_param query rows false (on_page next_param query rows false serve q o)
            true))
        (sym busy)
        (in_sight-Wants (query.succeed p q) (next_param p)
          (subst (λ ps. ps ≢ []) (sym grown) (append-ne-nil (query.pages q) p))
          (query.is_error-succeed p q) (query.param-succeed p q)
          (ap (param_after next_param none) grown
            ∙ param_after-append next_param none (query.pages q) p))

  rounds-Wants :
      (n : ℕ) (q : Q) (o : Option Text)
      → Ends o n
      → Wants o q
      → Wants none (scrolls next_param query rows false serve q (rounds n))
  unfolding scrolls
  rounds-Wants zero q none ends w = w
  rounds-Wants zero q (some t) ends w = absurd ends
  rounds-Wants (suc n) q none ends w =
      rounds-Wants n
        (scrolls next_param query rows false serve q (page_arrived ∷ sentinel true ∷ [])) none tt
        (round-Wants q none w)
  rounds-Wants (suc n) q (some t) ends w =
      rounds-Wants n
        (scrolls next_param query rows false serve q (page_arrived ∷ sentinel true ∷ []))
        (next_param (serve t)) ends (round-Wants q (some t) w)

  -- While the end of a list that is no photo wall stays in sight and its pages arrive, of which there
  -- are at most `n`, the list is whole after `n` of them: all rows of the server in their order, and
  -- nothing more is fetched or to be fetched.
  pub scrolls-whole :
      {B : Type 0} (part : P → List B) (left : Text → List B) (n : ℕ)
      → Serves next_param query rows false serve part left
      → Ends (some []) n
      → let q = scrolls next_param query rows false serve query.start (rounds n) in
        (so_far next_param query rows false serve part left q ≡ left [])
        × (query.has_next_page q ≡ false)
        × (query.param q ≡ none)
  scrolls-whole part left n serves ends =
      let q = scrolls next_param query rows false serve query.start (rounds n) in
      let (idle, last, filled) =
        rounds-Wants n query.start (some []) ends (query.start_param, query.start_ok) in
      let whole = scrolls-left next_param query rows false serve part left serves (rounds n) in
      elim (whole.1) [
        | inl nothing ↦ absurd (filled nothing)
        | inr (inl more) ↦ absurd (cc)
        | inr (inr all_there) ↦ (all_there, last, idle)
      ]
