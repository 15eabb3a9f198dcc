-- ===== src/Poller/Asking.antt =====
-- What the hook asks for.
use file_indexer.Prelude.{
  ◌≡◌, ◌≢◌, refl, ap, ◌∙◌, ℕ, zero, suc, Bool, true, false, Option, none, some, List, [], ◌∷◌, All,
  All-append, Text,
}
use file_indexer.Server.Calls.{FilePreviewStatusDto}
use file_indexer.Poller.{HasFiles, pending_ids}
use file_indexer.Poller.Polling.{
  Poller, PollEvent, render, load, timeout, answer, fail, unmount, mounted, ask_for, on_timer,
  pending_in, on_answer, on_failure, poll, polls,
}

module _ (Rendered : List HasFiles → Type 0) where
  -- The list that an event puts on show.
  abbrev pub Shows : {K : Type 0} → PollEvent K → Type 0
  Shows (render (some pages) key) = Rendered pages
  Shows _ = Unit

  -- A request is for all files that wait in a list that was on show, of which there are some.
  abbrev pub IsRequest : List Text → Type 0
  IsRequest ids = (pages : List HasFiles) × Rendered pages × (ids ≡ pending_ids pages) × (ids ≢ [])

module _ {K : Type 0} (same_key : K → K → Bool) (Rendered : List HasFiles → Type 0) where
  abbrev OnShow : Option (List HasFiles) → Type 0
  OnShow none = Unit
  OnShow (some pages) = Rendered pages

  abbrev IsSound : Poller K → Type 0
  IsSound p = OnShow p.rendered × All (IsRequest Rendered) p.asked

  abbrev AreAsked : Option (List HasFiles) → List Text → Type 0
  AreAsked none ids = ids ≡ []
  AreAsked (some pages) ids = Rendered pages × (ids ≡ pending_ids pages)

  ask_for-IsSound :
      (p : Poller K) (o : Option (List HasFiles)) (ids : List Text)
      → AreAsked o ids
      → IsSound p
      → IsSound (ask_for p ids)
  ask_for-IsSound p o [] a s = s
  ask_for-IsSound p none (id ∷ ids) a s = absurd (cc)
  ask_for-IsSound p (some pages) (id ∷ ids) (r, e) (o, s) =
      (o, All-append (IsRequest Rendered) p.asked ((id ∷ ids) ∷ []) s ((pages, r, e, λ n. cc), tt))

  pending_in-AreAsked : (o : Option (List HasFiles)) → OnShow o → AreAsked o (pending_in o)
  pending_in-AreAsked none h = refl
  pending_in-AreAsked (some pages) h = (h, refl)

  on_timer-IsSound : (p : Poller K) (b : Bool) → IsSound p → IsSound (on_timer p b)
  on_timer-IsSound p false s = s
  on_timer-IsSound p true s =
      ask_for-IsSound p p.rendered (pending_in p.rendered) (pending_in-AreAsked p.rendered s.0) s

  on_answer-IsSound :
      (p : Poller K) (res : List FilePreviewStatusDto) (n : ℕ)
      → IsSound p
      → IsSound (on_answer same_key p res n)
  on_answer-IsSound p res zero s = s
  on_answer-IsSound p res (suc n) s = s

  on_failure-IsSound : (p : Poller K) (n : ℕ) → IsSound p → IsSound (on_failure p n)
  on_failure-IsSound p zero s = s
  on_failure-IsSound p (suc n) s = s

  poll-IsSound :
      (p : Poller K) (e : PollEvent K) → Shows Rendered e → IsSound p → IsSound (poll same_key p e)
  unfolding poll
  poll-IsSound p (render none key) r s = (tt, s.1)
  poll-IsSound p (render (some pages) key) r s = (r, s.1)
  poll-IsSound p (load key pages) r s = s
  poll-IsSound p timeout r s = on_timer-IsSound p p.is_running s
  poll-IsSound p (answer res) r s = on_answer-IsSound p res p.in_flight s
  poll-IsSound p fail r s = on_failure-IsSound p p.in_flight s
  poll-IsSound p unmount r s = s

  polls-IsSound :
      (events : List (PollEvent K)) (p : Poller K)
      → All (Shows Rendered) events
      → IsSound p
      → IsSound (polls same_key p events)
  unfolding polls
  polls-IsSound [] p r s = s
  polls-IsSound (e ∷ events) p (r, rs) s =
      polls-IsSound events (poll same_key p e) rs (poll-IsSound p e r s)

  -- Nothing is asked while the interval is cleared.
  poll_stopped :
      (p : Poller K) (e : PollEvent K)
      → p.is_running ≡ false
      → ((poll same_key p e).asked ≡ p.asked) × ((poll same_key p e).is_running ≡ false)
  unfolding poll
  poll_stopped p (render pages key) h = (refl, h)
  poll_stopped p (load key pages) h = (refl, h)
  poll_stopped p timeout h =
      (ap (λ b. (on_timer p b).asked) h, ap (λ b. (on_timer p b).is_running) h ∙ h)
  poll_stopped p (answer res) h = by_flight p.in_flight
    where
      by_flight :
          (n : ℕ)
          → ((on_answer same_key p res n).asked ≡ p.asked)
            × ((on_answer same_key p res n).is_running ≡ false)
      by_flight zero = (refl, h)
      by_flight (suc n) = (refl, h)
  poll_stopped p fail h = by_flight p.in_flight
    where
      by_flight :
          (n : ℕ) → ((on_failure p n).asked ≡ p.asked) × ((on_failure p n).is_running ≡ false)
      by_flight zero = (refl, h)
      by_flight (suc n) = (refl, h)
  poll_stopped p unmount h = (refl, refl)

  polls_stopped :
      (events : List (PollEvent K)) (p : Poller K)
      → p.is_running ≡ false
      → (polls same_key p events).asked ≡ p.asked
  unfolding polls
  polls_stopped [] p h = refl
  polls_stopped (e ∷ events) p h =
      let (kept, still) = poll_stopped p e h in
      polls_stopped events (poll same_key p e) still ∙ kept

  -- Whatever is rendered, loaded and answered, in whatever order: each request is for all files that
  -- wait in a list that was on show, and for one at least; and after the unmount nothing is asked.
  pub polls-IsRequest :
      (pages : List HasFiles) (key : K) (caches : K → Option (List HasFiles))
      (before after : List (PollEvent K))
      → Rendered pages
      → All (Shows Rendered) before
      → let last = polls same_key (mounted (some pages) key caches) before in
        All (IsRequest Rendered) last.asked
        × ((polls same_key (poll same_key last unmount) after).asked ≡ last.asked)
  unfolding poll
  polls-IsRequest pages key caches before after r shows =
      let last = polls same_key (mounted (some pages) key caches) before in
      (
        (polls-IsSound before (mounted (some pages) key caches) shows (r, tt)).1,
        polls_stopped after (poll same_key last unmount) refl,
      )
