-- ===== src/Poller/Polling.antt =====
-- web/src/lib/useFileStatusPoller.ts over the time that the hook is mounted: renderings, timeouts,
-- and answers that arrive in any order, also after later timeouts.
use file_indexer.Prelude.{
  ℕ, zero, suc, Bool, true, false, Option, none, some, List, [], ◌∷◌, ◌++◌, Text, if◌then◌else◌,
}
use mathlib.Core.List.{foldl}
use file_indexer.Server.Calls.{FilePreviewStatusDto}
use file_indexer.Poller.{HasFiles, pending_ids, patch_cache}

-- `rendered` is `pagesRef.current`, `key` is `queryKeyRef.current`; `is_running` says that the
-- interval was not cleared. A request counts as in flight until its answer or its failure; `asked`
-- lists all requests that were made. `caches` is the query cache.
pub record Poller (K : Type 0) : Type 0 where
  pub rendered : Option (List HasFiles)
  pub key : K
  pub is_running : Bool
  pub in_flight : ℕ
  pub asked : List (List Text)
  pub caches : K → Option (List HasFiles)

-- `load` is a write of the query that owns the cache.
pub data PollEvent (K : Type 0) : Type 0 where
  render : Option (List HasFiles) → K → PollEvent K
  load : K → List HasFiles → PollEvent K
  timeout : PollEvent K
  answer : List FilePreviewStatusDto → PollEvent K
  fail : PollEvent K
  unmount : PollEvent K

abbrev pub pending_in : Option (List HasFiles) → List Text
pending_in none = []
pending_in (some pages) = pending_ids pages

module _ {K : Type 0} where
  -- The hook as its effect has just run.
  abbrev pub mounted : Option (List HasFiles) → K → (K → Option (List HasFiles)) → Poller K
  mounted pages key caches = record {
    rendered = pages;
    key = key;
    is_running = true;
    in_flight = 0;
    asked = [];
    caches = caches;
  }

  -- The interval's function, up to its `await`.
  abbrev pub ask_for : Poller K → List Text → Poller K
  ask_for p [] = p
  ask_for p (id ∷ ids) = record p {
    in_flight = suc p.in_flight;
    asked = p.asked ++ (id ∷ ids) ∷ [];
  }

  abbrev pub on_timer : Poller K → Bool → Poller K
  on_timer p false = p
  on_timer p true = ask_for p (pending_in p.rendered)

  abbrev pub on_failure : Poller K → ℕ → Poller K
  on_failure p zero = p
  on_failure p (suc n) = record p { in_flight = n }

  module _ (same_key : K → K → Bool) where
    -- `queryClient.setQueryData(key, …)`
    abbrev pub set_query :
        (K → Option (List HasFiles)) → K → Option (List HasFiles) → K → Option (List HasFiles)
    set_query caches key value k = if same_key k key then value else caches k

    -- What follows the `await`: the answer goes to the key of the last rendering.
    abbrev pub on_answer : Poller K → List FilePreviewStatusDto → ℕ → Poller K
    on_answer p res zero = p
    on_answer p res (suc n) = record p {
      in_flight = n;
      caches = set_query p.caches p.key (patch_cache res (p.caches p.key));
    }

    unfoldable pub poll : Poller K → PollEvent K → Poller K
    poll p (render pages key) = record p { rendered = pages; key = key }
    poll p (load key pages) = record p { caches = set_query p.caches key (some pages) }
    poll p timeout = on_timer p p.is_running
    poll p (answer res) = on_answer p res p.in_flight
    poll p fail = on_failure p p.in_flight
    poll p unmount = record p { is_running = false }

    unfoldable pub polls : Poller K → List (PollEvent K) → Poller K
    unfolding poll
    polls p events = foldl poll p events
