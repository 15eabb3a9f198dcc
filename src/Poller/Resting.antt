-- ===== src/Poller/Resting.antt =====
-- When the hook has nothing more to ask.
use file_indexer.Prelude.{
  ◌≡◌, ◌≢◌, refl, sym, ap, ◌∙◌, subst, inl, inr, suc, Bool, true, false, none, some, List, [], ◌∷◌,
  ◌++◌, map, keep, All, Text, Bool-cases, if◌then◌else◌,
}
use file_indexer.Server.Types.{FileDto}
use file_indexer.Server.Calls.{FilePreviewStatusDto}
use file_indexer.Poller.{HasFiles, is_unsettled, pending_ids, patch_file, patch_page, patch_cache}
use file_indexer.Poller.Patches.{last_update, patch_file-last_update}
use file_indexer.Poller.Told.{last_update-About}
use file_indexer.Poller.Polling.{
  Poller, render, timeout, answer, ask_for, on_timer, pending_in, set_query, on_answer, poll, polls,
}

-- The answer has no entry for a file that is still being worked on.
abbrev pub IsSettled : FilePreviewStatusDto → Type 0
IsSettled s = is_unsettled s.preview_status ≡ false

-- The answer has an entry for the id.
abbrev pub Covers : List FilePreviewStatusDto → Text → Type 0
Covers res id = last_update res id ≢ none

module _ (res : List FilePreviewStatusDto) (settled : All IsSettled res) where
  patch_file-IsSettled :
      (f : FileDto)
      → (is_unsettled f.preview_status ≡ true → Covers res f.id)
      → is_unsettled (patch_file res f).preview_status ≡ false
  patch_file-IsSettled f covered = elim (patch_file-last_update res f) [
    | inl (missing, same) ↦ rw same (elim (Bool-cases (is_unsettled f.preview_status)) [
      | inl pending ↦ absurd (covered pending missing)
      | inr done ↦ done
    ])
    | inr (u, found, patched) ↦ rw patched (last_update-About IsSettled f.id res u settled found).0
  ]

  abbrev pending_files : List FileDto → List Text
  pending_files files =
      map (λ (f : FileDto). f.id) (keep (λ (f : FileDto). is_unsettled f.preview_status) files)

  abbrev CoversAll : List Text → Type 0
  CoversAll ids = All (Covers res) ids

  pending_files-patched :
      (files : List FileDto)
      → CoversAll (pending_files files)
      → pending_files (map (patch_file res) files) ≡ []
  pending_files-patched [] h = refl
  pending_files-patched (f ∷ files) h = elim (Bool-cases (is_unsettled f.preview_status)) [
    | inl pending ↦
        let (c, cs) : Covers res f.id × CoversAll (pending_files files) = rw pending at h in
        rw (patch_file-IsSettled f (λ _. c)) (pending_files-patched files cs)
    | inr done ↦
        let cs : CoversAll (pending_files files) = rw done at h in
        rw (patch_file-IsSettled f (λ e. cc)) (pending_files-patched files cs)
  ]

  All-append_parts : (xs ys : List Text) → CoversAll (xs ++ ys) → CoversAll xs × CoversAll ys
  All-append_parts [] ys h = (tt, h)
  All-append_parts (x ∷ xs) ys (p, h) = let (l, r) = All-append_parts xs ys h in ((p, l), r)

  pending_ids-patched :
      (pages : List HasFiles)
      → CoversAll (pending_ids pages)
      → pending_ids (map (patch_page res) pages) ≡ []
  unfolding pending_ids
  pending_ids-patched [] h = refl
  pending_ids-patched (page ∷ pages) h =
      let (here, rest) = All-append_parts (pending_files page.files) (pending_ids pages) h in
      rw (pending_files-patched page.files here) (pending_ids-patched pages rest)

module _ {K : Type 0} (same_key : K → K → Bool) where
  -- What is said of a poller after the answer, and of the same poller when its list is shown again.
  abbrev pub RestsWith : Poller K → List HasFiles → List FilePreviewStatusDto → Poller K → Type 0
  RestsWith p pages res answered =
      let shown = poll same_key answered (render (answered.caches p.key) p.key) in
      (answered.asked ≡ p.asked ++ pending_ids pages ∷ [])
      × (answered.in_flight ≡ p.in_flight)
      × (shown.rendered ≡ some (map (patch_page res) pages))
      × (pending_in shown.rendered ≡ [])
      × (poll same_key shown timeout ≡ shown)

module _ {K : Type 0} (same_key : K → K → Bool) (itself : (k : K) → same_key k k ≡ true) where
  ask_for-pending :
      (p : Poller K) (ids : List Text)
      → ids ≢ []
      → ask_for p ids ≡ record p { in_flight = suc p.in_flight; asked = p.asked ++ ids ∷ [] }
  ask_for-pending p [] h = absurd (h refl)
  ask_for-pending p (id ∷ ids) h = refl

  -- The timeout, and the answer to its request.
  answered-eq :
      (p : Poller K) (pages : List HasFiles) (res : List FilePreviewStatusDto)
      → p.is_running ≡ true
      → p.rendered ≡ some pages
      → p.caches p.key ≡ some pages
      → pending_ids pages ≢ []
      → polls same_key p (timeout ∷ answer res ∷ []) ≡ record p {
        asked = p.asked ++ pending_ids pages ∷ [];
        caches = set_query same_key p.caches p.key (some (map (patch_page res) pages));
      }
  unfolding polls poll
  answered-eq p pages res running on_show cached waits =
      let timer =
        ap (on_timer p) running
        ∙ ap (λ o. ask_for p (pending_in o)) on_show
        ∙ ask_for-pending p (pending_ids pages) waits in
      ap (λ q. on_answer same_key q res q.in_flight) timer
      ∙ ap
          (λ o. record p {
            asked = p.asked ++ pending_ids pages ∷ [];
            caches = set_query same_key p.caches p.key (patch_cache res o);
          })
          cached

  timeout_resting : (p : Poller K) → pending_in p.rendered ≡ [] → poll same_key p timeout ≡ p
  unfolding poll
  timeout_resting p h = by_running p.is_running
    where
      by_running : (b : Bool) → on_timer p b ≡ p
      by_running false = refl
      by_running true = ap (ask_for p) h

  -- While a list of pages is on show that waits for previews, the next timeout makes one request, for
  -- all files that it waits for. If its answer has an entry for each of them, and none for a file
  -- that is still being worked on, then the cache has the list with the answer's entries, no page of
  -- it waits any more once it is shown again, and a further timeout changes nothing.
  pub polls-rests :
      (p : Poller K) (pages : List HasFiles) (res : List FilePreviewStatusDto)
      → p.is_running ≡ true
      → p.rendered ≡ some pages
      → p.caches p.key ≡ some pages
      → pending_ids pages ≢ []
      → All IsSettled res
      → All (Covers res) (pending_ids pages)
      → RestsWith same_key p pages res (polls same_key p (timeout ∷ answer res ∷ []))
  unfolding poll
  polls-rests p pages res running on_show cached waits settled covered =
      let patched = map (patch_page res) pages in
      let answered = record p {
        asked = p.asked ++ pending_ids pages ∷ [];
        caches = set_query same_key p.caches p.key (some patched);
      } in
      let found : answered.caches p.key ≡ some patched =
        ap (λ b. if b then some patched else p.caches p.key) (itself p.key) in
      let rests = ap pending_in found ∙ pending_ids-patched res settled pages covered in
      subst (RestsWith same_key p pages res)
        (sym (answered-eq p pages res running on_show cached waits))
        (
          refl,
          refl,
          found,
          rests,
          timeout_resting (poll same_key answered (render (answered.caches p.key) p.key)) rests,
        )
