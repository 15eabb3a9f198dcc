-- ===== src/Poller/Told.antt =====
-- Where the statuses in the cache come from.
use file_indexer.Prelude.{
  ◌≡◌, refl, sym, subst, ap, ◌⊎◌, inl, inr, ℕ, zero, suc, Bool, true, false, Option, none, some,
  List, [], ◌∷◌, map, All, Text, ◌===◌, ===_iff, if◌then◌else◌, Bool-cases,
}
use file_indexer.Js.Dictionary.{last_value}
use file_indexer.Server.Types.{FileDto}
use file_indexer.Server.Calls.{FilePreviewStatusDto}
use file_indexer.Poller.{HasFiles, patch_file, patch_page, patch_cache, url_or}
use file_indexer.Poller.Patches.{last_update, patch_file-last_update}
use file_indexer.Poller.Polling.{
  Poller, PollEvent, render, load, timeout, answer, fail, unmount, mounted, ask_for, on_timer,
  pending_in, set_query, on_answer, on_failure, poll, polls,
}

-- What an answer said for an id is one of its entries, with that id.
module _ (P : FilePreviewStatusDto → Type 0) (id : Text) where
  abbrev About : Option FilePreviewStatusDto → Type 0
  About none = Unit
  About (some u) = P u × (u.id ≡ id)

  About-if :
      (s : FilePreviewStatusDto) (found : Option FilePreviewStatusDto)
      → P s
      → About found
      → About (if s.id === id then some s else found)
  About-if s found p h = elim (Bool-cases (s.id === id)) [
    | inl same ↦ rw same (p, (===_iff s.id id).0 same)
    | inr other ↦ rw other h
  ]

  last_value-About :
      (res : List FilePreviewStatusDto) (found : Option FilePreviewStatusDto)
      → All P res
      → About found
      → About (last_value ◌===◌ found (map (λ (s : FilePreviewStatusDto). (s.id, s)) res) id)
  unfolding last_value
  last_value-About [] found h a = a
  last_value-About (s ∷ res) found (p, h) a =
      last_value-About res (if s.id === id then some s else found) h (About-if s found p a)

  pub last_update-About :
      (res : List FilePreviewStatusDto) (u : FilePreviewStatusDto)
      → All P res
      → last_update res id ≡ some u
      → P u × (u.id ≡ id)
  last_update-About res u h e = subst About e (last_value-About res none h tt)

-- `Loaded` is true of the files that the query has put in the cache, `Told` of the entries of the
-- answers.
module _ (Loaded : FileDto → Type 0) (Told : FilePreviewStatusDto → Type 0) where
  -- The file as it was loaded, but for a status and a URL that it may have been told of since.
  abbrev pub IsKnown : FileDto → Type 0
  IsKnown f =
      (g : FileDto) × Loaded g
      × (f ≡ record g { preview_status = f.preview_status; preview_url = f.preview_url })
      × ((f.preview_status ≡ g.preview_status)
          ⊎ ((s : FilePreviewStatusDto) × Told s
              × (s.id ≡ f.id)
              × (f.preview_status ≡ s.preview_status)))
      × ((f.preview_url ≡ g.preview_url)
          ⊎ ((s : FilePreviewStatusDto) × Told s × (s.id ≡ f.id) × (f.preview_url ≡ s.preview_url)))

  url_or_answered :
      (s : FilePreviewStatusDto) (f : FileDto) (g : FileDto)
      → Told s
      → s.id ≡ f.id
      → ((f.preview_url ≡ g.preview_url)
          ⊎ ((s : FilePreviewStatusDto) × Told s × (s.id ≡ f.id) × (f.preview_url ≡ s.preview_url)))
      → (url : Option Text) → s.preview_url ≡ url
      → (url_or url f.preview_url ≡ g.preview_url)
        ⊎ ((t : FilePreviewStatusDto) × Told t
            × (t.id ≡ f.id)
            × (url_or url f.preview_url ≡ t.preview_url))
  url_or_answered s f g p e old none h = old
  url_or_answered s f g p e old (some url) h = inr (s, p, e, sym h)

  patch_file-IsKnown :
      (res : List FilePreviewStatusDto) (f : FileDto)
      → All Told res
      → IsKnown f
      → IsKnown (patch_file res f)
  patch_file-IsKnown res f told (g, l, shape, status, url) = elim (patch_file-last_update res f) [
    | inl (_, same) ↦ rw same (g, l, shape, status, url)
    | inr (u, found, patched) ↦
        let (t, e) = last_update-About Told f.id res u told found in
        rw patched (
          g,
          l,
          ap
              (λ (h : FileDto). record h {
                preview_status = u.preview_status;
                preview_url = url_or u.preview_url f.preview_url;
              })
              shape,
          inr (u, t, e, refl),
          url_or_answered u f g t e url u.preview_url refl,
        )
  ]

  abbrev pub PageKnown : HasFiles → Type 0
  PageKnown page = All IsKnown page.files

  abbrev pub CacheKnown : Option (List HasFiles) → Type 0
  CacheKnown none = Unit
  CacheKnown (some pages) = All PageKnown pages

  patch_files-Known :
      (res : List FilePreviewStatusDto) (files : List FileDto)
      → All Told res
      → All IsKnown files
      → All IsKnown (map (patch_file res) files)
  patch_files-Known res [] told k = tt
  patch_files-Known res (f ∷ files) told (k, ks) =
      (patch_file-IsKnown res f told k, patch_files-Known res files told ks)

  patch_pages-Known :
      (res : List FilePreviewStatusDto) (pages : List HasFiles)
      → All Told res
      → All PageKnown pages
      → All PageKnown (map (patch_page res) pages)
  patch_pages-Known res [] told k = tt
  patch_pages-Known res (page ∷ pages) told (k, ks) =
      (patch_files-Known res page.files told k, patch_pages-Known res pages told ks)

  patch_cache-Known :
      (res : List FilePreviewStatusDto) (cached : Option (List HasFiles))
      → All Told res
      → CacheKnown cached
      → CacheKnown (patch_cache res cached)
  patch_cache-Known res none told k = tt
  patch_cache-Known res (some pages) told k = patch_pages-Known res pages told k

  abbrev pub PageLoaded : HasFiles → Type 0
  PageLoaded page = All Loaded page.files

  files-Known : (files : List FileDto) → All Loaded files → All IsKnown files
  files-Known [] l = tt
  files-Known (f ∷ files) (l, ls) = ((f, l, refl, inl refl, inl refl), files-Known files ls)

  pages-Known : (pages : List HasFiles) → All PageLoaded pages → All PageKnown pages
  pages-Known [] l = tt
  pages-Known (page ∷ pages) (l, ls) = (files-Known page.files l, pages-Known pages ls)

  -- What the events of a run bring with them.
  abbrev pub Brings : {K : Type 0} → PollEvent K → Type 0
  Brings (load key pages) = All PageLoaded pages
  Brings (answer res) = All Told res
  Brings _ = Unit

  module _ {K : Type 0} (same_key : K → K → Bool) where
    abbrev AllKnown : (K → Option (List HasFiles)) → Type 0
    AllKnown caches = (k : K) → CacheKnown (caches k)

    set_query-Known :
        (caches : K → Option (List HasFiles)) (key : K) (value : Option (List HasFiles))
        → AllKnown caches
        → CacheKnown value
        → AllKnown (set_query same_key caches key value)
    set_query-Known caches key value old new k = elim (Bool-cases (same_key k key)) [
      | inl same ↦ rw same new
      | inr other ↦ rw other (old k)
    ]

    on_timer-Known :
        (p : Poller K) (running : Bool) → AllKnown p.caches → AllKnown (on_timer p running).caches
    on_timer-Known p false h = h
    on_timer-Known p true h = ask (pending_in p.rendered)
      where
        ask : (ids : List Text) → AllKnown (ask_for p ids).caches
        ask [] = h
        ask (id ∷ ids) = h

    on_answer-Known :
        (p : Poller K) (res : List FilePreviewStatusDto) (n : ℕ)
        → All Told res
        → AllKnown p.caches
        → AllKnown (on_answer same_key p res n).caches
    on_answer-Known p res zero told h = h
    on_answer-Known p res (suc n) told h =
        set_query-Known p.caches p.key (patch_cache res (p.caches p.key)) h
          (patch_cache-Known res (p.caches p.key) told (h p.key))

    on_failure-Known : (p : Poller K) (n : ℕ) → AllKnown p.caches → AllKnown (on_failure p n).caches
    on_failure-Known p zero h = h
    on_failure-Known p (suc n) h = h

    poll-Known :
        (p : Poller K) (e : PollEvent K)
        → Brings e
        → AllKnown p.caches
        → AllKnown (poll same_key p e).caches
    unfolding poll
    poll-Known p (render pages key) b h = h
    poll-Known p (load key pages) b h =
        set_query-Known p.caches key (some pages) h (pages-Known pages b)
    poll-Known p timeout b h = on_timer-Known p p.is_running h
    poll-Known p (answer res) b h = on_answer-Known p res p.in_flight b h
    poll-Known p fail b h = on_failure-Known p p.in_flight h
    poll-Known p unmount b h = h

    polls-Known :
        (events : List (PollEvent K)) (p : Poller K)
        → All Brings events
        → AllKnown p.caches
        → AllKnown (polls same_key p events).caches
    unfolding polls
    polls-Known [] p b h = h
    polls-Known (e ∷ events) p (b, bs) h =
        polls-Known events (poll same_key p e) bs (poll-Known p e b h)

    -- Whatever is rendered and answered, in whatever order: each file in a cache that was empty at
    -- first is a file as it was loaded, but for its preview's status and URL, and each of these two
    -- was loaded with it or stands in an answer's entry for its id.
    pub polls-IsKnown :
        (pages : Option (List HasFiles)) (key : K) (events : List (PollEvent K)) (k : K)
        → All Brings events
        → CacheKnown ((polls same_key (mounted pages key (λ _. none)) events).caches k)
    polls-IsKnown pages key events k b =
        polls-Known events (mounted pages key (λ _. none)) b (λ _. tt) k
