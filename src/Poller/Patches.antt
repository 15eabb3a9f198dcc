-- ===== src/Poller/Patches.antt =====
-- What a tick of the poller asks for and what it changes.
use file_indexer.Prelude.{
  ◌≡◌, refl, ◌∙◌, ap, ◌⊎◌, inl, inr, Option, none, some, List, [], ◌∷◌, map, Text, ◌===◌, ===_iff,
  Eff, Failure, done, failed, Outcome-cases, Option-cases,
}
use file_indexer.Js.Dictionary.{map_get, last_value, map_get-map_of}
use file_indexer.Server.Types.{FileDto}
use file_indexer.Server.Calls.{FilePreviewStatusDto}
use file_indexer.Poller.{
  HasFiles, Cache, pending_ids, statuses_by_id, url_or, patch_with, patch_file, patch_page,
  patch_cache, tick_for, tick,
}

-- The last entry of an answer for an id.
abbrev pub last_update : List FilePreviewStatusDto → Text → Option FilePreviewStatusDto
last_update res id = last_value ◌===◌ none (map (λ (s : FilePreviewStatusDto). (s.id, s)) res) id

map_get-statuses_by_id :
    (res : List FilePreviewStatusDto) (id : Text)
    → map_get ◌===◌ (statuses_by_id res) id ≡ last_update res id
map_get-statuses_by_id res id =
    map_get-map_of ◌===◌ ===_iff (map (λ (s : FilePreviewStatusDto). (s.id, s)) res) id

-- A file of the cache takes the status of the last entry for its id, and its URL unless that is null;
-- a file with no entry stays as it is.
pub patch_file-last_update :
    (res : List FilePreviewStatusDto) (file : FileDto)
    → ((last_update res file.id ≡ none) × (patch_file res file ≡ file))
      ⊎ ((update : FilePreviewStatusDto) × (last_update res file.id ≡ some update)
          × (patch_file res file ≡ record file {
            preview_status = update.preview_status;
            preview_url = url_or update.preview_url file.preview_url;
          }))
unfolding patch_file
patch_file-last_update res file = elim (Option-cases (last_update res file.id)) [
  | inl missing ↦ inl (missing, rw (map_get-statuses_by_id res file.id, missing) refl)
  | inr (update, found) ↦ inr (update, found, rw (map_get-statuses_by_id res file.id, found) refl)
]

url_or_again : (new old : Option Text) → url_or new (url_or new old) ≡ url_or new old
url_or_again none old = refl
url_or_again (some url) old = refl

patch_with_again :
    (o : Option FilePreviewStatusDto) (file : FileDto)
    → patch_with o (patch_with o file) ≡ patch_with o file
patch_with_again none file = refl
patch_with_again (some u) file =
    ap (λ url. record file { preview_status = u.preview_status; preview_url = url })
      (url_or_again u.preview_url file.preview_url)

patch_with-id :
    (o : Option FilePreviewStatusDto) (file : FileDto) → (patch_with o file).id ≡ file.id
patch_with-id none file = refl
patch_with-id (some u) file = refl

patch_file_again :
    (res : List FilePreviewStatusDto) (file : FileDto)
    → patch_file res (patch_file res file) ≡ patch_file res file
unfolding patch_file
patch_file_again res file =
    let o = map_get ◌===◌ (statuses_by_id res) file.id in
    ap (λ id. patch_with (map_get ◌===◌ (statuses_by_id res) id) (patch_with o file))
      (patch_with-id o file)
    ∙ patch_with_again o file

map_again :
    {A : Type 0} (f : A → A) (again : (a : A) → f (f a) ≡ f a) (xs : List A)
    → map f (map f xs) ≡ map f xs
map_again f again [] = refl
map_again f again (x ∷ xs) = rw (again x, map_again f again xs) refl

patch_page_again :
    (res : List FilePreviewStatusDto) (page : HasFiles)
    → patch_page res (patch_page res page) ≡ patch_page res page
patch_page_again res page =
    ap (λ fs. record page { files = fs })
      (map_again (patch_file res) (patch_file_again res) page.files)

-- Applying an answer to the cache a second time changes nothing more.
pub patch_cache_again :
    (res : List FilePreviewStatusDto) (cached : Option (List HasFiles))
    → patch_cache res (patch_cache res cached) ≡ patch_cache res cached
patch_cache_again res none = refl
patch_cache_again res (some pages) =
    ap some (map_again (patch_page res) (patch_page_again res) pages)

module _ {N : Type 0}
    (get_file_preview_statuses : List Text → Eff (Cache N) (List FilePreviewStatusDto)) where
  -- What a tick for these ids does from a cache.
  abbrev TickCases : List Text → Eff (Cache N) (Unit {0}) → Cache N → Type 0
  TickCases ids run c =
      ((ids ≡ []) × (run c ≡ done tt c))
      ⊎ ((e : Failure) × (t : Cache N) × (get_file_preview_statuses ids c ≡ failed e t)
          × (run c ≡ done tt t))
      ⊎ ((res : List FilePreviewStatusDto) × (t : Cache N) × (get_file_preview_statuses ids c
            ≡ done res t)
          × (run c ≡ done tt (record t { cached = patch_cache res t.cached })))

  tick_for-cases :
      (ids : List Text) (c : Cache N) → TickCases ids (tick_for get_file_preview_statuses ids) c
  unfolding tick_for
  tick_for-cases [] c = inl (refl, refl)
  tick_for-cases (id ∷ ids) c = elim (Outcome-cases (get_file_preview_statuses (id ∷ ids) c)) [
    | inl (res, t, answered) ↦ inr (inr (res, t, answered, rw answered refl))
    | inr (e, t, lost) ↦ inr (inl (e, t, lost, rw lost refl))
  ]

  -- A tick never throws. With no unsettled file it does nothing; otherwise it asks once, for the
  -- unsettled files of the last rendering, and an answer is applied to the cache as it is by then,
  -- while a failure changes nothing.
  pub tick-cases :
      (pages : List HasFiles) (c : Cache N)
      → ((pending_ids pages ≡ []) × (tick get_file_preview_statuses (some pages) c ≡ done tt c))
        ⊎ ((e : Failure) × (t : Cache N) × (get_file_preview_statuses (pending_ids pages) c
              ≡ failed e t)
            × (tick get_file_preview_statuses (some pages) c ≡ done tt t))
        ⊎ ((res : List FilePreviewStatusDto) × (t : Cache N) × (get_file_preview_statuses
                (pending_ids pages)
                c
              ≡ done res t)
            × (tick get_file_preview_statuses (some pages) c
                ≡ done tt (record t { cached = patch_cache res t.cached })))
  unfolding tick
  tick-cases pages c = tick_for-cases (pending_ids pages) c
