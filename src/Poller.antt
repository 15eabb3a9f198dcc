-- ===== src/Poller.antt =====
-- web/src/lib/useFileStatusPoller.ts: one tick of the timer that watches previews being made, and in
-- Poller/Polling.antt the hook over the time that it is mounted.
pub mod Patches
pub mod Polling
pub mod Told
pub mod Asking
pub mod Resting
use file_indexer.Prelude.{
  Bool, true, false, Option, none, some, List, [], ◌∷◌, map, Text, ◌===◌, keep, flat_map,
  if◌then◌else◌, Eff, pure, try_catch,
}
use file_indexer.Prelude.Effects.{◌>>=◌}
use file_indexer.Js.Dictionary.{map_get, map_of}
use file_indexer.Server.Types.{PreviewStatus, FileDto}
use file_indexer.Server.Calls.{FilePreviewStatusDto}

-- `HasFiles`: a page of the cache.
pub record HasFiles : Type 0 where
  pub files : List FileDto

abbrev pub is_unsettled : PreviewStatus → Bool
is_unsettled PreviewStatus.pending = true
is_unsettled PreviewStatus.processing = true
is_unsettled _ = false

-- The ids that a tick asks about, page by page.
unfoldable pub pending_ids : List HasFiles → List Text
pending_ids pages =
    flat_map
      (λ (page : HasFiles).
        map (λ (f : FileDto). f.id)
          (keep (λ (f : FileDto). is_unsettled f.preview_status) page.files))
      pages

abbrev pub statuses_by_id : List FilePreviewStatusDto → List (Text × FilePreviewStatusDto)
statuses_by_id res = map_of ◌===◌ (map (λ (s : FilePreviewStatusDto). (s.id, s)) res)

-- `update.previewUrl ?? file.previewUrl`
abbrev pub url_or : Option Text → Option Text → Option Text
url_or none old = old
url_or (some url) old = some url

abbrev pub patch_with : Option FilePreviewStatusDto → FileDto → FileDto
patch_with none file = file
patch_with (some update) file = record file {
  preview_status = update.preview_status;
  preview_url = url_or update.preview_url file.preview_url;
}

unfoldable pub patch_file : List FilePreviewStatusDto → FileDto → FileDto
patch_file res file = patch_with (map_get ◌===◌ (statuses_by_id res) file.id) file

abbrev pub patch_page : List FilePreviewStatusDto → HasFiles → HasFiles
patch_page res page = record page { files = map (patch_file res) page.files }

-- The cache entry under the query's key, if it has one; `N` is the state behind the server function.
pub record Cache (N : Type 0) : Type 0 where
  pub cached : Option (List HasFiles)
  pub net : N

abbrev pub patch_cache : List FilePreviewStatusDto → Option (List HasFiles) → Option (List HasFiles)
patch_cache res none = none
patch_cache res (some pages) = some (map (patch_page res) pages)

module _ {N : Type 0}
    (get_file_preview_statuses : List Text → Eff (Cache N) (List FilePreviewStatusDto)) where
  -- `pages` are those of the last rendering. The cache may have changed by the time of the answer.
  unfoldable pub tick_for : List Text → Eff (Cache N) (Unit {0})
  tick_for [] = pure tt
  tick_for (id ∷ ids) =
      try_catch
        (do
          res ← get_file_preview_statuses (id ∷ ids)
          λ c. pure tt (record c { cached = patch_cache res c.cached }))
        λ _. pure tt

  unfoldable pub tick : Option (List HasFiles) → Eff (Cache N) (Unit {0})
  tick none = tick_for []
  tick (some pages) = tick_for (pending_ids pages)
