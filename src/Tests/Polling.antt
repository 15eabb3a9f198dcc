-- ===== src/Tests/Polling.antt =====
-- The hook that polls previews, at a run in which an answer is late.
use file_indexer.Prelude.{
  ◌≡◌, refl, ◌⊎◌, inl, inr, Option, none, some, List, [], ◌∷◌, All, Text, codes, ◌===◌, ===_refl,
  pos,
}
use file_indexer.Server.Types.{PreviewStatus, FileDto}
use file_indexer.Server.Calls.{FilePreviewStatusDto}
use file_indexer.Js.Dictionary.{map_get, map_of, last_value}
use file_indexer.Poller.{HasFiles, pending_ids, patch_file}
use file_indexer.Poller.Polling.{
  Poller, PollEvent, render, load, timeout, answer, unmount, mounted, poll, polls,
}
use file_indexer.Poller.Told.{CacheKnown, polls-IsKnown}
use file_indexer.Poller.Asking.{IsRequest, polls-IsRequest}
use file_indexer.Poller.Resting.{Covers, RestsWith, polls-rests}

abbrev photo : Text → PreviewStatus → Option Text → FileDto
photo id status url = record {
  id = id;
  key = codes "a.jpg";
  content_type = codes "image/jpeg";
  size_bytes = pos 3;
  created_at = none;
  updated_at = none;
  taken_at = none;
  preview_url = url;
  preview_width = none;
  preview_height = none;
  preview_status = status;
}

abbrev told : Text → PreviewStatus → Option Text → FilePreviewStatusDto
told id status url = record { id = id; preview_status = status; preview_url = url }

abbrev wall : List HasFiles
wall =
    record {
      files =
          photo (codes "1") PreviewStatus.pending none
          ∷ photo (codes "2") PreviewStatus.ready (some (codes "u2"))
          ∷ [];
    }
    ∷ record { files = photo (codes "3") PreviewStatus.processing none ∷ [] }
    ∷ []

abbrev early : List FilePreviewStatusDto
early = told (codes "1") PreviewStatus.processing none ∷ []

abbrev final : List FilePreviewStatusDto
final =
    told (codes "1") PreviewStatus.ready (some (codes "u1"))
    ∷ told (codes "3") PreviewStatus.failed_preview none
    ∷ []

abbrev photos_key : Text
photos_key = codes "photos"

abbrev empty_caches : Text → Option (List HasFiles)
empty_caches _ = none

-- The list is loaded and shown, and two timeouts go off before the first answer.
abbrev run : List (PollEvent Text)
run =
    load photos_key wall
    ∷ render (some wall) photos_key
    ∷ timeout
    ∷ timeout
    ∷ answer final
    ∷ answer early
    ∷ []

run_again :
    (polls ◌===◌ (mounted none photos_key empty_caches) run).asked
    ≡ (codes "1" ∷ codes "3" ∷ []) ∷ (codes "1" ∷ codes "3" ∷ []) ∷ []
unfolding polls pending_ids ◌===◌
run_again = refl

-- The answer of the first request came last: the finished photo is shown as being worked on again.
late_answer :
    (polls ◌===◌ (mounted none photos_key empty_caches) run).caches photos_key
    ≡ some (
        record {
          files =
              photo (codes "1") PreviewStatus.processing (some (codes "u1"))
              ∷ photo (codes "2") PreviewStatus.ready (some (codes "u2"))
              ∷ [];
        }
        ∷ record { files = photo (codes "3") PreviewStatus.failed_preview none ∷ [] }
        ∷ [])
unfolding polls pending_ids ◌===◌ patch_file map_get map_of
late_answer = refl

abbrev Loaded : FileDto → Type 0
Loaded f = f.key ≡ codes "a.jpg"

abbrev Told : FilePreviewStatusDto → Type 0
Told s = (s.id ≡ codes "1") ⊎ (s.id ≡ codes "3")

polls-IsKnown_example :
    CacheKnown Loaded Told
      ((polls ◌===◌ (mounted none photos_key empty_caches) run).caches photos_key)
polls-IsKnown_example = polls-IsKnown Loaded Told ◌===◌ none photos_key run photos_key (
  ((refl, (refl, tt)), ((refl, tt), tt)),
  (tt, (tt, (tt, ((inl refl, (inr refl, tt)), ((inl refl, tt), tt))))),
)

abbrev OfWall : List HasFiles → Type 0
OfWall pages = pages ≡ wall

polls-IsRequest_example :
    let last = polls ◌===◌ (mounted (some wall) photos_key empty_caches) run in
    All (IsRequest OfWall) last.asked
    × ((polls ◌===◌ (poll ◌===◌ last unmount) (answer early ∷ timeout ∷ [])).asked ≡ last.asked)
polls-IsRequest_example =
    polls-IsRequest ◌===◌ OfWall wall photos_key empty_caches run (answer early ∷ timeout ∷ []) refl
      (tt, (refl, (tt, (tt, (tt, (tt, tt))))))

abbrev wall_caches : Text → Option (List HasFiles)
wall_caches _ = some wall

abbrev wall_on_show : Poller Text
wall_on_show = mounted (some wall) photos_key wall_caches

waiting_photos : pending_ids wall ≡ codes "1" ∷ codes "3" ∷ []
unfolding pending_ids
waiting_photos = refl

wall_covered : All (Covers final) (pending_ids wall)
unfolding pending_ids last_value ◌===◌
wall_covered = ((λ e. cc), ((λ e. cc), tt))

polls-rests_example :
    RestsWith ◌===◌ wall_on_show wall final (polls ◌===◌ wall_on_show (timeout ∷ answer final ∷ []))
polls-rests_example =
    polls-rests ◌===◌ ===_refl wall_on_show wall final refl refl refl (rw waiting_photos (λ e. cc))
      (refl, (refl, tt)) wall_covered
