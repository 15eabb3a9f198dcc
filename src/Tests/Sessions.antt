-- ===== src/Tests/Sessions.antt =====
-- Part plans and stored sessions at concrete inputs.
use file_indexer.Prelude.{
  ℕ, ◌≡◌, refl, none, some, List, [], ◌∷◌, Text, codes, ◌===◌, flat_map, arith, if◌then◌else◌,
}
use file_indexer.Js.Decimal.{decimal}
use file_indexer.Js.Value.{undefined, get}
use file_indexer.Js.Dictionary.{map_set, map_get}
use file_indexer.Upload.Plan.{PartPlan, plan_parts}
use file_indexer.Upload.Plan.Tiling.{Tiles}
use file_indexer.Upload.Plan.Content.{slice, plan_parts-content}
use file_indexer.Upload.World.{Entry, parsed, corrupt, FileLike}
use file_indexer.Upload.Session.{
  StoredSession, file_fingerprint, load_session, save_session, clear_session,
}
use file_indexer.Upload.Session.Laws.{load_session-changed}

abbrev part : ℕ → ℕ → ℕ → PartPlan
part number start end = record { part_number = number; start = start; end = end }

plan_parts_five : plan_parts 5 2 ≡ part 1 0 2 ∷ part 2 2 4 ∷ part 3 4 5 ∷ []
unfolding plan_parts
plan_parts_five = refl

plan_parts_four : plan_parts 4 2 ≡ part 1 0 2 ∷ part 2 2 4 ∷ []
unfolding plan_parts
plan_parts_four = refl

plan_parts_empty : plan_parts 0 2 ≡ []
unfolding plan_parts
plan_parts_empty = refl

abbrev five_bytes : List ℕ
five_bytes = 10 ∷ 20 ∷ 30 ∷ 40 ∷ 50 ∷ []

plan_parts-content_example :
    Tiles 5 2 1 0 (plan_parts 5 2)
    × (flat_map (λ (p : PartPlan). slice five_bytes p.start p.end) (plan_parts 5 2) ≡ five_bytes)
plan_parts-content_example = plan_parts-content five_bytes 2 (omega arith)

abbrev photo : FileLike
photo = record { name = codes "a.jpg"; size = 5; last_modified = 1700; slice = slice five_bytes }

file_fingerprint-photo : file_fingerprint photo ≡ codes "a.jpg:5:1700"
unfolding file_fingerprint decimal
file_fingerprint-photo = refl

abbrev first_session : StoredSession
first_session = record { upload_id = codes "u1"; fingerprint = codes "a.jpg:5:1700" }

abbrev other_items : List (Text × Entry)
other_items = (codes "multipart-upload:docs/b", corrupt) ∷ (codes "theme", parsed undefined) ∷ []

saved_and_loaded :
    load_session (codes "docs/a") (save_session (codes "docs/a") first_session (some other_items))
    ≡ some first_session
unfolding load_session save_session map_set map_get ◌===◌ get
saved_and_loaded = refl

corrupt_is_no_session : load_session (codes "docs/b") (some other_items) ≡ none
unfolding load_session map_get ◌===◌
corrupt_is_no_session = refl

load_session-changed_example :
    (load_session (codes "docs/b") (save_session (codes "docs/a") first_session (some other_items))
      ≡ (if codes "docs/a" === codes "docs/b"
          then some first_session
          else load_session (codes "docs/b") (some other_items)))
    × (load_session (codes "docs/b") (clear_session (codes "docs/a") (some other_items)) ≡ (
        if codes "docs/a" === codes "docs/b"
        then none
        else load_session (codes "docs/b") (some other_items)))
load_session-changed_example =
    load_session-changed (codes "docs/a") (codes "docs/b") first_session other_items
