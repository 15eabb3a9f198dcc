-- ===== src/Tests/Transfers.antt =====
-- Uploads at concrete inputs, against a small storage service.
use file_indexer.Prelude.{
  ℕ, ◌-◌, ◌≡◌, refl, ◌⊎◌, Bool, true, false, none, some, List, [], ◌∷◌, All, Text, codes, ◌===◌,
  length, Failure, error, upload_cancelled, done, failed,
}
use file_indexer.Js.Decimal.{decimal}
use file_indexer.Js.Value.{get}
use file_indexer.Js.Dictionary.{map_set, map_get, map_of}
use file_indexer.Upload.Plan.{PartPlan, plan_parts, part_size_bytes}
use file_indexer.Upload.Plan.Content.{slice}
use file_indexer.Upload.World.{World, Storage, FileLike}
use file_indexer.Upload.Session.{file_fingerprint, load_session, save_session, clear_session}
use file_indexer.Upload.Transfer.{
  attempt, retry, upload_part_with_retry, cancel, upload_part, upload_parts, create, matching,
  list_landed, resume, resume_or_create_upload, upload_file_multipart,
}
use file_indexer.Upload.Transfer.Retry.{Succeeds, GivesUp, upload_part_with_retry-cases}
use file_indexer.Upload.Transfer.Completion.{upload_file_multipart-AllLanded}
use file_indexer.Upload.Transfer.Success.{reports, upload_file_multipart-done}
use file_indexer.Upload.Transfer.Resumption.{session_of, upload_file_multipart-failed}
use file_indexer.Tests.Shop.{Shop, shop, Landed, shop-IsLawful, shop-IsAnswering}

abbrev three_bytes : List ℕ
three_bytes = 7 ∷ 8 ∷ 9 ∷ []

abbrev note : FileLike
note = record { name = codes "n.txt"; size = 3; last_modified = 12; slice = slice three_bytes }

abbrev docs_n : Text
docs_n = codes "docs/n.txt"

abbrev plain : Text
plain = codes "text/plain"

abbrev world_with : Storage → ℕ → Bool → World Shop
world_with storage faults stopped = record {
  storage = storage;
  net = record { parts = []; faults = faults; stopped = stopped };
  progress = [];
}

abbrev sent_world : World Shop
sent_world = record {
  storage = some [];
  net = record { parts = (1, 3) ∷ []; faults = 0; stopped = false };
  progress = (1, 1) ∷ [];
}

-- Two faults are made up for by the third attempt.
upload_after_two_faults :
    upload_file_multipart shop note docs_n plain (world_with (some []) 2 false) ≡ done tt sent_world
unfolding upload_file_multipart resume_or_create_upload resume create matching upload_parts
    upload_part upload_part_with_retry retry attempt plan_parts load_session save_session
    clear_session map_get map_set map_of get ◌===◌ file_fingerprint decimal
upload_after_two_faults = refl

abbrev broken_world : World Shop
broken_world = record {
  storage = save_session docs_n (session_of shop note docs_n (codes "u1")) (some []);
  net = record { parts = []; faults = 0; stopped = false };
  progress = [];
}

abbrev part_1_failure : Failure
part_1_failure = error (codes "part 1 of docs/n.txt failed after 3 attempts: offline")

upload_after_three_faults :
    upload_file_multipart shop note docs_n plain (world_with (some []) 3 false)
    ≡ failed part_1_failure broken_world
unfolding upload_file_multipart resume_or_create_upload resume create matching upload_parts
    upload_part upload_part_with_retry retry attempt plan_parts load_session save_session
    clear_session map_get map_set map_of get ◌===◌ file_fingerprint decimal
upload_after_three_faults = refl

cancelled_upload :
    upload_file_multipart shop note docs_n plain (world_with (some []) 0 true)
    ≡ failed (upload_cancelled docs_n) (world_with (some []) 0 true)
unfolding upload_file_multipart resume_or_create_upload resume create matching upload_parts cancel
    plan_parts load_session save_session clear_session map_get map_set get ◌===◌ file_fingerprint
    decimal
cancelled_upload = refl

-- The broken upload, taken up again: its session is found, and the part that is missing is sent.
upload_taken_up_again :
    upload_file_multipart shop note docs_n plain broken_world ≡ done tt sent_world
unfolding upload_file_multipart resume_or_create_upload resume list_landed matching upload_parts
    upload_part upload_part_with_retry retry attempt plan_parts load_session save_session
    clear_session map_get map_set map_of get ◌===◌ file_fingerprint decimal
upload_taken_up_again = refl

abbrev first_part : PartPlan
first_part = record { part_number = 1; start = 0; end = 3 }

abbrev faulty : ℕ → Shop
faulty n = record { parts = []; faults = n; stopped = false }

upload_part_with_retry-cases_example :
    ((t : Shop) × (upload_part_with_retry shop note docs_n (codes "u1") first_part (faulty 5)
        ≡ done tt t)
      × Succeeds shop note docs_n (codes "u1") first_part (faulty 5) t)
    ⊎ ((e : Failure) × (t : Shop) × (upload_part_with_retry shop note docs_n
            (codes "u1")
            first_part
            (faulty 5)
          ≡ failed e t)
        × GivesUp shop note docs_n (codes "u1") first_part (faulty 5) e t)
upload_part_with_retry-cases_example =
    upload_part_with_retry-cases shop note docs_n (codes "u1") first_part (faulty 5)

part_given_up :
    upload_part_with_retry shop note docs_n (codes "u1") first_part (faulty 5)
    ≡ failed part_1_failure (faulty 2)
unfolding upload_part_with_retry retry attempt decimal
part_given_up = refl

upload_file_multipart-AllLanded_example :
    (id : Text) × (n : Shop) × All
      (λ (p : PartPlan). Landed n id p.part_number (p.end - p.start))
      (plan_parts 3 part_size_bytes)
    × (shop.complete_multipart_upload docs_n id n ≡ done tt sent_world.net)
    × (load_session docs_n sent_world.storage ≡ none)
upload_file_multipart-AllLanded_example =
    upload_file_multipart-AllLanded shop note docs_n (shop-IsLawful docs_n) three_bytes plain
      (world_with (some []) 2 false) sent_world
      (record { size_is = refl; slices = λ start end. refl }) upload_after_two_faults

upload_file_multipart-failed_example :
    (broken_world.storage ≡ some [])
    ⊎ ((id : Text) × (load_session docs_n broken_world.storage
          ≡ some (session_of shop note docs_n id)))
    ⊎ ((part_1_failure ≡ upload_cancelled docs_n)
        × (load_session docs_n broken_world.storage ≡ none))
upload_file_multipart-failed_example =
    upload_file_multipart-failed shop note docs_n plain (world_with (some []) 3 false) [] refl
      part_1_failure broken_world upload_after_three_faults

upload_file_multipart-done_example :
    (t : World Shop) × (upload_file_multipart shop note docs_n plain (world_with (some []) 0 false)
      ≡ done tt t)
    × (t.progress
        ≡ reports (length (plan_parts 3 part_size_bytes)) 0 (plan_parts 3 part_size_bytes))
    × (load_session docs_n t.storage ≡ none)
upload_file_multipart-done_example =
    upload_file_multipart-done shop note docs_n (shop-IsAnswering docs_n) plain
      (world_with (some []) 0 false) (refl, refl)
