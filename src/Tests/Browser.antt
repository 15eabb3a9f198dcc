-- ===== src/Tests/Browser.antt =====
-- The browser's uploads at concrete inputs, against a small files service.
use file_indexer.Prelude.{
  ℕ, ◌≡◌, refl, Bool, false, none, some, List, [], ◌∷◌, Text, codes, ◌===◌, error, done, failed,
}
use file_indexer.Js.Space.{trim}
use file_indexer.Js.Decimal.{decimal, to_string}
use file_indexer.Js.Value.{get}
use file_indexer.Js.Number.{to_number}
use file_indexer.Js.Dictionary.{map_set, map_get, map_of}
use file_indexer.Server.Validate.{
  require_text, require_integer, validate_key_input, validate_create_multipart_upload_input,
  validate_upload_part_url_input, validate_upload_id_input,
}
use file_indexer.Server.Dto.{to_file_dto}
use file_indexer.Server.Calls.{
  create_multipart_upload_impl, get_upload_part_url_impl, list_uploaded_parts_impl,
  complete_multipart_upload_impl, get_upload_url_impl,
}
use file_indexer.Server.Functions.{
  create_multipart_upload, get_upload_part_url, list_uploaded_parts, complete_multipart_upload,
  get_upload_url,
}
use file_indexer.Upload.Plan.{plan_parts}
use file_indexer.Upload.Plan.Content.{slice}
use file_indexer.Upload.World.{MultipartUploadDeps}
use file_indexer.Upload.Session.{file_fingerprint, load_session, save_session, clear_session}
use file_indexer.Upload.Transfer.{
  attempt, retry, upload_part_with_retry, upload_part, upload_parts, create, matching, resume,
  resume_or_create_upload, upload_file_multipart,
}
use file_indexer.Upload.Transfer.Steps.{IsLawful}
use file_indexer.Paths.{normalize_upload_path}
use file_indexer.Browser.Wiring.{
  UploadServer, put_part, list_part_infos, complete_upload, multipart_deps,
}
use file_indexer.Browser.Wiring.Requests.{upload_server}
use file_indexer.Browser.Wiring.Storage.{multipart_deps-IsLawful}
use file_indexer.Browser.Uploads.{
  BrowserFile, Screen, upload_key, upload_whole, upload_in_parts, upload_file, upload_files,
  upload_mutation,
}
use file_indexer.Browser.Uploads.Outcomes.{Ends, upload_mutation-cases}
use file_indexer.Tests.Shop.{Shop, Landed}
use file_indexer.Tests.Bucket.{files, search, no_dates, fetch_part, fetch_file, files-IsStorage}

abbrev three_bytes : List ℕ
three_bytes = 7 ∷ 8 ∷ 9 ∷ []

abbrev note : BrowserFile
note = record {
  file = record { name = codes "n.txt"; size = 3; last_modified = 12; slice = slice three_bytes };
  type = codes "text/plain";
}

abbrev docs : Text
docs = codes "docs/"

abbrev stopped : Shop → Bool
stopped s = s.stopped

abbrev restarted : Shop → Shop
restarted s = record s { stopped = false }

abbrev server : UploadServer Shop
server = upload_server search files no_dates

abbrev screen_with : ℕ → Screen Shop
screen_with faults = record {
  world = record {
    storage = some [];
    net = record { parts = []; faults = faults; stopped = false };
    progress = [];
  };
  uploading = none;
  invalidated = [];
}

abbrev sent_screen : Screen Shop
sent_screen = record {
  world = record {
    storage = some [];
    net = record { parts = (1, 3) ∷ []; faults = 0; stopped = false };
    progress = (1, 1) ∷ [];
  };
  uploading = some (codes "n.txt");
  invalidated = [];
}

-- The first PUT is answered with 503, and the second with success.
sent_in_parts :
    upload_in_parts server fetch_part fetch_file stopped restarted
      (upload_key docs note)
      note
      (screen_with 1)
    ≡ done tt sent_screen
unfolding upload_in_parts put_part list_part_infos complete_upload upload_file_multipart
    resume_or_create_upload resume create matching upload_parts upload_part upload_part_with_retry
    retry attempt plan_parts load_session save_session clear_session map_get map_set map_of get
    ◌===◌ file_fingerprint decimal upload_key normalize_upload_path trim create_multipart_upload
    get_upload_part_url list_uploaded_parts complete_multipart_upload create_multipart_upload_impl
    get_upload_part_url_impl list_uploaded_parts_impl complete_multipart_upload_impl
    validate_create_multipart_upload_input validate_upload_part_url_input validate_upload_id_input
    require_text require_integer to_file_dto to_string to_number
sent_in_parts = refl

abbrev deps : MultipartUploadDeps Shop
deps = multipart_deps server fetch_part stopped

multipart_deps-IsLawful_example : IsLawful deps (codes "docs/n.txt") Landed
multipart_deps-IsLawful_example =
    multipart_deps-IsLawful search files no_dates fetch_part stopped (codes "docs/n.txt")
      (files-IsStorage (codes "docs/n.txt"))

-- A file that is not committed leaves no status behind.
one_refused :
    upload_mutation server fetch_part fetch_file stopped restarted docs
      (note ∷ note ∷ [])
      (screen_with 1)
    ≡ failed (error (codes "upload failed for n.txt: 503")) (screen_with 0)
unfolding upload_mutation upload_files upload_file upload_whole upload_key normalize_upload_path
    trim get_upload_url get_upload_url_impl validate_key_input require_text get ◌===◌ decimal
one_refused = refl

upload_mutation-cases_example :
    Ends server fetch_part fetch_file stopped restarted docs (note ∷ note ∷ []) (screen_with 1) (
      upload_mutation server fetch_part fetch_file stopped restarted docs
        (note ∷ note ∷ [])
        (screen_with 1))
upload_mutation-cases_example =
    upload_mutation-cases server fetch_part fetch_file stopped restarted docs (note ∷ note ∷ [])
      (screen_with 1)

abbrev letter : BrowserFile
letter = record {
  file = record { name = codes "l.txt"; size = 2; last_modified = 13; slice = slice (4 ∷ 5 ∷ []) };
  type = [];
}

abbrev contents : BrowserFile → List ℕ
contents f = f.file.slice 0 f.file.size
