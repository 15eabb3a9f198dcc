-- ===== src/Browser/Uploads/Arriving.antt =====
-- What an upload of several files from the browsed folder has brought over, small files and large ones.
use file_indexer.Prelude.{
  ℕ, ◌≤◌, ◌<◌, ◌-◌, ◌≡◌, ◌⊎◌, Bool, true, false, some, List, [], ◌∷◌, ◌++◌, All, Text, Result, Eff,
  done,
}
use file_indexer.Paths.Normal.{Segments}
use file_indexer.Server.Types.{Timestamp, FileInfo}
use file_indexer.Prelude.{ok}
use file_indexer.Server.Services.{SearchClient, FilesClient}
use file_indexer.Server.Functions.{get_upload_url, commit_upload, complete_multipart_upload}
use file_indexer.Upload.Plan.{PartPlan, part_size_bytes, multipart_threshold_bytes, plan_parts}
use file_indexer.Browser.Wiring.{UploadServer, Response}
use file_indexer.Browser.Wiring.Requests.{upload_server}
use file_indexer.Browser.Wiring.Storage.{IsStorage}
use file_indexer.Browser.Uploads.{BrowserFile, Screen, type_or_default}
use file_indexer.Browser.Uploads.Keys.{PlainStart}

module _ {S : Type 0} (search : SearchClient S) (files : FilesClient S)
    (to_iso_string : Timestamp → Result Text) (fetch_part : Text → List ℕ → Eff S Response)
    (fetch_file : Text → List ℕ → Text → Eff S Response) (aborted : S → Bool)
    (Landed : Text → S → Text → ℕ → ℕ → Type 0) (contents : BrowserFile → List ℕ) where
  abbrev server : UploadServer S
  server = upload_server search files to_iso_string

  -- From one state of the services to another, a file came over in parts: the service was told to
  -- complete an upload under the key at a time at which every planned part had landed with its planned
  -- size, and then had a file.
  abbrev pub InParts : Text → BrowserFile → S → S → Type 0
  InParts key f s t =
      (id : Text) × (n : S) × (info : FileInfo) × All
        (λ (p : PartPlan). Landed key n id p.part_number (p.end - p.start))
        (plan_parts f.file.size part_size_bytes)
      × (files.complete_multipart_upload key id n ≡ done (some info) t)

  -- A file came over whole: the service gave a URL for the key, a PUT of the file's bytes to it was
  -- answered with success, and the service then committed a file under the key.
  abbrev pub InOne : Text → BrowserFile → S → S → Type 0
  InOne key f s t =
      (url : Text) × (res : Response) × (info : FileInfo) × (m : S) × (n : S)
      × (files.get_upload_url key s ≡ done url m)
      × (fetch_file url (contents f) (type_or_default f.type) m ≡ done res n)
      × (res.ok ≡ true)
      × (files.commit_upload key n ≡ done (some info) t)

  abbrev pub BroughtOver : Text → BrowserFile → S → S → Type 0
  BroughtOver key f s t =
      ((multipart_threshold_bytes ≤ f.file.size) × InParts key f s t)
      ⊎ ((f.file.size < multipart_threshold_bytes) × InOne key f s t)

  -- The files came over to a folder one after another.
  abbrev pub AllBroughtOver : Text → List BrowserFile → S → S → Type 0
  AllBroughtOver path [] s t = s ≡ t
  AllBroughtOver path (f ∷ fs) s t =
      (m : S) × BroughtOver (path ++ f.file.name) f s m × AllBroughtOver path fs m t

  module _ (new_controller : S → S) where
    module _ (storage : (key : Text) → IsStorage files fetch_part key (Landed key)) (path : Text)
        (folder : Segments false path) (plain : PlainStart path) where
      abbrev net : Screen S → S
      net s = s.world.net
