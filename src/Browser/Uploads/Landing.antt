-- ===== src/Browser/Uploads/Landing.antt =====
-- What a large upload has brought over.
use file_indexer.Prelude.{
  ℕ, ◌-◌, ◌≡◌, ap, Bool, none, some, List, [], All, Text, Result, Eff, done, done-injective,
  Outcome, failed,
}
use file_indexer.Server.Types.{Timestamp}
use file_indexer.Server.Services.{SearchClient, FilesClient}
use file_indexer.Upload.Plan.{PartPlan, part_size_bytes, plan_parts}
use file_indexer.Upload.World.{World, MultipartUploadDeps}
use file_indexer.Upload.Session.{load_session}
use file_indexer.Upload.Transfer.{upload_file_multipart}
use file_indexer.Upload.Transfer.Completion.{IsFile, upload_file_multipart-AllLanded}
use file_indexer.Browser.Wiring.{Response, multipart_deps}
use file_indexer.Browser.Wiring.Requests.{upload_server}
use file_indexer.Browser.Wiring.Storage.{IsStorage, multipart_deps-IsLawful}
use file_indexer.Browser.Uploads.{
  BrowserFile, Screen, type_or_default, on_screen, upload_key, upload_in_parts,
}

pub on_screen-eq-done :
    {N : Type 0} (s : Screen N) (o : Outcome (World N) (Unit {0})) (t : Screen N)
    → on_screen s o ≡ done tt t
    → o ≡ done tt t.world
on_screen-eq-done s (done a w) t h =
    let (_, same) = done-injective h in ap (λ (x : Screen _). done tt x.world) same
on_screen-eq-done s (failed e w) t h = cc

module _ {S : Type 0} (search : SearchClient S) (files : FilesClient S)
    (to_iso_string : Timestamp → Result Text) (fetch_part : Text → List ℕ → Eff S Response)
    (fetch_file : Text → List ℕ → Text → Eff S Response) (aborted : S → Bool)
    (new_controller : S → S) (path : Text) (f : BrowserFile) where
  abbrev deps : MultipartUploadDeps S
  deps = multipart_deps (upload_server search files to_iso_string) fetch_part aborted

  -- Where the files service and its bucket are as relied on and the file is as it says: when the upload
  -- of a file in parts has succeeded, every planned part was in the bucket, under the key that it is uploaded
  -- to, with its planned size, when the service was told to complete the upload, and no
  -- session is left for the key.
  pub upload_in_parts-Landed :
      {Landed : S → Text → ℕ → ℕ → Type 0} (bytes : List ℕ) (s t : Screen S)
      → IsStorage files fetch_part (upload_key path f) Landed
      → IsFile f.file bytes
      → upload_in_parts
          (upload_server search files to_iso_string)
          fetch_part
          fetch_file
          aborted
          new_controller
          (upload_key path f)
          f
          s
        ≡ done tt t
      → (id : Text) × (n : S) × All
          (λ (p : PartPlan). Landed n id p.part_number (p.end - p.start))
          (plan_parts f.file.size part_size_bytes)
        × (deps.complete_multipart_upload (upload_key path f) id n ≡ done tt t.world.net)
        × (load_session (upload_key path f) t.world.storage ≡ none)
  unfolding upload_in_parts
  upload_in_parts-Landed bytes s t storage is_file h =
      let begun : World S = record (Screen.world s) { progress = [] } in
      let sent =
        on_screen-eq-done (record s { uploading = some f.file.name; world = begun })
          (upload_file_multipart deps f.file (upload_key path f) (type_or_default f.type) begun) t
          h in
      upload_file_multipart-AllLanded deps f.file (upload_key path f)
        (multipart_deps-IsLawful search files to_iso_string fetch_part aborted (upload_key path f)
          storage)
        bytes (type_or_default f.type) begun t.world is_file sent
