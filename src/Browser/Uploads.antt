-- ===== src/Browser/Uploads.antt =====
-- The upload mutation and the new-folder button of web/src/components/Browser.tsx.
pub mod Outcomes
pub mod Keys
pub mod Landing
pub mod Arriving
use file_indexer.Prelude.{
  ℕ, Bool, Option, none, some, List, [], ◌∷◌, ◌++◌, any, Text, codes, ◌==◌, ◌===◌, leb,
  if◌then◌else◌, error, Eff, Outcome, done, failed, pure, throw,
}
use file_indexer.Prelude.Effects.{◌>>=◌, ◌>>◌}
use file_indexer.Js.Decimal.{decimal}
use file_indexer.Upload.Plan.{multipart_threshold_bytes}
use file_indexer.Upload.World.{World, FileLike, call}
use file_indexer.Upload.Transfer.{upload_file_multipart}
use file_indexer.Filters.{BrowseFilters}
use file_indexer.Paths.{normalize_upload_path}
use file_indexer.Browser.Wiring.{UploadServer, Response, key_input, check_response, multipart_deps}

-- A `File`.
pub record BrowserFile : Type 0 where
  pub file : FileLike
  pub type : Text

-- `uploading` is the file whose status is on show, and the progress of the world is what was reported
-- since; `invalidated` are the query keys handed to `invalidateQueries` so far.
pub record Screen (N : Type 0) : Type 0 where
  pub world : World N
  pub uploading : Option Text
  pub invalidated : List (List Text)

abbrev pub status_of : Text → List (ℕ × ℕ) → Text
status_of name [] = codes "Uploading " ++ (name ++ 8230 ∷ [])
status_of name ((completed, total) ∷ []) =
    codes "Uploading "
    ++ (name ++ (codes ": part " ++ (decimal completed ++ (codes "/" ++ decimal total))))
status_of name (_ ∷ report ∷ reports) = status_of name (report ∷ reports)

-- `uploadStatus`
unfoldable pub upload_status : {N : Type 0} → Screen N → Option Text
upload_status s = elim s.uploading [
  | none ↦ none
  | some name ↦ some (status_of name s.world.progress)
]

-- `file.type || 'application/octet-stream'`
abbrev pub type_or_default : Text → Text
type_or_default [] = codes "application/octet-stream"
type_or_default (c ∷ s) = c ∷ s

abbrev pub on_screen : {N A : Type 0} → Screen N → Outcome (World N) A → Outcome (Screen N) A
on_screen s (done a w) = done a (record s { world = w })
on_screen s (failed e w) = failed e (record s { world = w })

abbrev pub in_world : {N A : Type 0} → Eff (World N) A → Eff (Screen N) A
in_world m s = on_screen s (m s.world)

-- `try { … } finally { setUploadStatus(null) }`
abbrev pub clear_status : {N A : Type 0} → Outcome (Screen N) A → Outcome (Screen N) A
clear_status (done a s) = done a (record s { uploading = none })
clear_status (failed e s) = failed e (record s { uploading = none })

abbrev pub invalidate : {N : Type 0} → List Text → Eff (Screen N) (Unit {0})
invalidate key s = done tt (record s { invalidated = s.invalidated ++ key ∷ [] })

-- The key that a file is uploaded to from the browsed path.
unfoldable pub upload_key : Text → BrowserFile → Text
upload_key path f = normalize_upload_path path ++ f.file.name

-- `setUploadStatus` with the name of a file, of which nothing has been reported
abbrev pub announce : {N : Type 0} → Text → Eff (Screen N) (Unit {0})
announce name s =
    done tt (record s { uploading = some name; world = record (Screen.world s) { progress = [] } })

-- The two `fetch` calls and a new `AbortController` are parameters.
module _ {N : Type 0} (server : UploadServer N) (fetch_part : Text → List ℕ → Eff N Response)
    (fetch_file : Text → List ℕ → Text → Eff N Response) (aborted : N → Bool)
    (new_controller : N → N) where
  -- A file below the threshold: one PUT to a presigned URL, and a call to commit it.
  unfoldable pub upload_whole : Text → BrowserFile → Eff N (Unit {0})
  upload_whole key f = do
    url ← server.get_upload_url (key_input key)
    res ← fetch_file url (f.file.slice 0 f.file.size) (type_or_default f.type)
    check_response (codes "upload failed for " ++ f.file.name) res
    committed ← server.commit_upload (key_input key)
    pure tt

  unfoldable pub upload_in_parts : Text → BrowserFile → Eff (Screen N) (Unit {0})
  upload_in_parts key f = do
    announce f.file.name
    in_world (
        upload_file_multipart (multipart_deps server fetch_part aborted) f.file key
          (type_or_default f.type))

  unfoldable pub upload_file : Text → BrowserFile → Eff (Screen N) (Unit {0})
  upload_file path f =
      if leb multipart_threshold_bytes f.file.size
      then upload_in_parts (upload_key path f) f
      else in_world (call (upload_whole (upload_key path f) f))

  unfoldable pub upload_files : Text → List BrowserFile → Eff (Screen N) (Unit {0})
  upload_files path [] = pure tt
  upload_files path (f ∷ fs) = do upload_file path f; upload_files path fs

  abbrev pub with_new_controller : Screen N → Screen N
  with_new_controller s = record s {
    world = record (Screen.world s) { net = new_controller s.world.net };
  }

  -- `mutationFn`, and `onSuccess` after it
  unfoldable pub upload_mutation : Text → List BrowserFile → Eff (Screen N) (Unit {0})
  upload_mutation path fs = do
    (λ s. clear_status (upload_files path fs (with_new_controller s)))
    invalidate (codes "directory" ∷ [])
    invalidate (codes "folder-tree" ∷ [])

  -- The files that were chosen, if there are any
  unfoldable pub handle_upload_change : Text → List BrowserFile → Eff (Screen N) (Unit {0})
  unfolding upload_mutation
  handle_upload_change path [] = pure tt
  handle_upload_change path (f ∷ fs) = upload_mutation path (f ∷ fs)

-- `handleNavigate`, as what the filters change to
unfoldable pub handle_navigate : BrowseFilters → Text → BrowseFilters
handle_navigate filters next = record filters { path = next }

-- What `handleNewFolder` does with the answer to its prompt.
pub data NewFolder : Type 0 where
  stay : NewFolder
  alert : Text → NewFolder
  navigate : Text → NewFolder

abbrev pub named_folder : Text → Text → NewFolder
named_folder path name =
    if any (λ c. c == b'/') name
    then alert (codes "Folder name cannot contain \"/\"")
    else navigate (path ++ (name ++ b'/' ∷ []))

unfoldable pub handle_new_folder : Text → Option Text → NewFolder
handle_new_folder path none = stay
handle_new_folder path (some []) = stay
handle_new_folder path (some (c ∷ s)) = named_folder path (c ∷ s)
