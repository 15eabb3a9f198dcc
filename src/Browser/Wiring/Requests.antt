-- ===== src/Browser/Wiring/Requests.antt =====
-- What the browser's upload asks of the files service, by way of the server functions.
use file_indexer.Prelude.{
  ℕ, pos, ◌≡◌, ◌≢◌, refl, ap, Outcome, done, failed, and_then, Bool, List, [], ◌∷◌, map, Text,
  codes, Result, ok, Eff, pure, ◌===◌,
}
use file_indexer.Prelude.Effects.{◌>>=◌}
use file_indexer.Js.Value.{str, get}
use file_indexer.Server.Types.{Timestamp}
use file_indexer.Server.Services.{SearchClient, FilesClient, UploadedPart}
use file_indexer.Server.Validate.{
  require_text, require_integer, validate_create_multipart_upload_input,
  validate_upload_part_url_input, validate_upload_id_input,
}
use file_indexer.Server.Calls.{
  to_part_dto, create_multipart_upload_impl, get_upload_part_url_impl, list_uploaded_parts_impl,
  abort_multipart_upload_impl, complete_multipart_upload_impl,
}
use file_indexer.Server.Functions.{
  create_multipart_upload, get_upload_part_url, list_uploaded_parts, complete_multipart_upload,
  abort_multipart_upload, get_upload_url, commit_upload,
}
use file_indexer.Upload.World.{UploadedPartInfo}
use file_indexer.Browser.Wiring.{
  UploadServer, Response, to_part_info, list_part_infos, complete_upload, multipart_deps,
}

pub require_text-full : (name key : Text) → key ≢ [] → require_text name (str key) ≡ ok key
unfolding require_text
require_text-full name [] full = absurd (full refl)
require_text-full name (c ∷ s) full = refl

-- What the listing of an upload's parts makes of the service's parts.
abbrev pub to_info : UploadedPart → UploadedPartInfo
to_info p = to_part_info (to_part_dto p)

pub map_twice : (ps : List UploadedPart) → map to_part_info (map to_part_dto ps) ≡ map to_info ps
map_twice [] = refl
map_twice (p ∷ ps) = rw (map_twice ps) refl

pub regroup :
    {S : Type 0} (o : Outcome S (List UploadedPart))
    → and_then (and_then o λ ps. pure (map to_part_dto ps)) (λ parts. pure (map to_part_info parts))
      ≡ and_then o λ ps. pure (map to_info ps)
regroup (done ps t) = ap (λ infos. done infos t) (map_twice ps)
regroup (failed e t) = refl

module _ {S : Type 0} (search : SearchClient S) (files : FilesClient S)
    (to_iso_string : Timestamp → Result Text) where
  -- The server functions of web/src/server/files.ts, with nothing lost on the way to them.
  abbrev pub upload_server : UploadServer S
  upload_server = record {
    create_multipart_upload = create_multipart_upload search files to_iso_string;
    get_upload_part_url = get_upload_part_url search files to_iso_string;
    list_uploaded_parts = list_uploaded_parts search files to_iso_string;
    complete_multipart_upload = complete_multipart_upload search files to_iso_string;
    abort_multipart_upload = abort_multipart_upload search files to_iso_string;
    get_upload_url = get_upload_url search files to_iso_string;
    commit_upload = commit_upload search files to_iso_string;
  }

  module _ (fetch_part : Text → List ℕ → Eff S Response) (aborted : S → Bool) where
    -- With a key, a content type and an upload id that are not empty, no call of an upload is refused by
    -- a server function's validator: each asks the files service for just what it was given.
    pub multipart_deps-calls :
        (key content_type id : Text) (i : ℕ) (s : S)
        → key ≢ []
        → content_type ≢ []
        → id ≢ []
        → let deps = multipart_deps upload_server fetch_part aborted in
          (deps.create_multipart_upload key content_type s
            ≡ files.create_multipart_upload key content_type s)
          × (deps.get_upload_part_url key id i s ≡ files.get_upload_part_url key id (pos i) s)
          × (deps.list_uploaded_parts key id s
              ≡ (files.list_uploaded_parts key id >>= λ ps. pure (map to_info ps)) s)
          × (deps.complete_multipart_upload key id s
              ≡ (complete_multipart_upload_impl files to_iso_string key id >>= λ _. pure tt) s)
          × (deps.abort_multipart_upload key id s ≡ files.abort_multipart_upload key id s)
    unfolding create_multipart_upload get_upload_part_url list_uploaded_parts
        complete_multipart_upload abort_multipart_upload list_part_infos complete_upload
        validate_create_multipart_upload_input validate_upload_part_url_input
        validate_upload_id_input create_multipart_upload_impl get_upload_part_url_impl
        list_uploaded_parts_impl abort_multipart_upload_impl require_integer get ◌===◌
    multipart_deps-calls key content_type id i s full typed begun =
        let k = require_text-full (codes "key") key full in
        let c = require_text-full (codes "contentType") content_type typed in
        let u = require_text-full (codes "uploadId") id begun in
        (
          rw (k, c) refl,
          rw (k, u) refl,
          rw (k, u) (regroup (files.list_uploaded_parts key id s)),
          rw (k, u) refl,
          rw (k, u) refl,
        )
