-- ===== src/Browser/Wiring.antt =====
-- `multipartDeps` of web/src/components/Browser.tsx: an upload's calls, as calls of server functions
-- and of `fetch`.
pub mod Requests
pub mod Storage
use file_indexer.Prelude.{
  ℕ, ℤ, pos, Bool, List, ◌++◌, map, Text, codes, if◌then◌else◌, error, Eff, pure, throw,
}
use file_indexer.Prelude.Effects.{◌>>=◌, ◌>>◌}
use file_indexer.Js.Value.{Value, int, str, obj, end, field}
use file_indexer.Js.Decimal.{decimal}
use file_indexer.Server.Types.{FileDto}
use file_indexer.Server.Calls.{UploadedPartDto}
use file_indexer.Upload.World.{UploadedPartInfo, MultipartUploadDeps}

-- The server functions that an upload calls, each with what it is given as `data`.
pub record UploadServer (N : Type 0) : Type 0 where
  pub create_multipart_upload : Value → Eff N Text
  pub get_upload_part_url : Value → Eff N Text
  pub list_uploaded_parts : Value → Eff N (List UploadedPartDto)
  pub complete_multipart_upload : Value → Eff N FileDto
  pub abort_multipart_upload : Value → Eff N (Unit {0})
  pub get_upload_url : Value → Eff N Text
  pub commit_upload : Value → Eff N FileDto

-- What the program reads of a `Response`.
pub record Response : Type 0 where
  pub ok : Bool
  pub status : ℕ

abbrev pub key_input : Text → Value
key_input key = obj (field (codes "key") (str key) end)

abbrev pub create_input : Text → Text → Value
create_input key content_type =
    obj (field (codes "key") (str key) (field (codes "contentType") (str content_type) end))

abbrev pub upload_input : Text → Text → Value
upload_input key upload_id =
    obj (field (codes "key") (str key) (field (codes "uploadId") (str upload_id) end))

abbrev pub part_input : Text → Text → ℕ → Value
part_input key upload_id part_number = obj (
    field (codes "key") (str key) (
      field (codes "uploadId") (str upload_id)
        (field (codes "partNumber") (int (pos part_number)) end)))

abbrev pub to_part_info : UploadedPartDto → UploadedPartInfo
to_part_info p = record { part_number = p.part_number; size = p.size }

-- `if (!res.ok) throw new Error(…)`
abbrev pub check_response : {S : Type 0} → Text → Response → Eff S (Unit {0})
check_response message res =
    if res.ok then pure tt else throw (error (message ++ codes ": " ++ decimal res.status))

-- `fetch(url, { method: 'PUT', body, signal })`, and whether the signal was aborted, are parameters.
module _ {N : Type 0} (server : UploadServer N) (fetch_part : Text → List ℕ → Eff N Response)
    (aborted : N → Bool) where
  unfoldable pub put_part : Text → List ℕ → Eff N (Unit {0})
  put_part url body = do res ← fetch_part url body; check_response (codes "part upload failed") res

  unfoldable pub list_part_infos : Text → Text → Eff N (List UploadedPartInfo)
  list_part_infos key upload_id = do
    parts ← server.list_uploaded_parts (upload_input key upload_id)
    pure (map to_part_info parts)

  unfoldable pub complete_upload : Text → Text → Eff N (Unit {0})
  complete_upload key upload_id = do
    file ← server.complete_multipart_upload (upload_input key upload_id)
    pure tt

  abbrev pub multipart_deps : MultipartUploadDeps N
  multipart_deps = record {
    create_multipart_upload =
        λ key content_type. server.create_multipart_upload (create_input key content_type);
    get_upload_part_url = λ key upload_id part_number.
        server.get_upload_part_url (part_input key upload_id part_number);
    list_uploaded_parts = list_part_infos;
    complete_multipart_upload = complete_upload;
    abort_multipart_upload =
        λ key upload_id. server.abort_multipart_upload (upload_input key upload_id);
    put_part = put_part;
    aborted = aborted;
  }
