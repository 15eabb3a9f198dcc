-- ===== src/Upload/Session.antt =====
-- `loadSession`, `saveSession` and `clearSession`: an upload's id, kept for its destination key.
pub mod Laws
use file_indexer.Prelude.{
  ℕ, Option, none, some, List, [], ◌∷◌, ◌++◌, Text, codes, ◌===◌, if◌then◌else◌, not, Eff, done,
}
use file_indexer.Js.Value.{Value, str, obj, end, field, get}
use file_indexer.Js.Decimal.{decimal}
use file_indexer.Js.Dictionary.{map_get, map_set}
use file_indexer.Upload.World.{World, Storage, Entry, corrupt, parsed, FileLike}

pub record StoredSession : Type 0 where
  pub upload_id : Text
  pub fingerprint : Text

-- `${file.name}:${file.size}:${file.lastModified}`
unfoldable pub file_fingerprint : FileLike → Text
file_fingerprint file =
    file.name ++ codes ":" ++ decimal file.size ++ codes ":" ++ decimal file.last_modified

abbrev pub storage_key : Text → Text
storage_key key = codes "multipart-upload:" ++ key

abbrev two_texts : Value → Value → Option StoredSession
two_texts (str upload_id) (str fingerprint) =
    some (record { upload_id = upload_id; fingerprint = fingerprint })
two_texts _ _ = none

-- A property of `null` throws, which the code catches: no session either way.
unfoldable pub read_entry : Option Entry → Option StoredSession
read_entry none = none
read_entry (some corrupt) = none
read_entry (some (parsed v)) = two_texts (get v (codes "uploadId")) (get v (codes "fingerprint"))

unfoldable pub load_session : Text → Storage → Option StoredSession
unfolding read_entry
load_session key none = none
load_session key (some items) = read_entry (map_get ◌===◌ items (storage_key key))

-- `JSON.stringify(session)`
abbrev pub to_entry : StoredSession → Entry
to_entry session = parsed (
    obj (
      field (codes "uploadId") (str session.upload_id)
        (field (codes "fingerprint") (str session.fingerprint) end)))

unfoldable pub save_session : Text → StoredSession → Storage → Storage
save_session key session none = none
save_session key session (some items) =
    some (map_set ◌===◌ items (storage_key key, to_entry session))

-- `localStorage.removeItem`
unfoldable pub remove_item : Text → List (Text × Entry) → List (Text × Entry)
remove_item key [] = []
remove_item key ((j, v) ∷ items) =
    let rest = remove_item key items in if j === key then rest else (j, v) ∷ rest

unfoldable pub clear_session : Text → Storage → Storage
unfolding remove_item
clear_session key none = none
clear_session key (some items) = some (remove_item (storage_key key) items)
