-- ===== src/Upload/Session/Laws.antt =====
-- A saved session is the one that is loaded, and a cleared one is gone; other keys keep theirs.
use file_indexer.Prelude.{
  ◌≡◌, refl, ◌∙◌, ap, none, some, List, [], ◌∷◌, Text, ◌===◌, ===_iff, ===_refl, if◌then◌else◌,
  arith, Bool-cases, inl, inr,
}
use file_indexer.Js.Value.{get}
use file_indexer.Js.Dictionary.{map_get, map_get-map_set}
use file_indexer.Upload.World.{Storage, Entry}
use file_indexer.Upload.Session.{
  StoredSession, storage_key, read_entry, load_session, to_entry, save_session, remove_item,
  clear_session,
}

read_entry-to_entry :
    (session : StoredSession) → read_entry (some (to_entry session)) ≡ some session
unfolding read_entry get ◌===◌
read_entry-to_entry session = refl

storage_key-=== : (k j : Text) → (storage_key k === storage_key j) ≡ (k === j)
unfolding ◌===◌
storage_key-=== k j = refl

-- After saving, the key's session is the saved one where there is a storage, and no other key's
-- session has changed.
pub load_session-save_session :
    (k j : Text) (session : StoredSession) (items : List (Text × Entry))
    → load_session j (save_session k session (some items))
      ≡ (if k === j then some session else load_session j (some items))
unfolding load_session save_session
load_session-save_session k j session items =
    ap read_entry
      (map_get-map_set ◌===◌ ===_iff items (storage_key k) (to_entry session) (storage_key j))
    ∙ elim (Bool-cases (k === j)) [
      | inl same ↦ rw (storage_key-=== k j, same) (read_entry-to_entry session)
      | inr other ↦ rw (storage_key-=== k j, other)
    ]

map_get-remove_item :
    (k j : Text) (items : List (Text × Entry))
    → map_get ◌===◌ (remove_item k items) j ≡ (if k === j then none else map_get ◌===◌ items j)
unfolding remove_item map_get
map_get-remove_item k j [] = ground arith
map_get-remove_item k j ((i, v) ∷ items) =
    ground (arith, ===_iff i k, ===_iff i j, ===_iff k j, map_get-remove_item k j items)

-- After clearing, the key has no session, and no other key's session has changed.
pub load_session-clear_session :
    (k j : Text) (items : List (Text × Entry))
    → load_session j (clear_session k (some items))
      ≡ (if k === j then none else load_session j (some items))
unfolding load_session clear_session
load_session-clear_session k j items =
    ap read_entry (map_get-remove_item (storage_key k) (storage_key j) items)
    ∙ elim (Bool-cases (k === j)) [
      | inl same ↦ rw (storage_key-=== k j, same)
      | inr other ↦ rw (storage_key-=== k j, other)
    ]

-- After saving a session, the key has that one where there is a storage, and after clearing it has
-- none; no other key's session has changed either time.
pub load_session-changed :
    (k j : Text) (session : StoredSession) (items : List (Text × Entry))
    → (load_session j (save_session k session (some items))
        ≡ (if k === j then some session else load_session j (some items)))
      × (load_session j (clear_session k (some items))
          ≡ (if k === j then none else load_session j (some items)))
load_session-changed k j session items =
    (load_session-save_session k j session items, load_session-clear_session k j items)

pub load_session-clear_session_self :
    (k : Text) (storage : Storage) → load_session k (clear_session k storage) ≡ none
unfolding load_session clear_session
load_session-clear_session_self k none = refl
load_session-clear_session_self k (some items) =
    load_session-clear_session k k items ∙ rw (===_refl k)

pub load_session-save_session_self :
    (k : Text) (session : StoredSession) (items : List (Text × Entry))
    → load_session k (save_session k session (some items)) ≡ some session
load_session-save_session_self k session items =
    load_session-save_session k k session items ∙ rw (===_refl k)
