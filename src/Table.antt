-- ===== src/Table.antt =====
-- The dialogs of web/src/components/FileTable.tsx, and the mutations that they start; in Table/Clicks.antt
-- the whole table.
pub mod Selection
pub mod Clicks
pub mod Confirmation
pub mod Rows
pub mod Untouched
use file_indexer.Prelude.{
  ℕ, ◌+◌, ◌-◌, Bool, true, false, ◌&&◌, ◌||◌, Option, none, some, List, [], ◌∷◌, ◌++◌, Text, codes,
  ◌==◌, leb, if◌then◌else◌,
}
use mathlib.Core.List.{foldl}
use file_indexer.Folders.{file_name}

-- A file that a row's menu picked, with the key that its dialog shows.
pub record Picked : Type 0 where
  pub id : Text
  pub key : Text

-- A call of a server function.
pub data Call : Type 0 where
  download : Text → Call
  delete : Text → Call
  move : Text → Text → Call

-- What `ConnectError.from` makes of an error.
pub record ConnectError : Type 0 where
  pub is_already_exists : Bool
  pub message : Text

abbrev pub upper : ℕ → ℕ
upper c = if leb b'a' c && leb c b'z' then c - 32 else c

unfoldable pub begins_ignoring_case : Text → Text → Bool
begins_ignoring_case s [] = true
begins_ignoring_case [] (_ ∷ _) = false
begins_ignoring_case (a ∷ s) (b ∷ t) = (upper a == upper b) && begins_ignoring_case s t

-- `/word/i.test(s)`
unfoldable pub includes_ignoring_case : Text → Text → Bool
includes_ignoring_case [] word = begins_ignoring_case [] word
includes_ignoring_case (c ∷ s) word =
    begins_ignoring_case (c ∷ s) word || includes_ignoring_case s word

-- What `onError` of a move shows.
unfoldable pub move_error_text : ConnectError → Text
unfolding includes_ignoring_case begins_ignoring_case
move_error_text err =
    if err.is_already_exists || includes_ignoring_case err.message (codes "already_exists")
    then codes "A file with this name already exists there"
    else err.message

-- `deleting` and `moving` are whether a mutation is in flight, which disables the button that would
-- begin another. `calls` are the server functions called so far, `invalidated` the query keys handed to
-- `invalidateQueries`.
pub record Dialogs : Type 0 where
  pub file_to_delete : Option Picked
  pub file_to_move : Option Picked
  pub move_error : Option Text
  pub deleting : Bool
  pub moving : Bool
  pub calls : List Call
  pub invalidated : List (List Text)

abbrev pub no_dialogs : Dialogs
no_dialogs = record {
  file_to_delete = none;
  file_to_move = none;
  move_error = none;
  deleting = false;
  moving = false;
  calls = [];
  invalidated = [];
}

-- The entries of a row's menu, the buttons of the two dialogs, and the ends of the mutations, which
-- come when they come.
pub data Event : Type 0 where
  pick_download : Text → Event
  pick_move pick_delete : Picked → Event
  confirm_delete cancel_delete delete_succeeded delete_failed : Event
  confirm_move : Text → Event
  cancel_move move_succeeded : Event
  move_failed : ConnectError → Event

abbrev pub and_call : Dialogs → Call → Dialogs
and_call d c = record d { calls = d.calls ++ c ∷ [] }

abbrev pub on_confirm_delete : Dialogs → Option Picked → Dialogs
on_confirm_delete d none = d
on_confirm_delete d (some f) =
    if d.deleting then d else record (and_call d (delete f.id)) { deleting = true }

abbrev pub on_confirm_move : Dialogs → Text → Option Picked → Dialogs
on_confirm_move d destination none = d
on_confirm_move d destination (some f) =
    if d.moving
    then d
    else record (and_call d (move f.id (destination ++ file_name f.key))) { moving = true }

-- The keys that a move makes stale.
abbrev pub move_keys : List (List Text)
move_keys = (codes "files" ∷ []) ∷ (codes "directory" ∷ []) ∷ (codes "folder-tree" ∷ []) ∷ []

module _ (display_key : Text → Text) (invalidate_keys : List (List Text)) where
  unfoldable pub handle_dialog : Dialogs → Event → Dialogs
  handle_dialog d (pick_download id) = and_call d (download id)
  handle_dialog d (pick_move f) = record d { file_to_move = some f }
  handle_dialog d (pick_delete f) = record d {
    file_to_delete = some (record { id = f.id; key = display_key f.key });
  }
  handle_dialog d confirm_delete = on_confirm_delete d d.file_to_delete
  handle_dialog d cancel_delete = record d { file_to_delete = none }
  handle_dialog d delete_succeeded = record d {
    file_to_delete = none;
    deleting = false;
    invalidated = d.invalidated ++ invalidate_keys;
  }
  handle_dialog d delete_failed = record d { deleting = false }
  handle_dialog d (confirm_move destination) = on_confirm_move d destination d.file_to_move
  handle_dialog d cancel_move = record d { file_to_move = none; move_error = none }
  handle_dialog d move_succeeded = record d {
    file_to_move = none;
    move_error = none;
    moving = false;
    invalidated = d.invalidated ++ move_keys;
  }
  handle_dialog d (move_failed err) = record d {
    move_error = some (move_error_text err);
    moving = false;
  }

  unfoldable pub handle_dialogs : Dialogs → List Event → Dialogs
  unfolding handle_dialog
  handle_dialogs d events = foldl handle_dialog d events
