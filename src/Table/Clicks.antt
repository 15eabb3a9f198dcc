-- ===== src/Table/Clicks.antt =====
-- The table of web/src/components/FileTable.tsx as a whole: its rows, their menus and its dialogs, and
-- what a click on each of them does, with the click's way up to the row.
use file_indexer.Prelude.{
  ℕ, Bool, true, false, Option, none, some, List, [], ◌∷◌, ◌++◌, get_elem?, Text, ◌===◌,
  if◌then◌else◌,
}
use mathlib.Core.List.{foldl}
use file_indexer.Server.Types.{FileDto}
use file_indexer.Menus.{
  Menus, all_closed, handle, file_button, folder_button, menu_item, Event as MenuEvent,
  mouse_down as menus_mouse_down, key_down as menus_key_down,
}
use file_indexer.Table.Confirmation.{Press, Answer, on_confirm, on_cancel, answer_of}
use file_indexer.Table.{
  Picked, ConnectError, Dialogs, no_dialogs, Event, pick_download, pick_move, pick_delete,
  handle_dialog,
}

pub record FolderRow : Type 0 where
  pub path : Text
  pub name : Text

-- `opened`, `navigated` and `asked_to_delete` are what `onOpenFile`, `onNavigateFolder` and
-- `onDeleteFolder` were called with so far.
pub record FileTable : Type 0 where
  pub folders : List FolderRow
  pub files : List FileDto
  pub menus : Menus
  pub dialogs : Dialogs
  pub opened : List Text
  pub navigated : List Text
  pub asked_to_delete : List Text

abbrev pub new_table : List FolderRow → List FileDto → FileTable
new_table folders files = record {
  folders = folders;
  files = files;
  menus = all_closed;
  dialogs = no_dialogs;
  opened = [];
  navigated = [];
  asked_to_delete = [];
}

-- What of a row of a file is clicked: its button, an entry of its menu, or anything else.
pub data FilePart : Type 0 where
  cell actions download_entry move_entry delete_entry : FilePart

pub data FolderPart : Type 0 where
  name_button folder_actions delete_folder_entry : FolderPart

-- The buttons of the dialogs, and the ends of the mutations.
pub data DialogEvent : Type 0 where
  press_delete_dialog : Press → DialogEvent
  confirm_delete_ok confirm_delete_failed : DialogEvent
  confirm_move : Text → DialogEvent
  cancel_move confirm_move_ok : DialogEvent
  confirm_move_failed : ConnectError → DialogEvent

-- A click is on the row of a number; `rows` are new properties.
pub data TableEvent : Type 0 where
  rows : List FolderRow → List FileDto → TableEvent
  click_file : ℕ → FilePart → TableEvent
  click_folder : ℕ → FolderPart → TableEvent
  mouse_down : Bool → TableEvent
  key_down : Text → TableEvent
  on_dialog : DialogEvent → TableEvent

-- `openFileMenuId === file.id`
abbrev pub is_open_for : Option Text → Text → Bool
is_open_for none id = false
is_open_for (some open_id) id = open_id === id

abbrev pub picked : FileDto → Picked
picked f = record { id = f.id; key = f.key }

abbrev pub with_menus : FileTable → MenuEvent → FileTable
with_menus t e = record t { menus = handle t.menus e }

abbrev pub is_shown : Option Picked → Bool
is_shown none = false
is_shown (some f) = true

module _ (display_key : Text → Text) (invalidate_keys : List (List Text)) where
  abbrev pub with_dialogs : FileTable → Event → FileTable
  with_dialogs t e = record t { dialogs = handle_dialog display_key invalidate_keys t.dialogs e }

  -- An entry is there to be clicked only while its row's menu is open; it closes the menus first.
  abbrev pub on_entry : FileTable → Bool → Event → FileTable
  on_entry t false e = t
  on_entry t true e = with_dialogs (with_menus t menu_item) e

  -- The button and the entries end with `stopPropagation`: only a click elsewhere goes up to the row.
  unfoldable pub click_part : FileTable → FileDto → FilePart → FileTable × Bool
  click_part t f cell = (t, true)
  click_part t f actions = (with_menus t (file_button f.id), false)
  click_part t f download_entry =
      (on_entry t (is_open_for t.menus.open_file_menu_id f.id) (pick_download f.id), false)
  click_part t f move_entry =
      (on_entry t (is_open_for t.menus.open_file_menu_id f.id) (pick_move (picked f)), false)
  click_part t f delete_entry =
      (on_entry t (is_open_for t.menus.open_file_menu_id f.id) (pick_delete (picked f)), false)

  -- The row's own `onClick`.
  abbrev pub click_row : FileTable × Bool → FileDto → FileTable
  click_row (t, true) f = record t { opened = t.opened ++ f.id ∷ [] }
  click_row (t, false) f = t

  abbrev pub on_delete_folder : FileTable → Bool → Text → FileTable
  on_delete_folder t false path = t
  on_delete_folder t true path = record (with_menus t menu_item) {
    asked_to_delete = t.asked_to_delete ++ path ∷ [];
  }

  unfoldable pub click_folder_part : FileTable → FolderRow → FolderPart → FileTable
  click_folder_part t r name_button = record t { navigated = t.navigated ++ r.path ∷ [] }
  click_folder_part t r folder_actions = with_menus t (folder_button r.path)
  click_folder_part t r delete_folder_entry =
      on_delete_folder t (is_open_for t.menus.open_folder_menu_path r.path) r.path

  abbrev pub on_file_row : FileTable → Option FileDto → FilePart → FileTable
  on_file_row t none part = t
  on_file_row t (some f) part = click_row (click_part t f part) f

  abbrev pub on_folder_row : FileTable → Option FolderRow → FolderPart → FileTable
  on_folder_row t none part = t
  on_folder_row t (some r) part = click_folder_part t r part

  abbrev pub on_answer : FileTable → Option Answer → FileTable
  on_answer t none = t
  on_answer t (some on_confirm) = with_dialogs t Event.confirm_delete
  on_answer t (some on_cancel) = with_dialogs t Event.cancel_delete

  -- The dialog of a deletion is there only for a picked file, and a mutation ends only while it is in
  -- flight.
  unfoldable pub on_dialog_event : FileTable → DialogEvent → FileTable
  on_dialog_event t (press_delete_dialog press) =
      if is_shown t.dialogs.file_to_delete
      then on_answer t (answer_of t.dialogs.deleting press)
      else t
  on_dialog_event t confirm_delete_ok =
      if t.dialogs.deleting then with_dialogs t Event.delete_succeeded else t
  on_dialog_event t confirm_delete_failed =
      if t.dialogs.deleting then with_dialogs t Event.delete_failed else t
  on_dialog_event t (confirm_move destination) = with_dialogs t (Event.confirm_move destination)
  on_dialog_event t cancel_move = with_dialogs t Event.cancel_move
  on_dialog_event t confirm_move_ok =
      if t.dialogs.moving then with_dialogs t Event.move_succeeded else t
  on_dialog_event t (confirm_move_failed err) =
      if t.dialogs.moving then with_dialogs t (Event.move_failed err) else t

  unfoldable pub handle_table : FileTable → TableEvent → FileTable
  unfolding click_part click_folder_part on_dialog_event
  handle_table t (rows folders files) = record t { folders = folders; files = files }
  handle_table t (click_file i part) = on_file_row t (get_elem? t.files i) part
  handle_table t (click_folder i part) = on_folder_row t (get_elem? t.folders i) part
  handle_table t (mouse_down inside) = with_menus t (menus_mouse_down inside)
  handle_table t (key_down key) = with_menus t (menus_key_down key)
  handle_table t (on_dialog e) = on_dialog_event t e

  unfoldable pub handle_tables : FileTable → List TableEvent → FileTable
  unfolding handle_table
  handle_tables t events = foldl handle_table t events
