-- ===== src/Table/Untouched.antt =====
-- Nothing but opening and navigating happens in a table before the button of a row is pressed.
use file_indexer.Prelude.{
  ◌≡◌, refl, sym, ap, ◌∙◌, ℕ, Option, none, some, List, [], ◌∷◌, All, get_elem?, Text,
}
use file_indexer.Server.Types.{FileDto}
use file_indexer.Menus.{all_closed, handle}
use file_indexer.Table.{no_dialogs, handle_dialog}
use file_indexer.Table.Clicks.{
  FolderRow, FileTable, new_table, FilePart, cell, actions, download_entry, move_entry,
  delete_entry, FolderPart, name_button, folder_actions, delete_folder_entry, DialogEvent,
  press_delete_dialog, confirm_delete_ok, confirm_delete_failed, confirm_move, cancel_move,
  confirm_move_ok, confirm_move_failed, TableEvent, rows, click_file, click_folder, mouse_down,
  key_down, on_dialog, click_part, click_folder_part, on_file_row, on_folder_row, on_dialog_event,
  handle_table, handle_tables,
}

-- Anything but a press of the button that opens a row's menu.
abbrev pub IsNoButton : TableEvent → Type 0
IsNoButton (click_file i actions) = ⊥
IsNoButton (click_folder i folder_actions) = ⊥
IsNoButton _ = Unit

module _ (display_key : Text → Text) (keys : List (List Text)) where
  -- `t` with the rows and the calls of the properties that it has, and nothing else.
  abbrev blank : FileTable → FileTable
  blank t = record t { menus = all_closed; dialogs = no_dialogs; asked_to_delete = [] }

  on_file_row-blank :
      (t : FileTable) (o : Option FileDto) (i : ℕ) (part : FilePart)
      → IsNoButton (click_file i part)
      → let u = on_file_row display_key keys (blank t) o part in u ≡ blank u
  unfolding click_part
  on_file_row-blank t none i part h = refl
  on_file_row-blank t (some f) i cell h = refl
  on_file_row-blank t (some f) i actions h = absurd h
  on_file_row-blank t (some f) i download_entry h = refl
  on_file_row-blank t (some f) i move_entry h = refl
  on_file_row-blank t (some f) i delete_entry h = refl

  on_folder_row-blank :
      (t : FileTable) (o : Option FolderRow) (i : ℕ) (part : FolderPart)
      → IsNoButton (click_folder i part)
      → let u = on_folder_row display_key keys (blank t) o part in u ≡ blank u
  unfolding click_folder_part
  on_folder_row-blank t none i part h = refl
  on_folder_row-blank t (some r) i name_button h = refl
  on_folder_row-blank t (some r) i folder_actions h = absurd h
  on_folder_row-blank t (some r) i delete_folder_entry h = refl

  on_dialog_event-blank :
      (t : FileTable) (e : DialogEvent)
      → let u = on_dialog_event display_key keys (blank t) e in u ≡ blank u
  unfolding on_dialog_event handle_dialog
  on_dialog_event-blank t (press_delete_dialog press) = refl
  on_dialog_event-blank t confirm_delete_ok = refl
  on_dialog_event-blank t confirm_delete_failed = refl
  on_dialog_event-blank t (confirm_move destination) = refl
  on_dialog_event-blank t cancel_move = refl
  on_dialog_event-blank t confirm_move_ok = refl
  on_dialog_event-blank t (confirm_move_failed err) = refl

  handle_table-blank :
      (t : FileTable) (e : TableEvent)
      → IsNoButton e
      → let u = handle_table display_key keys (blank t) e in u ≡ blank u
  unfolding handle_table handle
  handle_table-blank t (rows folders files) h = refl
  handle_table-blank t (click_file i part) h = on_file_row-blank t (get_elem? t.files i) i part h
  handle_table-blank t (click_folder i part) h =
      on_folder_row-blank t (get_elem? t.folders i) i part h
  handle_table-blank t (mouse_down inside) h = refl
  handle_table-blank t (key_down key) h = refl
  handle_table-blank t (on_dialog e) h = on_dialog_event-blank t e

  handle_tables-blank :
      (events : List TableEvent) (t : FileTable)
      → All IsNoButton events
      → t ≡ blank t
      → let u = handle_tables display_key keys t events in u ≡ blank u
  unfolding handle_tables
  handle_tables-blank [] t h e = e
  handle_tables-blank (x ∷ events) t (here, h) e =
      let step = λ (s : FileTable). handle_table display_key keys s x in
      let kept = handle_table-blank t x here in
      handle_tables-blank events (step t) h (ap step e ∙ kept ∙ ap (λ s. blank (step s)) (sym e))

  -- Whatever else is clicked and pressed, and whatever rows come: before the button of a row is pressed,
  -- no menu and no dialog opens, no file is downloaded, deleted or moved, no query is made stale, and no
  -- folder is asked to be deleted.
  pub handle_tables_untouched :
      (folders : List FolderRow) (files : List FileDto) (events : List TableEvent)
      → All IsNoButton events
      → let t = handle_tables display_key keys (new_table folders files) events in
        (t.menus ≡ all_closed) × (t.dialogs ≡ no_dialogs) × (t.asked_to_delete ≡ [])
  handle_tables_untouched folders files events h =
      let e = handle_tables-blank events (new_table folders files) h refl in
      (
        ap (λ (t : FileTable). t.menus) e,
        ap (λ (t : FileTable). t.dialogs) e,
        ap (λ (t : FileTable). t.asked_to_delete) e,
      )
