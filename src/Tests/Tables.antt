-- ===== src/Tests/Tables.antt =====
-- A table of one folder and one file at concrete clicks.
use file_indexer.Prelude.{◌≡◌, refl, false, none, List, [], ◌∷◌, All, Text, codes, ◌===◌, pos}
use file_indexer.Server.Types.{PreviewStatus, FileDto}
use file_indexer.Folders.{split_key}
use file_indexer.Menus.{all_closed, handle}
use file_indexer.Menus.Single.{AtMostOne}
use file_indexer.Table.{no_dialogs, Call, download, delete, move}
use file_indexer.Table.Confirmation.{confirm_button, dialog_key, answer_of}
use file_indexer.Table.Clicks.{
  FolderRow, FileTable, new_table, cell, actions, move_entry, delete_entry, name_button,
  folder_actions, delete_folder_entry, press_delete_dialog, confirm_move, confirm_move_ok,
  TableEvent, rows, click_file, click_folder, mouse_down, key_down, on_dialog, handle_tables,
}
use file_indexer.Table.Rows.{ShownId, ShownPath, OfShown, handle_tables-OfShown}
use file_indexer.Table.Untouched.{handle_tables_untouched}

abbrev cat : FileDto
cat = record {
  id = codes "1";
  key = codes "a/cat.jpg";
  content_type = codes "image/jpeg";
  size_bytes = pos 3;
  created_at = none;
  updated_at = none;
  taken_at = none;
  preview_url = none;
  preview_width = none;
  preview_height = none;
  preview_status = PreviewStatus.ready;
}

abbrev summer : FolderRow
summer = record { path = codes "a/summer/"; name = codes "summer" }

abbrev same : Text → Text
same key = key

-- The cat is moved by its menu, and opened by a click on its row; the folder is asked to be deleted.
abbrev clicks : List TableEvent
clicks =
    click_file 0 delete_entry
    ∷ click_file 0 actions
    ∷ click_file 0 move_entry
    ∷ on_dialog (confirm_move (codes "b/"))
    ∷ click_file 0 cell
    ∷ click_folder 0 folder_actions
    ∷ click_folder 0 delete_folder_entry
    ∷ rows [] (cat ∷ [])
    ∷ click_folder 0 name_button
    ∷ []

abbrev clicked : FileTable
clicked = handle_tables same [] (new_table (summer ∷ []) (cat ∷ [])) clicks

clicked_calls :
    (clicked.dialogs.calls ≡ move (codes "1") (codes "b/cat.jpg") ∷ [])
    × (clicked.opened ≡ codes "1" ∷ [])
    × (clicked.navigated ≡ [])
    × (clicked.asked_to_delete ≡ codes "a/summer/" ∷ [])
    × (clicked.menus ≡ all_closed)
unfolding handle_tables file_indexer.Table.handle_dialog split_key handle ◌===◌
clicked_calls = (refl, refl, refl, refl, refl)

abbrev IsCat : FileDto → Type 0
IsCat f = f ≡ cat

abbrev IsSummer : FolderRow → Type 0
IsSummer r = r ≡ summer

handle_tables-OfShown_example :
    All (OfShown IsCat IsSummer) clicked.dialogs.calls
    × All (ShownId IsCat IsSummer) clicked.opened
    × All (ShownPath IsCat IsSummer) clicked.navigated
    × All (ShownPath IsCat IsSummer) clicked.asked_to_delete
    × AtMostOne clicked.menus
handle_tables-OfShown_example =
    handle_tables-OfShown IsCat IsSummer same [] (summer ∷ []) (cat ∷ []) clicks (refl, tt)
      (refl, tt) (tt, (tt, (tt, (tt, (tt, (tt, (tt, ((tt, (refl, tt)), (tt, tt)))))))))

-- Entries that are not there, presses anywhere, and a folder that is entered.
abbrev idle : List TableEvent
idle =
    click_file 0 delete_entry
    ∷ click_folder 0 delete_folder_entry
    ∷ on_dialog (press_delete_dialog confirm_button)
    ∷ on_dialog confirm_move_ok
    ∷ mouse_down false
    ∷ key_down (codes "Escape")
    ∷ click_folder 0 name_button
    ∷ []

handle_tables_untouched_example :
    let t = handle_tables same [] (new_table (summer ∷ []) (cat ∷ [])) idle in
    (t.menus ≡ all_closed) × (t.dialogs ≡ no_dialogs) × (t.asked_to_delete ≡ [])
handle_tables_untouched_example =
    handle_tables_untouched same [] (summer ∷ []) (cat ∷ []) idle
      (tt, (tt, (tt, (tt, (tt, (tt, (tt, tt)))))))

-- A press of Escape cancels the deletion, and there is no button left to confirm it.
escape_cancels :
    (handle_tables same [] (new_table [] (cat ∷ [])) (
      click_file 0 actions
      ∷ click_file 0 delete_entry
      ∷ on_dialog (press_delete_dialog (dialog_key (codes "Escape")))
      ∷ on_dialog (press_delete_dialog confirm_button)
      ∷ [])).dialogs
    ≡ no_dialogs
unfolding handle_tables file_indexer.Table.handle_dialog answer_of handle ◌===◌
escape_cancels = refl
