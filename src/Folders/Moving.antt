-- ===== src/Folders/Moving.antt =====
-- Picking a destination in the dialog of web/src/components/MoveFileDialog.tsx.
pub mod Destinations
use file_indexer.Prelude.{
  ℕ, zero, suc, Bool, true, false, ◌||◌, none, some, List, [], ◌∷◌, ◌++◌, Text, codes, ◌==◌, ◌===◌,
  if◌then◌else◌,
}
use mathlib.Core.List.{foldl}
use file_indexer.Js.Join.{split}
use file_indexer.Folders.{Crumb, drop_end_slash, crumbs_from, file_name, current_folder}
use file_indexer.Folders.Dialog.{Dialog, navigate_to, handle_new_folder_submit}

-- A dialog, with the destinations that were handed to `onConfirm` so far.
pub record MoveDialog : Type 0 where
  pub dialog : Dialog
  pub confirmed : List Text

unfoldable pub new_dialog : Text → MoveDialog
new_dialog file_key = record {
  dialog = record {
    view_path = current_folder file_key;
    show_add_folder = false;
    new_folder_name = [];
    new_folder_error = none;
  };
  confirmed = [];
}

-- `filter(Boolean)`
unfoldable pub filter_filled : List Text → List Text
filter_filled [] = []
filter_filled ([] ∷ parts) = filter_filled parts
filter_filled ((c ∷ s) ∷ parts) = (c ∷ s) ∷ filter_filled parts

-- The path bar: its segments, and the path that each leads to.
unfoldable pub path_bar : Text → List Crumb
unfolding filter_filled drop_end_slash crumbs_from
path_bar view_path = crumbs_from [] (filter_filled (split b'/' (drop_end_slash view_path)))

pub data MoveEvent : Type 0 where
  go_home : MoveEvent
  -- a segment of the path bar by its index, and a listed subfolder by its path
  go_to_segment : ℕ → MoveEvent
  go_to_subfolder : Text → MoveEvent
  add_folder cancel_add submit : MoveEvent
  type_name : Text → MoveEvent
  -- `Move here`, with whether a move is in flight
  move_here : Bool → MoveEvent

-- `navigateTo(segments[index])`, the last of which is no button.
unfoldable pub go_to : Dialog → List Crumb → ℕ → Dialog
go_to d [] index = d
go_to d (here ∷ []) index = d
go_to d (crumb ∷ next ∷ crumbs) zero = navigate_to crumb.target d
go_to d (crumb ∷ next ∷ crumbs) (suc index) = go_to d (next ∷ crumbs) index

abbrev pub in_dialog : MoveDialog → Dialog → MoveDialog
in_dialog m d = record m { dialog = d }

module _ (file_key : Text) where
  -- `destinationKey`
  abbrev pub destination_key : Text → Text
  destination_key view_path = view_path ++ file_name file_key

  -- The button is disabled while a move is in flight, and where the file is already.
  abbrev pub confirm : MoveDialog → Bool → MoveDialog
  confirm m moving =
      if moving || (destination_key m.dialog.view_path === file_key)
      then m
      else record m { confirmed = m.confirmed ++ m.dialog.view_path ∷ [] }

  unfoldable pub handle_move : MoveDialog → MoveEvent → MoveDialog
  unfolding navigate_to handle_new_folder_submit path_bar go_to
  handle_move m go_home = in_dialog m (navigate_to [] m.dialog)
  handle_move m (go_to_segment index) =
      in_dialog m (go_to m.dialog (path_bar m.dialog.view_path) index)
  handle_move m (go_to_subfolder dir) = in_dialog m (navigate_to dir m.dialog)
  handle_move m add_folder = in_dialog m (record (MoveDialog.dialog m) { show_add_folder = true })
  handle_move m cancel_add = in_dialog m (record (MoveDialog.dialog m) {
    show_add_folder = false;
    new_folder_name = [];
    new_folder_error = none;
  })
  handle_move m submit = in_dialog m (handle_new_folder_submit m.dialog)
  handle_move m (type_name name) =
      in_dialog m (record (MoveDialog.dialog m) { new_folder_name = name; new_folder_error = none })
  handle_move m (move_here moving) = confirm m moving

  unfoldable pub handle_moves : MoveDialog → List MoveEvent → MoveDialog
  unfolding handle_move
  handle_moves m events = foldl handle_move m events
