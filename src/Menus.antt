-- ===== src/Menus.antt =====
-- The action menus of web/src/components/FileTable.tsx: one per row of files and of folders.
pub mod Single
use file_indexer.Prelude.{
  Bool, true, false, ◌&&◌, not, Option, none, some, List, [], ◌∷◌, Text, codes, ◌===◌,
  if◌then◌else◌,
}
use mathlib.Core.List.{foldl}

pub record Menus : Type 0 where
  pub open_file_menu_id : Option Text
  pub open_folder_menu_path : Option Text

abbrev pub all_closed : Menus
all_closed = record { open_file_menu_id = none; open_folder_menu_path = none }

-- `current === id ? null : id`
abbrev pub flipped : Option Text → Text → Option Text
flipped none id = some id
flipped (some current) id = if current === id then none else some id

abbrev pub is_open : Option Text → Bool
is_open none = false
is_open (some _) = true

unfoldable pub any_menu_open : Menus → Bool
any_menu_open m = if is_open m.open_file_menu_id then true else is_open m.open_folder_menu_path

-- What a table hears of: the buttons of its rows, and a press of the mouse or of a key anywhere.
pub data Event : Type 0 where
  file_button : Text → Event
  folder_button : Text → Event
  -- an entry of an open menu, whatever else it starts
  menu_item : Event
  -- whether the press was inside the open menu or on its button
  mouse_down : Bool → Event
  key_down : Text → Event

-- The listeners on the document are there only while a menu is open.
unfoldable pub handle : Menus → Event → Menus
unfolding any_menu_open
handle m (file_button id) = record {
  open_file_menu_id = flipped m.open_file_menu_id id;
  open_folder_menu_path = none;
}
handle m (folder_button path) = record {
  open_file_menu_id = none;
  open_folder_menu_path = flipped m.open_folder_menu_path path;
}
handle m menu_item = all_closed
handle m (mouse_down inside) = if any_menu_open m && not inside then all_closed else m
handle m (key_down key) = if any_menu_open m && (key === codes "Escape") then all_closed else m

unfoldable pub handle_all : Menus → List Event → Menus
unfolding handle
handle_all m events = foldl handle m events
