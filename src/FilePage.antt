-- ===== src/FilePage.antt =====
-- The page of one file: web/src/routes/file.$id.tsx.
pub mod Requests
use file_indexer.Prelude.{
  ℕ, zero, suc, Bool, true, false, not, ◌&&◌, Option, none, some, List, [], ◌∷◌, ◌++◌, Text, codes,
  if◌then◌else◌,
}
use mathlib.Core.List.{foldl}
use file_indexer.Filters.{BrowseFilters, default_browse_filters}
use file_indexer.Folders.{Crumb, crumbs, file_name, current_folder}
use file_indexer.Table.{ConnectError, move_error_text}

-- A call of a server function.
pub data PageCall : Type 0 where
  get_open_url get_download_url delete_file : Text → PageCall
  move_file : Text → Text → PageCall

-- `key` is the one that the file's metadata was loaded with last, `deleting` and `moving` are whether a
-- mutation is in flight, `calls` the server functions called so far, `opened` the URLs handed to `window.open`, `navigated`
-- the searches of the browse page that were navigated to.
pub record FilePage : Type 0 where
  pub key : Text
  pub confirm_delete : Bool
  pub metadata_open : Bool
  pub move_open : Bool
  pub move_error : Option Text
  pub deleting : Bool
  pub moving : Bool
  pub calls : List PageCall
  pub opened : List Text
  pub invalidated : List (List Text)
  pub navigated : List BrowseFilters

abbrev pub new_page : Text → FilePage
new_page key = record {
  key = key;
  confirm_delete = false;
  metadata_open = false;
  move_open = false;
  move_error = none;
  deleting = false;
  moving = false;
  calls = [];
  opened = [];
  invalidated = [];
  navigated = [];
}

-- The buttons of the page and of its dialogs, the breadcrumbs, and the answers of the server.
pub data PageEvent : Type 0 where
  press_open press_download press_move press_delete press_metadata : PageEvent
  metadata_loaded url_arrived : Text → PageEvent
  confirm_delete cancel_delete close_metadata cancel_move : PageEvent
  confirm_move : Text → PageEvent
  delete_succeeded delete_failed move_succeeded : PageEvent
  move_failed : ConnectError → PageEvent
  go_home : PageEvent
  follow_crumb : ℕ → PageEvent

abbrev pub browse_keys : List (List Text)
browse_keys = (codes "files" ∷ []) ∷ (codes "directory" ∷ []) ∷ (codes "folder-tree" ∷ []) ∷ []

abbrev pub and_request : FilePage → PageCall → FilePage
and_request p c = record p { calls = p.calls ++ c ∷ [] }

-- `navigate({ to: '/', search: { ...DEFAULT_BROWSE_FILTERS, path } })`
abbrev pub browse_to : FilePage → Text → FilePage
browse_to p path = record p {
  navigated = p.navigated ++ (record default_browse_filters { path = path }) ∷ [];
}

abbrev pub invalidate_keys : FilePage → List (List Text) → FilePage
invalidate_keys p keys = record p { invalidated = p.invalidated ++ keys }

-- A click on a breadcrumb of the file's folder, by its index
unfoldable pub to_crumb : FilePage → List Crumb → ℕ → FilePage
to_crumb p [] index = p
to_crumb p (c ∷ cs) zero = browse_to p c.target
to_crumb p (c ∷ cs) (suc index) = to_crumb p cs index

-- `id` is the file's. The button of a dialog is there only while the dialog is, and disabled while its
-- mutation is in flight.
module _ (id : Text) where
  unfoldable pub handle_page : FilePage → PageEvent → FilePage
  unfolding to_crumb
  handle_page p (metadata_loaded key) = record p { key = key }
  handle_page p press_open = and_request p (get_open_url id)
  handle_page p press_download = and_request p (get_download_url id)
  handle_page p press_move = record p { move_open = true }
  handle_page p press_delete = record p { confirm_delete = true }
  handle_page p press_metadata = record p { metadata_open = true }
  handle_page p (url_arrived url) = record p { opened = p.opened ++ url ∷ [] }
  handle_page p confirm_delete =
      if p.confirm_delete && not p.deleting
      then record (and_request p (delete_file id)) { deleting = true }
      else p
  handle_page p cancel_delete = record p { confirm_delete = false }
  handle_page p close_metadata = record p { metadata_open = false }
  handle_page p cancel_move = record p { move_open = false; move_error = none }
  handle_page p (confirm_move destination) =
      if p.move_open && not p.moving
      then record (and_request p (move_file id (destination ++ file_name p.key))) { moving = true }
      else p
  handle_page p delete_succeeded =
      record (browse_to (invalidate_keys p browse_keys) (current_folder p.key)) { deleting = false }
  handle_page p delete_failed = record p { deleting = false }
  handle_page p move_succeeded =
      record (invalidate_keys p (browse_keys ++ (codes "file-metadata" ∷ id ∷ []) ∷ [])) {
        move_open = false;
        move_error = none;
        moving = false;
      }
  handle_page p (move_failed err) = record p {
    move_error = some (move_error_text err);
    moving = false;
  }
  handle_page p go_home = browse_to p []
  handle_page p (follow_crumb index) = to_crumb p (crumbs (current_folder p.key)) index

  unfoldable pub handle_pages : FilePage → List PageEvent → FilePage
  unfolding handle_page
  handle_pages p events = foldl handle_page p events
