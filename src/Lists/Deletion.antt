-- ===== src/Lists/Deletion.antt =====
-- Deleting a folder: web/src/components/DirectoryList.tsx and DeleteFolderConfirmation.tsx.
pub mod Shown
use file_indexer.Prelude.{
  ℤ, pos, Bool, true, false, not, ◌&&◌, ◌||◌, Option, none, some, List, [], ◌∷◌, ◌++◌, Text, codes,
  int_eq, ◌===◌, if◌then◌else◌,
}
use mathlib.Core.List.{foldl}
use file_indexer.Js.Decimal.{to_string}
use file_indexer.Format.{format_bytes}

-- What the query for a folder's contents has: nothing yet, an error's text, or the count and the size.
pub data StatsView : Type 0 where
  stats_pending : StatsView
  stats_error : Text → StatsView
  stats : ℤ → ℤ → StatsView

unfoldable pub is_stats_pending : StatsView → Bool
is_stats_pending stats_pending = true
is_stats_pending _ = false

-- What the dialog says of the folder's contents, up to the warning.
unfoldable pub stats_text : StatsView → Text
stats_text stats_pending = codes "Checking contents" ++ 8230 ∷ []
stats_text (stats_error message) = codes "Failed to load folder contents: " ++ message
stats_text (stats count bytes) =
    codes "This deletes "
    ++ (to_string count
        ++ (codes " file"
            ++ ((if int_eq count (pos 1) then [] else codes "s")
                ++ (codes " (" ++ (format_bytes bytes ++ codes "). ")))))

-- `calls` are the folders that `deleteDirectory` was called for so far, `deleting` whether such a call is
-- in flight, and `invalidated` the query keys handed to `invalidateQueries`.
pub record Deletion : Type 0 where
  pub folder_to_delete : Option Text
  pub view : StatsView
  pub deleting : Bool
  pub delete_error : Option Text
  pub calls : List Text
  pub invalidated : List (List Text)

abbrev pub no_deletion : Deletion
no_deletion = record {
  folder_to_delete = none;
  view = stats_pending;
  deleting = false;
  delete_error = none;
  calls = [];
  invalidated = [];
}

pub data DeletionEvent : Type 0 where
  -- a folder is picked, with what the query has for it, and the query has something new for a folder
  pick_folder stats_changed : Text → StatsView → DeletionEvent
  cancel_folder confirm_folder folder_deleted : DeletionEvent
  folder_failed : Text → DeletionEvent

abbrev pub see : Deletion → Option Text → Text → StatsView → Deletion
see d none path view = d
see d (some p) path view = if p === path then record d { view = view } else d

-- The button is disabled while the contents are pending, or a deletion is.
abbrev pub on_confirm : Deletion → Option Text → Deletion
on_confirm d none = d
on_confirm d (some p) =
    if is_stats_pending d.view || d.deleting
    then d
    else record d { deleting = true; delete_error = none; calls = d.calls ++ p ∷ [] }

unfoldable pub handle_deletion : Deletion → DeletionEvent → Deletion
unfolding is_stats_pending
handle_deletion d (pick_folder path view) = record d { folder_to_delete = some path; view = view }
handle_deletion d (stats_changed path view) = see d d.folder_to_delete path view
handle_deletion d cancel_folder = record d { folder_to_delete = none }
handle_deletion d confirm_folder = on_confirm d d.folder_to_delete
handle_deletion d folder_deleted = record d {
  folder_to_delete = none;
  deleting = false;
  invalidated = d.invalidated ++ ((codes "directory" ∷ []) ∷ (codes "folder-tree" ∷ []) ∷ []);
}
handle_deletion d (folder_failed error) = record d { deleting = false; delete_error = some error }

unfoldable pub handle_deletions : Deletion → List DeletionEvent → Deletion
unfolding handle_deletion
handle_deletions d events = foldl handle_deletion d events
