-- ===== src/Folders/Loading.antt =====
-- Loading a folder's subfolders page by page: `fetchChildDirectories` of
-- web/src/components/FolderTree.tsx and of web/src/components/MoveFileDialog.tsx.
pub mod Agreement
use file_indexer.Prelude.{ℕ, zero, suc, Option, none, some, List, [], ◌∷◌, ◌++◌, Text, Eff, pure}
use file_indexer.Prelude.Effects.{◌>>=◌}
use file_indexer.Server.Types.{FileDto}
use file_indexer.Server.Listing.{ListDirectoryResult}

-- `nextPageToken === '' ? undefined : nextPageToken`
abbrev pub next_token : Text → Option Text
next_token [] = none
next_token (c ∷ s) = some (c ∷ s)

-- `listDirectory({ data: { path, pageToken, sortField: 'key', sortOrder: 'asc' } })`, at one path
module _ {N : Type 0} (list_page : Option Text → Eff N ListDirectoryResult) where
  -- What follows a page: its own directories are taken, and the loop goes on with the rest.
  abbrev pub go_on :
      (Option Text → List Text → Eff N (Option (List Text)))
      → List Text
      → Option Text
      → Eff N (Option (List Text))
  go_on loop directories none = pure (some directories)
  go_on loop directories (some token) = loop (some token) directories

  abbrev pub unless_files :
      List FileDto → List Text → Eff N (Option (List Text)) → Eff N (Option (List Text))
  unless_files [] directories rest = rest
  unless_files (_ ∷ _) directories rest = pure (some directories)

  -- The tree's loop, over so many pages; `none` if there are more of them.
  unfoldable pub load_tree : ℕ → Option Text → List Text → Eff N (Option (List Text))
  load_tree zero token directories = pure none
  load_tree (suc fuel) token directories = do
    page ← list_page token
    let all = directories ++ page.directories
    unless_files page.files all (go_on (load_tree fuel) all (next_token page.next_page_token))

  -- The dialog's loop, which ends after so many pages with what it has.
  unfoldable pub load_dialog : ℕ → Option Text → List Text → Eff N (List Text)
  load_dialog zero token directories = pure directories
  load_dialog (suc left) token directories = do
    page ← list_page token
    let all = directories ++ page.directories
    elim (next_token page.next_page_token) [
      | none ↦ pure all
      | some next ↦ load_dialog left (some next) all
    ]

  unfoldable pub fetch_tree_directories : ℕ → Eff N (Option (List Text))
  fetch_tree_directories fuel = load_tree fuel none []

  -- `maxPages` is 100.
  unfoldable pub fetch_dialog_directories : Eff N (List Text)
  fetch_dialog_directories = load_dialog 100 none []
