-- ===== src/Tree/Rows.antt =====
-- What the folder tree of web/src/components/FolderTree.tsx has on the page: a row for each folder of the
-- levels that are shown.
use file_indexer.Prelude.{ℕ, zero, suc, Bool, Option, List, [], ◌∷◌, flat_map, Text, if◌then◌else◌}
use file_indexer.Tree.{is_current}

-- What the query of a level has.
pub data Level : Type 0 where
  level_pending level_error : Level
  level_loaded : List Text → Level

-- A text of a level, or a folder with its depth, whether it is expanded and whether it is the current
-- one.
pub data TreeRow : Type 0 where
  loading_row failed_row : ℕ → TreeRow
  folder_row : Text → ℕ → Bool → Bool → TreeRow

-- `expanded` is the state of the folders that are mounted. The fuel bounds the depth.
module _ (children : Text → Level) (expanded : Text → Bool) (current : Option Text) where
  -- `FolderNode`, with the rows of the level below it.
  abbrev pub node_rows : ℕ → List TreeRow → Text → List TreeRow
  node_rows depth below dir =
      folder_row dir depth (expanded dir) (is_current dir current)
      ∷ (if expanded dir then below else [])

  abbrev pub level_view : Level → ℕ → (Text → List TreeRow) → List TreeRow
  level_view level_pending depth node = loading_row depth ∷ []
  level_view level_error depth node = failed_row depth ∷ []
  level_view (level_loaded dirs) depth node = flat_map node dirs

  -- `FolderLevel`
  unfoldable pub level_rows : ℕ → Text → ℕ → List TreeRow
  level_rows zero path depth = []
  level_rows (suc fuel) path depth =
      level_view (children path) depth
        (λ dir. node_rows depth (level_rows fuel dir (suc depth)) dir)

  -- The rows below `Home`.
  unfoldable pub tree_rows : ℕ → List TreeRow
  unfolding level_rows
  tree_rows fuel = level_rows fuel [] 1
