-- ===== src/Tests/Levels.antt =====
-- The folder tree of a small bucket at a concrete path.
use file_indexer.Prelude.{
  ◌≡◌, refl, inl, inr, ◌↔◌, true, false, some, [], ◌∷◌, Text, codes, ◌===◌, arith, starts_with,
  if◌then◌else◌,
}
use file_indexer.Tree.{new_node}
use file_indexer.Tree.Rows.{Level, level_pending, level_loaded, loading_row, folder_row, tree_rows}
use file_indexer.Tree.Reached.{Has, Reached, row_of, tree_rows-Reached}
use file_indexer.Tree.Visible.{at_first, Trail, tree_rows-current}

abbrev docs : Text
docs = codes "docs/"

abbrev work : Text
work = codes "docs/work/"

-- The listing below the browsed folder is still loading.
abbrev levels : Text → Level
levels path =
    if path === []
    then level_loaded (codes "art/" ∷ docs ∷ [])
    else if path === docs
    then level_loaded (work ∷ [])
    else level_pending

rows_at_work :
    tree_rows levels (at_first work) (some work) 5
    ≡ folder_row (codes "art/") 1 false false
      ∷ folder_row docs 1 true false
      ∷ folder_row work 2 true true
      ∷ loading_row 3
      ∷ []
unfolding tree_rows new_node starts_with file_indexer.Tree.is_current ◌===◌
rows_at_work = refl

work-Trail : Trail levels work [] (docs ∷ work ∷ [])
unfolding ◌===◌
work-Trail = (
  (codes "art/" ∷ docs ∷ [], refl, inr (inl refl)),
  (docs, refl),
  ((work ∷ [], refl, inl refl), (codes "work/", refl), refl),
)

tree_rows-current_example :
    Has (folder_row work 2 true true) (tree_rows levels (at_first work) (some work) 5)
tree_rows-current_example =
    tree_rows-current levels work docs (work ∷ []) 5 work-Trail (omega arith)

tree_rows-Reached_example :
    Has
      (row_of levels (at_first work) (some work) work 2)
      (tree_rows levels (at_first work) (some work) 5)
    ↔ Reached levels (at_first work) work 2
tree_rows-Reached_example =
    tree_rows-Reached levels (at_first work) (some work) 5 work 2 (omega arith)
