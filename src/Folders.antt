-- ===== src/Folders.antt =====
-- Keys as folders and names: web/src/components/Breadcrumbs.tsx and MoveFileDialog.tsx.
pub mod Crumbs
pub mod Dialog
pub mod Targets
pub mod Moving
pub mod Loading
use file_indexer.Prelude.{
  ℕ, zero, suc, Bool, true, false, Option, none, some, List, [], ◌∷◌, ◌++◌, map, Text, ◌==◌,
  if◌then◌else◌,
}
use file_indexer.Js.Join.{join, split}

-- `s.replace(/\/$/, '')`
unfoldable pub drop_end_slash : Text → Text
drop_end_slash [] = []
drop_end_slash (c ∷ []) = if c == b'/' then [] else c ∷ []
drop_end_slash (c ∷ d ∷ s) = c ∷ drop_end_slash (d ∷ s)

-- `path === '' ? [] : path.replace(/\/$/, '').split('/')`
unfoldable pub segments : Text → List Text
segments [] = []
segments (c ∷ s) = split b'/' (drop_end_slash (c ∷ s))

-- A segment, and the path that a click on it browses to.
pub record Crumb : Type 0 where
  pub name : Text
  pub target : Text

-- The crumbs behind those that are already shown: `segments.slice(0, i + 1).join('/')` and a slash.
unfoldable pub crumbs_from : List Text → List Text → List Crumb
crumbs_from shown [] = []
crumbs_from shown (name ∷ names) =
    let here = shown ++ name ∷ [] in
    record { name = name; target = join (b'/' ∷ []) here ++ b'/' ∷ [] } ∷ crumbs_from here names

unfoldable pub crumbs : Text → List Crumb
unfolding segments drop_end_slash crumbs_from
crumbs path = crumbs_from [] (segments path)

-- A character in front of a key that is split behind its last slash.
abbrev pub cons_key : ℕ → Text × Text → Text × Text
cons_key c ([], name) = if c == b'/' then (c ∷ [], name) else ([], c ∷ name)
cons_key c (d ∷ folder, name) = (c ∷ d ∷ folder, name)

-- `fileKey.slice(0, fileKey.lastIndexOf('/') + 1)` and `fileKey.slice(fileKey.lastIndexOf('/') + 1)`
unfoldable pub split_key : Text → Text × Text
split_key [] = ([], [])
split_key (c ∷ s) = cons_key c (split_key s)

abbrev pub file_name : Text → Text
file_name key = (split_key key).1

abbrev pub current_folder : Text → Text
current_folder key = (split_key key).0
