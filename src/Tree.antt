-- ===== src/Tree.antt =====
-- The folder tree of web/src/components/FolderTree.tsx; what it loads is in Folders/Loading.antt.
pub mod Expanding
pub mod Names
pub mod Rows
pub mod Reached
pub mod Visible
use file_indexer.Prelude.{
  Bool, true, false, not, ◌||◌, Option, none, some, List, [], ◌∷◌, Text, ◌===◌, starts_with,
  if◌then◌else◌,
}
use mathlib.Core.List.{foldl}
use file_indexer.Js.Join.{split}
use file_indexer.Folders.{drop_end_slash}

-- `parts.pop()`
unfoldable pub pop : List Text → Option Text
pop [] = none
pop (part ∷ []) = some part
pop (part ∷ next ∷ parts) = pop (next ∷ parts)

-- The name that a folder of the tree is shown under.
unfoldable pub folder_name : Text → Option Text
unfolding pop drop_end_slash
folder_name prefix = pop (split b'/' (drop_end_slash prefix))

-- `currentPath?.startsWith(prefix) === true`
unfoldable pub is_on_path : Text → Option Text → Bool
is_on_path prefix none = false
is_on_path prefix (some path) = starts_with path prefix

unfoldable pub is_current : Text → Option Text → Bool
is_current prefix none = false
is_current prefix (some path) = path === prefix

-- A folder of the tree that is mounted; `on_current_path` is the value that its effect ran with last.
pub record Node : Type 0 where
  pub on_current_path : Bool
  pub expanded : Bool

unfoldable pub new_node : Text → Option Text → Node
unfolding is_on_path
new_node prefix current =
    let on_path = is_on_path prefix current in
    record { on_current_path = on_path; expanded = on_path }

pub data NodeEvent : Type 0 where
  toggle : NodeEvent
  browse : Option Text → NodeEvent

-- The effect of a render: it runs when the folder comes onto the current path or leaves it.
abbrev pub run_effect : Node → Bool → Node
run_effect n true =
    if n.on_current_path then n else record { on_current_path = true; expanded = true }
run_effect n false =
    if n.on_current_path then record { on_current_path = false; expanded = n.expanded } else n

unfoldable pub handle_node : Text → Node → NodeEvent → Node
unfolding is_on_path
handle_node prefix n toggle = record n { expanded = not n.expanded }
handle_node prefix n (browse current) = run_effect n (is_on_path prefix current)

unfoldable pub handle_nodes : Text → Node → List NodeEvent → Node
unfolding handle_node
handle_nodes prefix n events = foldl (handle_node prefix) n events
