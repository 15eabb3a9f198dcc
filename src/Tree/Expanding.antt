-- ===== src/Tree/Expanding.antt =====
-- When a folder of the tree is expanded.
use file_indexer.Prelude.{
  ◌≡◌, refl, sym, ◌∙◌, inl, inr, Bool, true, false, ◌||◌, ◌&&◌, not, any, Option, List, [], ◌∷◌,
  map, Text, Bool-cases,
}
use file_indexer.Tree.{
  is_on_path, Node, new_node, NodeEvent, browse, run_effect, handle_node, handle_nodes,
}

-- Only the path changes, to each of these in turn.
abbrev pub visits : Text → Node → List (Option Text) → Node
visits prefix n paths = handle_nodes prefix n (map browse paths)

-- Whether the folder is on one of these paths.
abbrev pub on_any : Text → List (Option Text) → Bool
on_any prefix paths = any (is_on_path prefix) paths

-- Whether the path comes onto the folder from outside it, starting from there.
abbrev pub enters : Text → Bool → List (Option Text) → Bool
enters prefix inside [] = false
enters prefix inside (path ∷ paths) =
    (not inside && is_on_path prefix path) || enters prefix (is_on_path prefix path) paths

or_assoc : (a b c : Bool) → ((a || b) || c) ≡ a || (b || c)
or_assoc true b c = refl
or_assoc false b c = refl

run_effect-on : (n : Node) (now : Bool) → (run_effect n now).on_current_path ≡ now
run_effect-on n true = elim (Bool-cases n.on_current_path) [ inl h ↦ rw h refl | inr h ↦ rw h refl ]
run_effect-on n false = elim (Bool-cases n.on_current_path) [
  | inl h ↦ rw h refl
  | inr h ↦ rw h refl
]

or-true : (b : Bool) → (b || true) ≡ true
or-true true = refl
or-true false = refl

or-nothing : (b : Bool) → (b || false) ≡ b
or-nothing true = refl
or-nothing false = refl

run_effect-expanded :
    (n : Node) (now : Bool)
    → (run_effect n now).expanded ≡ n.expanded || (not n.on_current_path && now)
run_effect-expanded n true = elim (Bool-cases n.on_current_path) [
  | inl h ↦ rw h (sym (or-nothing n.expanded))
  | inr h ↦ rw h (sym (or-true n.expanded))
]
run_effect-expanded n false = elim (Bool-cases n.on_current_path) [
  | inl h ↦ rw h (sym (or-nothing n.expanded))
  | inr h ↦ rw h (sym (or-nothing n.expanded))
]

visits-enters :
    (prefix : Text) (paths : List (Option Text)) (n : Node)
    → (visits prefix n paths).expanded ≡ n.expanded || enters prefix n.on_current_path paths
unfolding handle_nodes handle_node
visits-enters prefix [] n = sym (or-nothing n.expanded)
visits-enters prefix (path ∷ paths) n =
    let after = run_effect n (is_on_path prefix path) in
    visits-enters prefix paths after
    ∙ (rw (run_effect-on n (is_on_path prefix path)) (
        rw (run_effect-expanded n (is_on_path prefix path)) (
          or_assoc n.expanded (not n.on_current_path && is_on_path prefix path)
            (enters prefix (is_on_path prefix path) paths))))

-- A folder that it starts on is entered there.
or-enters :
    (prefix : Text) (paths : List (Option Text)) (inside : Bool)
    → (inside || enters prefix inside paths) ≡ inside || on_any prefix paths
or-enters prefix paths true = refl
or-enters prefix [] false = refl
or-enters prefix (path ∷ paths) false = or-enters prefix paths (is_on_path prefix path)

-- Of a folder of the tree that stands for any history of browsing and of clicks on its button:
-- browsing on, it is expanded if it was before, or if the path comes onto it from outside. A folder
-- whose button is never clicked is expanded exactly if it has been on the path.
pub visits-expanded :
    (prefix : Text) (current : Option Text) (events : List NodeEvent) (paths : List (Option Text))
    → let start = new_node prefix current in
      let n = handle_nodes prefix start events in
      ((visits prefix n paths).expanded ≡ n.expanded || enters prefix n.on_current_path paths)
      × ((visits prefix start paths).expanded ≡ on_any prefix (current ∷ paths))
unfolding new_node
visits-expanded prefix current events paths =
    let start = new_node prefix current in
    (
      visits-enters prefix paths (handle_nodes prefix start events),
      visits-enters prefix paths start ∙ or-enters prefix paths (is_on_path prefix current),
    )
