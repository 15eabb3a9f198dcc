-- ===== src/Tree/Visible.antt =====
-- The browsed folder in a tree that was just mounted.
use file_indexer.Prelude.{
  ◌≡◌, refl, sym, ap, ◌∙◌, subst, ℕ, suc, ◌+◌, ◌≤◌, arith, Bool, true, some, List, [], ◌∷◌, ◌++◌,
  append_assoc, append-nil, Text, length, starts_with, starts_with-append, ===_refl,
}
use file_indexer.Tree.{is_on_path, is_current, new_node}
use file_indexer.Tree.Rows.{Level, folder_row, tree_rows}
use file_indexer.Tree.Reached.{Has, Lists, Reached, at_root, below, tree_rows-Reached}

-- The states of the folders of a tree that is mounted while `current` is browsed.
abbrev pub at_first : Text → Text → Bool
at_first current dir = (new_node dir (some current)).expanded

module _ (children : Text → Level) (current : Text) where
  -- Folders that lead down from a folder to the browsed one: each is in the listing of the one before,
  -- whose key it begins with.
  abbrev pub Trail : Text → List Text → Type 0
  Trail path [] = path ≡ current
  Trail path (dir ∷ dirs) =
      Lists children (at_first current) path dir
      × ((name : Text) × (dir ≡ path ++ name))
      × Trail dir dirs

  Trail-prefix :
      (path : Text) (dirs : List Text) → Trail path dirs → (rest : Text) × (current ≡ path ++ rest)
  Trail-prefix path [] e = ([], sym e ∙ sym (append-nil path))
  Trail-prefix path (dir ∷ dirs) (listed, (name, e), t) =
      let (rest, whole) = Trail-prefix dir dirs t in
      (name ++ rest, whole ∙ ap (λ d. d ++ rest) e ∙ append_assoc path name rest)

  Trail-expanded : (path : Text) (dirs : List Text) → Trail path dirs → at_first current path ≡ true
  unfolding new_node is_on_path
  Trail-expanded path dirs t =
      let (rest, whole) = Trail-prefix path dirs t in
      ap (λ c. starts_with c path) whole ∙ starts_with-append path rest

  Trail-Reached :
      (path : Text) (depth : ℕ) (dirs : List Text)
      → Reached children (at_first current) path depth
      → Trail path dirs
      → Reached children (at_first current) current (depth + length dirs)
  Trail-Reached path depth [] r e =
      subst (λ k. Reached children (at_first current) current k) (omega arith)
        (subst (λ p. Reached children (at_first current) p depth) e r)
  Trail-Reached path depth (dir ∷ dirs) r (listed, own, t) =
      subst (λ k. Reached children (at_first current) current k) (omega arith)
        (Trail-Reached dir (suc depth) dirs
          (below r (Trail-expanded path (dir ∷ dirs) (listed, own, t)) listed) t)

  -- A tree that is mounted while a folder is browsed, to which loaded listings lead from the root down,
  -- shows that folder at its depth, expanded and marked as the current one.
  pub tree_rows-current :
      (first : Text) (dirs : List Text) (fuel : ℕ)
      → Trail [] (first ∷ dirs)
      → length (first ∷ dirs) ≤ fuel
      → Has
          (folder_row current (length (first ∷ dirs)) true true)
          (tree_rows children (at_first current) (some current) fuel)
  unfolding is_current
  tree_rows-current first dirs fuel (listed, own, t) enough =
      let depth = length (first ∷ dirs) in
      let r : Reached children (at_first current) current depth =
        subst (λ k. Reached children (at_first current) current k) (omega arith)
          (Trail-Reached first 1 dirs (at_root listed) t) in
      let shown =
        (tree_rows-Reached children (at_first current) (some current) fuel current depth enough).1
          r in
      let wide = Trail-expanded current [] refl in
      subst
        (λ b.
          Has (folder_row current depth b true)
            (tree_rows children (at_first current) (some current) fuel))
        wide
        (subst
          (λ b.
            Has (folder_row current depth (at_first current current) b)
              (tree_rows children (at_first current) (some current) fuel))
          (===_refl current) shown)
