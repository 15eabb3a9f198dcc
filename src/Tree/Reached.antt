-- ===== src/Tree/Reached.antt =====
-- Which folders the tree shows.
use file_indexer.Prelude.{
  ◌≡◌, refl, sym, ap, subst, ◌⊎◌, inl, inr, ◌↔◌, ℕ, zero, suc, ◌+◌, ◌≤◌, ◌<◌, arith, Bool, true,
  false, Option, List, [], ◌∷◌, ◌++◌, flat_map, Text, Bool-cases, if◌then◌else◌,
}
use file_indexer.Tree.{is_current}
use file_indexer.Tree.Rows.{
  Level, level_pending, level_error, level_loaded, TreeRow, folder_row, node_rows, level_view,
  level_rows, tree_rows,
}

module _ {A : Type 0} where
  abbrev pub Has : A → List A → Type 0
  Has x [] = ⊥
  Has x (y ∷ ys) = (x ≡ y) ⊎ Has x ys

  Has-append_left : (x : A) (xs ys : List A) → Has x xs → Has x (xs ++ ys)
  Has-append_left x (y ∷ xs) ys (inl e) = inl e
  Has-append_left x (y ∷ xs) ys (inr h) = inr (Has-append_left x xs ys h)
  Has-append_left x [] ys h = absurd h

  Has-append_right : (x : A) (xs ys : List A) → Has x ys → Has x (xs ++ ys)
  Has-append_right x [] ys h = h
  Has-append_right x (y ∷ xs) ys h = inr (Has-append_right x xs ys h)

  Has-append_cases : (x : A) (xs ys : List A) → Has x (xs ++ ys) → Has x xs ⊎ Has x ys
  Has-append_cases x [] ys h = inr h
  Has-append_cases x (y ∷ xs) ys (inl e) = inl (inl e)
  Has-append_cases x (y ∷ xs) ys (inr h) = elim (Has-append_cases x xs ys h) [
    | inl l ↦ inl (inr l)
    | inr r ↦ inr r
  ]

module _ {A B : Type 0} where
  Has-flat_map :
      (f : B → List A) (x : A) (b : B) (bs : List B)
      → Has b bs
      → Has x (f b)
      → Has x (flat_map f bs)
  Has-flat_map f x b [] h g = absurd h
  Has-flat_map f x b (c ∷ bs) (inl e) g =
      Has-append_left x (f c) (flat_map f bs) (subst (λ d. Has x (f d)) e g)
  Has-flat_map f x b (c ∷ bs) (inr h) g =
      Has-append_right x (f c) (flat_map f bs) (Has-flat_map f x b bs h g)

  Has-flat_map_cases :
      (f : B → List A) (x : A) (bs : List B)
      → Has x (flat_map f bs)
      → (b : B) × Has b bs × Has x (f b)
  Has-flat_map_cases f x [] h = absurd h
  Has-flat_map_cases f x (b ∷ bs) h = elim (Has-append_cases x (f b) (flat_map f bs) h) [
    | inl here ↦ (b, inl refl, here)
    | inr there ↦ let (c, m, g) = Has-flat_map_cases f x bs there in (c, inr m, g)
  ]

module _ (children : Text → Level) (expanded : Text → Bool) where
  -- The level of the folder has been loaded, and has the other folder.
  abbrev pub Lists : Text → Text → Type 0
  Lists path dir = (dirs : List Text) × (children path ≡ level_loaded dirs) × Has dir dirs

  -- A folder of the root, or of a folder that is reached and expanded, with its depth.
  pub data Reached : Text → ℕ → Type 0 where
    at_root : {dir : Text} → Lists [] dir → Reached dir 1
    below :
        {path dir : Text} {depth : ℕ}
        → Reached path depth
        → expanded path ≡ true
        → Lists path dir
        → Reached dir (suc depth)

  module _ (current : Option Text) where
    -- The row of a folder at a depth.
    abbrev pub row_of : Text → ℕ → TreeRow
    row_of dir depth = folder_row dir depth (expanded dir) (is_current dir current)

    level_rows-first :
        (fuel : ℕ) (path dir : Text) (depth : ℕ)
        → Lists path dir
        → Has (row_of dir depth) (level_rows children expanded current (suc fuel) path depth)
    unfolding level_rows
    level_rows-first fuel path dir depth (dirs, loaded, has) =
        let node = λ (d : Text).
          node_rows children expanded current depth
            (level_rows children expanded current fuel d (suc depth)) d in
        subst (λ l. Has (row_of dir depth) (level_view children expanded current l depth node))
          (sym loaded) (Has-flat_map node (row_of dir depth) dir dirs has (inl refl))

    level_rows-fuelled :
        (fuel : ℕ) (path dir : Text) (depth : ℕ)
        → 1 ≤ fuel
        → Lists path dir
        → Has (row_of dir depth) (level_rows children expanded current fuel path depth)
    level_rows-fuelled zero path dir depth enough listed = absurd (omega arith)
    level_rows-fuelled (suc fuel) path dir depth enough listed =
        level_rows-first fuel path dir depth listed

    abbrev dir_of : TreeRow → Text
    dir_of (folder_row dir depth e c) = dir
    dir_of _ = []

    abbrev depth_of : TreeRow → ℕ
    depth_of (folder_row dir depth e c) = depth
    depth_of _ = 0

    abbrev is_folder : TreeRow → Bool
    is_folder (folder_row dir depth e c) = true
    is_folder _ = false

    -- A row of a folder in a level is in the part of one of the level's folders.
    level_view-part :
        (l : Level) (depth : ℕ) (node : Text → List TreeRow) (dir : Text) (m : ℕ)
        → Has (row_of dir m) (level_view children expanded current l depth node)
        → (dirs : List Text) × (e : Text) × (l ≡ level_loaded dirs)
          × Has e dirs
          × Has (row_of dir m) (node e)
    level_view-part level_pending depth node dir m (inl e) = absurd (let t = ap is_folder e in cc)
    level_view-part level_pending depth node dir m (inr h) = absurd h
    level_view-part level_error depth node dir m (inl e) = absurd (let t = ap is_folder e in cc)
    level_view-part level_error depth node dir m (inr h) = absurd h
    level_view-part (level_loaded dirs) depth node dir m h =
        let (e, has, there) = Has-flat_map_cases node (row_of dir m) dirs h in
        (dirs, e, refl, has, there)

    -- A row of a folder's part is its own, or in the level below, where it is expanded.
    node_rows-part :
        (depth : ℕ) (rows : List TreeRow) (e dir : Text) (m : ℕ)
        → Has (row_of dir m) (node_rows children expanded current depth rows e)
        → ((dir ≡ e) × (m ≡ depth)) ⊎ ((expanded e ≡ true) × Has (row_of dir m) rows)
    node_rows-part depth rows e dir m (inl same) = inl (ap dir_of same, ap depth_of same)
    node_rows-part depth rows e dir m (inr h) = elim (Bool-cases (expanded e)) [
      | inl wide ↦ inr (wide, subst (λ b. Has (row_of dir m) (if b then rows else [])) wide h)
      | inr shut ↦ absurd (subst (λ b. Has (row_of dir m) (if b then rows else [])) shut h)
    ]

    node_rows-below :
        (depth : ℕ) (rows : List TreeRow) (e : Text) (r : TreeRow)
        → expanded e ≡ true
        → Has r rows
        → Has r (node_rows children expanded current depth rows e)
    node_rows-below depth rows e r wide h =
        inr (subst (λ b. Has r (if b then rows else [])) (sym wide) h)

    -- With a folder that is expanded its subfolders are shown, while there is fuel.
    level_rows-below :
        (fuel : ℕ) (path : Text) (depth : ℕ) (dir sub : Text) (m : ℕ)
        → expanded dir ≡ true
        → Lists dir sub
        → suc m < depth + fuel
        → Has (row_of dir m) (level_rows children expanded current fuel path depth)
        → Has (row_of sub (suc m)) (level_rows children expanded current fuel path depth)
    unfolding level_rows
    level_rows-below zero path depth dir sub m wide listed enough h = absurd h
    level_rows-below (suc fuel) path depth dir sub m wide listed enough h =
        let rows_under = λ (e : Text). level_rows children expanded current fuel e (suc depth) in
        let node = λ (e : Text). node_rows children expanded current depth (rows_under e) e in
        let (dirs, e, loaded, has, part) = level_view-part (children path) depth node dir m h in
        let deeper : Has (row_of sub (suc m)) (node e) =
          elim (node_rows-part depth (rows_under e) e dir m part) [
            | inl (same, level) ↦
                node_rows-below depth (rows_under e) e (row_of sub (suc m))
                  (subst (λ x. expanded x ≡ true) same wide)
                  (subst (λ k. Has (row_of sub (suc k)) (rows_under e)) (sym level)
                    (level_rows-fuelled fuel e sub (suc depth) (omega arith)
                      (subst (λ x. Lists x sub) same listed)))
            | inr (open_one, there) ↦
                node_rows-below depth (rows_under e) e (row_of sub (suc m)) open_one
                  (level_rows-below fuel e (suc depth) dir sub m wide listed (omega arith) there)
          ] in
        subst (λ l. Has (row_of sub (suc m)) (level_view children expanded current l depth node))
          (sym loaded) (Has-flat_map node (row_of sub (suc m)) e dirs has deeper)

    Reached-shown :
        (fuel : ℕ) {dir : Text} {depth : ℕ}
        → Reached dir depth
        → depth ≤ fuel
        → Has (row_of dir depth) (level_rows children expanded current fuel [] 1)
    Reached-shown fuel (at_root {dir} listed) enough =
        level_rows-fuelled fuel [] dir 1 enough listed
    Reached-shown fuel (below {path} {dir} {depth} r wide listed) enough =
        level_rows-below fuel [] 1 path dir depth wide listed (omega arith)
          (Reached-shown fuel r (omega arith))

    shown-Reached :
        (fuel : ℕ) (path : Text) (depth : ℕ) (dir : Text) (m : ℕ)
        → ((e : Text) → Lists path e → Reached e depth)
        → Has (row_of dir m) (level_rows children expanded current fuel path depth)
        → Reached dir m
    unfolding level_rows
    shown-Reached zero path depth dir m up h = absurd h
    shown-Reached (suc fuel) path depth dir m up h =
        let rows_under = λ (e : Text). level_rows children expanded current fuel e (suc depth) in
        let node = λ (e : Text). node_rows children expanded current depth (rows_under e) e in
        let (dirs, e, loaded, has, part) = level_view-part (children path) depth node dir m h in
        let here = up e (dirs, loaded, has) in
        elim (node_rows-part depth (rows_under e) e dir m part) [
          | inl (same, level) ↦
              subst (λ x. Reached x m) (sym same) (subst (λ k. Reached e k) (sym level) here)
          | inr (wide, there) ↦
              shown-Reached fuel e (suc depth) dir m (λ sub listed. below here wide listed) there
        ]

    -- Down to the depth of the fuel, the tree has a row for a folder at a depth exactly if the folder is
    -- in the listing of the root or of a folder one level up that is shown and expanded, where the
    -- listing has been loaded. The row says whether the folder is expanded and whether it is the
    -- current one.
    pub tree_rows-Reached :
        (fuel : ℕ) (dir : Text) (depth : ℕ)
        → depth ≤ fuel
        → Has (row_of dir depth) (tree_rows children expanded current fuel) ↔ Reached dir depth
    unfolding tree_rows
    tree_rows-Reached fuel dir depth enough = (
      shown-Reached fuel [] 1 dir depth (λ e listed. at_root listed),
      λ r. Reached-shown fuel r enough,
    )
