-- ===== src/Folders/Moving/Destinations.antt =====
-- Where the move dialog lets a file be moved to.
use file_indexer.Prelude.{
  ℕ, zero, suc, ◌≡◌, ◌≢◌, refl, sym, ap, inl, inr, Bool, true, false, List, [], ◌∷◌, ◌++◌, subst,
  All, All-append, Text, ◌===◌, ===_iff, Bool-cases,
}
use file_indexer.Js.Join.{cons_to_first, split}
use file_indexer.Paths.Normal.{Segments, slash-cases}
use file_indexer.Folders.{Crumb, drop_end_slash, split_key, file_name, current_folder}
use file_indexer.Folders.Crumbs.{NotSlash, split_key-parts}
use file_indexer.Folders.Dialog.{
  Dialog, navigate_to, handle_new_folder_submit, Submitted, handle_new_folder_submit-cases,
}
use file_indexer.Folders.Targets.{Named, ToFolder, crumbs_from-All}
use file_indexer.Folders.Moving.{
  MoveDialog, new_dialog, filter_filled, path_bar, MoveEvent, go_home, go_to_segment,
  go_to_subfolder, add_folder, cancel_add, submit, type_name, move_here, go_to, destination_key,
  confirm, handle_move, handle_moves,
}

cons_to_first-All :
    (c : ℕ) (parts : List Text)
    → c ≢ b'/'
    → All (All NotSlash) parts
    → All (All NotSlash) (cons_to_first c parts)
cons_to_first-All c [] other h = ((other, tt), tt)
cons_to_first-All c (part ∷ parts) other (first, h) = ((other, first), h)

split-All : (s : Text) → All (All NotSlash) (split b'/' s)
unfolding split
split-All [] = (tt, tt)
split-All (c ∷ s) = elim (slash-cases c) [
  | inl (_, here) ↦ rw here (tt, split-All s)
  | inr (other, e) ↦ rw e (cons_to_first-All c (split b'/' s) other (split-All s))
]

filter_filled-All : (parts : List Text) → All (All NotSlash) parts → All Named (filter_filled parts)
unfolding filter_filled
filter_filled-All [] h = tt
filter_filled-All ([] ∷ parts) (_, h) = filter_filled-All parts h
filter_filled-All ((c ∷ s) ∷ parts) (first, h) = (((λ e. cc), first), filter_filled-All parts h)

-- The path bar leads to folders, whatever path is shown.
path_bar-All : (view_path : Text) → All ToFolder (path_bar view_path)
unfolding path_bar
path_bar-All view_path =
    let parts = split b'/' (drop_end_slash view_path) in
    crumbs_from-All [] (filter_filled parts) tt
      (filter_filled-All parts (split-All (drop_end_slash view_path)))

go_to-Segments :
    (d : Dialog) (cs : List Crumb) (index : ℕ)
    → All ToFolder cs
    → Segments false d.view_path
    → Segments false (go_to d cs index).view_path
unfolding go_to navigate_to
go_to-Segments d [] index k h = h
go_to-Segments d (c ∷ []) index k h = h
go_to-Segments d (c ∷ next ∷ cs) zero (first, k) h = first
go_to-Segments d (c ∷ next ∷ cs) (suc index) (first, k) h = go_to-Segments d (next ∷ cs) index k h

Submitted-Segments :
    (d after : Dialog)
    → Segments false d.view_path
    → Submitted d after
    → Segments false after.view_path
unfolding navigate_to
Submitted-Segments d after h (inl (message, e)) =
    subst (λ (x : Dialog). Segments false x.view_path) (sym e) h
Submitted-Segments d after h (inr (name, _, _, _, _, _, e, k)) =
    subst (λ (x : Dialog). Segments false x.view_path) (sym e) k

name-split_key : (name : Text) → All NotSlash name → split_key name ≡ ([], name)
unfolding split_key
name-split_key [] h = refl
name-split_key (c ∷ name) (other, h) = elim (slash-cases c) [
  | inl (here, _) ↦ absurd (other here)
  | inr (_, e) ↦ rw (name-split_key name h) (rw e refl)
]

folder-split_key :
    (inside : Bool) (c : ℕ) (s name : Text)
    → Segments inside (c ∷ s)
    → All NotSlash name
    → split_key (c ∷ s ++ name) ≡ (c ∷ s, name)
unfolding split_key
folder-split_key inside c [] name (inl (here, _, _)) h = rw here (rw (name-split_key name h) refl)
folder-split_key inside c [] name (inr (_, k)) h = elim k [ ]
folder-split_key inside c (d ∷ s) name (inl (_, _, k)) h =
    rw (folder-split_key false d s name k h) refl
folder-split_key inside c (d ∷ s) name (inr (_, k)) h = rw (folder-split_key true d s name k h) refl

-- A folder with a name behind it falls into these two again.
pub split_key-append :
    (folder name : Text)
    → Segments false folder
    → All NotSlash name
    → split_key (folder ++ name) ≡ (folder, name)
split_key-append [] name k h = name-split_key name h
split_key-append (c ∷ s) name k h = folder-split_key false c s name k h

module _ (file_key : Text) where
  -- A destination that a move really moves the file to.
  abbrev pub Moves : Text → Type 0
  Moves folder =
      Segments false folder
      × (folder ++ file_name file_key ≢ file_key)
      × (file_name (folder ++ file_name file_key) ≡ file_name file_key)
      × (current_folder (folder ++ file_name file_key) ≡ folder)

  -- A subfolder that is listed is a folder.
  abbrev pub Listed : MoveEvent → Type 0
  Listed (go_to_subfolder dir) = Segments false dir
  Listed _ = Unit

  abbrev IsSound : MoveDialog → Type 0
  IsSound m = Segments false m.dialog.view_path × All Moves m.confirmed

  Moves-Segments :
      (folder : Text)
      → Segments false folder
      → (destination_key file_key folder === file_key) ≡ false
      → Moves folder
  Moves-Segments folder h other =
      let e = split_key-append folder (file_name file_key) h ((split_key-parts file_key).1) in
      (
        h,
        (λ same. let t = (===_iff (destination_key file_key folder) file_key).1 same in cc),
        ap (λ k. k.1) e,
        ap (λ k. k.0) e,
      )

  confirm-IsSound :
      (m : MoveDialog) (moving : Bool) → IsSound m → IsSound (confirm file_key m moving)
  confirm-IsSound m true s = s
  confirm-IsSound m false (h, k) =
      elim (Bool-cases (destination_key file_key m.dialog.view_path === file_key)) [
        | inl same ↦ rw same (h, k)
        | inr other ↦ rw other (
          h,
          All-append Moves m.confirmed (m.dialog.view_path ∷ []) k
              (Moves-Segments m.dialog.view_path h other, tt),
        )
      ]

  handle_move-IsSound :
      (m : MoveDialog) (e : MoveEvent) → Listed e → IsSound m → IsSound (handle_move file_key m e)
  unfolding handle_move navigate_to
  handle_move-IsSound m go_home l (h, k) = (tt, k)
  handle_move-IsSound m (go_to_segment index) l (h, k) = (
    go_to-Segments m.dialog (path_bar m.dialog.view_path) index (path_bar-All m.dialog.view_path) h,
    k,
  )
  handle_move-IsSound m (go_to_subfolder dir) l (h, k) = (l, k)
  handle_move-IsSound m add_folder l s = s
  handle_move-IsSound m cancel_add l s = s
  handle_move-IsSound m submit l (h, k) = (
    Submitted-Segments m.dialog (handle_new_folder_submit m.dialog) h
        (handle_new_folder_submit-cases m.dialog h),
    k,
  )
  handle_move-IsSound m (type_name name) l s = s
  handle_move-IsSound m (move_here moving) l s = confirm-IsSound m moving s

  handle_moves-IsSound :
      (events : List MoveEvent) (m : MoveDialog)
      → All Listed events
      → IsSound m
      → IsSound (handle_moves file_key m events)
  unfolding handle_moves
  handle_moves-IsSound [] m l s = s
  handle_moves-IsSound (e ∷ events) m (first, l) s =
      handle_moves-IsSound events (handle_move file_key m e) l (handle_move-IsSound m e first s)

  -- In the dialog of a file that is in a folder, with listed subfolders that are folders, whatever is
  -- clicked and typed: a folder is shown, and each destination that is confirmed is a folder in which
  -- the file has another key than now, one with its own name in that folder.
  pub handle_moves-Moves :
      (events : List MoveEvent)
      → Segments false (current_folder file_key)
      → All Listed events
      → Segments false (handle_moves file_key (new_dialog file_key) events).dialog.view_path
        × All Moves (handle_moves file_key (new_dialog file_key) events).confirmed
  unfolding new_dialog
  handle_moves-Moves events h l = handle_moves-IsSound events (new_dialog file_key) l (h, tt)
