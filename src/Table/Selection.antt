-- ===== src/Table/Selection.antt =====
-- Which files the dialogs of a table delete and move.
use file_indexer.Prelude.{
  ◌≡◌, refl, Bool, true, false, if◌then◌else◌, Option, none, some, List, [], ◌∷◌, ◌++◌, All,
  All-append, Text,
}
use file_indexer.Folders.{file_name}
use file_indexer.Table.{
  and_call, Picked, Call, download, delete, move, Dialogs, no_dialogs, Event, pick_download,
  pick_move, pick_delete, confirm_delete, cancel_delete, delete_succeeded, delete_failed,
  confirm_move, cancel_move, move_succeeded, move_failed, on_confirm_delete, on_confirm_move,
  handle_dialog, handle_dialogs,
}

-- `Get id`: a file of this id may be picked for a download; `Del id`: for deletion; `Mov id key`: for a
-- move from this key.
module _ (Get : Text → Type 0) (Del : Text → Type 0) (Mov : Text → Text → Type 0) where
  abbrev pub Picks : Event → Type 0
  Picks (pick_download id) = Get id
  Picks (pick_delete f) = Del f.id
  Picks (pick_move f) = Mov f.id f.key
  Picks _ = Unit

  -- A download and a deletion are of a file that was picked for it, and a move, from a key that was picked for it to
  -- one of the same name.
  abbrev pub Allowed : Call → Type 0
  Allowed (download id) = Get id
  Allowed (delete id) = Del id
  Allowed (move id destination) =
      (key : Text) × (folder : Text) × Mov id key × (destination ≡ folder ++ file_name key)

  abbrev pub OfDelete : Option Picked → Type 0
  OfDelete none = Unit
  OfDelete (some f) = Del f.id

  abbrev pub OfMove : Option Picked → Type 0
  OfMove none = Unit
  OfMove (some f) = Mov f.id f.key

  abbrev pub IsSound : Dialogs → Type 0
  IsSound d = OfDelete d.file_to_delete × OfMove d.file_to_move × All Allowed d.calls

  with_call : (d : Dialogs) (c : Call) → Allowed c → IsSound d → IsSound (and_call d c)
  with_call d c h s = (s.0, s.1, All-append Allowed d.calls (c ∷ []) (s.2) (h, tt))

  unless-IsSound :
      (d e : Dialogs) (busy : Bool) → IsSound d → IsSound e → IsSound (if busy then d else e)
  unless-IsSound d e true s t = s
  unless-IsSound d e false s t = t

  on_confirm_delete-IsSound :
      (d : Dialogs) (o : Option Picked) → OfDelete o → IsSound d → IsSound (on_confirm_delete d o)
  on_confirm_delete-IsSound d none h s = s
  on_confirm_delete-IsSound d (some f) h s =
      unless-IsSound d (record (and_call d (delete f.id)) { deleting = true }) d.deleting s
        (with_call d (delete f.id) h s)

  on_confirm_move-IsSound :
      (d : Dialogs) (destination : Text) (o : Option Picked)
      → OfMove o
      → IsSound d
      → IsSound (on_confirm_move d destination o)
  on_confirm_move-IsSound d destination none h s = s
  on_confirm_move-IsSound d destination (some f) h s =
      let c = move f.id (destination ++ file_name f.key) in
      unless-IsSound d (record (and_call d c) { moving = true }) d.moving s
        (with_call d c (f.key, destination, h, refl) s)

  module _ (display_key : Text → Text) (keys : List (List Text)) where
    pub handle_dialog-IsSound :
        (d : Dialogs) (e : Event)
        → Picks e
        → IsSound d
        → IsSound (handle_dialog display_key keys d e)
    unfolding handle_dialog
    handle_dialog-IsSound d (pick_download id) p s = with_call d (download id) p s
    handle_dialog-IsSound d (pick_move f) p s = (s.0, p, s.2)
    handle_dialog-IsSound d (pick_delete f) p s = (p, s.1, s.2)
    handle_dialog-IsSound d confirm_delete p s =
        on_confirm_delete-IsSound d d.file_to_delete (s.0) s
    handle_dialog-IsSound d cancel_delete p s = (tt, s.1, s.2)
    handle_dialog-IsSound d delete_succeeded p s = (tt, s.1, s.2)
    handle_dialog-IsSound d delete_failed p s = s
    handle_dialog-IsSound d (confirm_move destination) p s =
        on_confirm_move-IsSound d destination d.file_to_move (s.1) s
    handle_dialog-IsSound d cancel_move p s = (s.0, tt, s.2)
    handle_dialog-IsSound d move_succeeded p s = (s.0, tt, s.2)
    handle_dialog-IsSound d (move_failed err) p s = s

    handle_dialogs-IsSound :
        (events : List Event) (d : Dialogs)
        → All Picks events
        → IsSound d
        → IsSound (handle_dialogs display_key keys d events)
    unfolding handle_dialogs
    handle_dialogs-IsSound [] d p s = s
    handle_dialogs-IsSound (e ∷ events) d (here, p) s =
        handle_dialogs-IsSound events (handle_dialog display_key keys d e) p
          (handle_dialog-IsSound d e here s)

    -- Whatever happens in a table, and in whatever order mutations end, only files that were picked for
    -- a download are downloaded, only files that were picked for deletion are deleted, and only files
    -- that were picked for a move are moved, each to a key that ends in its own name.
    pub handle_dialogs-Allowed :
        (events : List Event)
        → All Picks events
        → All Allowed (handle_dialogs display_key keys no_dialogs events).calls
    handle_dialogs-Allowed events p = (handle_dialogs-IsSound events no_dialogs p (tt, tt, tt)).2

-- A deletion that was confirmed and then left to itself closes, when it succeeds, the dialog of the
-- file that was picked after it, which is neither deleted nor any longer asked about.
pub handle_dialogs-closes_other :
    (display_key : Text → Text) (keys : List (List Text)) (f g : Picked)
    → let d =
        handle_dialogs display_key keys no_dialogs (
          pick_delete f ∷ confirm_delete ∷ cancel_delete ∷ pick_delete g ∷ delete_succeeded ∷ []) in
      (d.file_to_delete ≡ none) × (d.calls ≡ delete f.id ∷ [])
unfolding handle_dialogs
handle_dialogs-closes_other display_key keys f g = (refl, refl)
