-- ===== src/Lists/Deletion/Shown.antt =====
-- Which folders are deleted.
use file_indexer.Prelude.{
  ℕ, suc, ◌+◌, ◌≤◌, ◌≡◌, refl, sym, inl, inr, Bool, true, false, ◌||◌, Option, none, some, List, [],
  ◌∷◌, ◌++◌, All, All-append, Text, length, length-append, ◌===◌, ===_iff, Bool-cases,
  if◌then◌else◌, arith, subst, or-false,
}
use file_indexer.Lists.Deletion.{
  StatsView, stats_pending, stats_error, stats, is_stats_pending, Deletion, no_deletion,
  DeletionEvent, pick_folder, stats_changed, cancel_folder, confirm_folder, folder_deleted,
  folder_failed, see, on_confirm, handle_deletion, handle_deletions,
}

-- The deletions that have ended among these events.
abbrev pub ends : List DeletionEvent → ℕ
ends [] = 0
ends (folder_deleted ∷ events) = suc (ends events)
ends (folder_failed _ ∷ events) = suc (ends events)
ends (_ ∷ events) = ends events

abbrev in_flight : Bool → ℕ
in_flight true = 1
in_flight false = 0

-- `Seen path`: the contents of this folder were loaded, or failed to load.
module _ (Seen : Text → Type 0) where
  abbrev pub Tells : Text → StatsView → Type 0
  Tells path stats_pending = Unit
  Tells path _ = Seen path

  abbrev pub Shows : DeletionEvent → Type 0
  Shows (pick_folder path view) = Tells path view
  Shows (stats_changed path view) = Tells path view
  Shows _ = Unit

  abbrev Picked : Option Text → StatsView → Type 0
  Picked none view = Unit
  Picked (some path) view = Tells path view

  abbrev IsSound : ℕ → Deletion → Type 0
  IsSound ended d =
      Picked d.folder_to_delete d.view
      × All Seen d.calls
      × (length d.calls ≤ ended + in_flight d.deleting)

  see-IsSound :
      (ended : ℕ) (d : Deletion) (o : Option Text) (path : Text) (view : StatsView)
      → d.folder_to_delete ≡ o
      → Tells path view
      → IsSound ended d
      → IsSound ended (see d o path view)
  see-IsSound ended d none path view e t s = s
  see-IsSound ended d (some p) path view e t s = elim (Bool-cases (p === path)) [
    | inl same ↦
        let q : p ≡ path = (===_iff p path).0 same in
        rw same (subst (λ o. Picked o view) (sym e) (subst (λ x. Tells x view) (sym q) t), s.1, s.2)
    | inr other ↦ rw other s
  ]

  settled-Seen :
      (path : Text) (view : StatsView) → is_stats_pending view ≡ false → Tells path view → Seen path
  unfolding is_stats_pending
  settled-Seen path stats_pending h t = cc
  settled-Seen path (stats_error _) h t = t
  settled-Seen path (stats _ _) h t = t

  confirmed-IsSound :
      (ended : ℕ) (d : Deletion) (p : Text) (blocked : Bool)
      → (is_stats_pending d.view || d.deleting) ≡ blocked
      → Tells p d.view
      → IsSound ended d
      → IsSound ended (
          if blocked
          then d
          else record d { deleting = true; delete_error = none; calls = d.calls ++ p ∷ [] })
  confirmed-IsSound ended d p true e told s = s
  confirmed-IsSound ended d p false e told s =
      let (settled, idle) = or-false (is_stats_pending d.view) d.deleting e in
      let count : length d.calls ≤ ended + 0 =
        subst (λ b. length d.calls ≤ ended + in_flight b) idle (s.2) in
      (
        s.0,
        All-append Seen d.calls (p ∷ []) (s.1) (settled-Seen p d.view settled told, tt),
        omega (arith, length-append d.calls (p ∷ [])),
      )

  on_confirm-IsSound :
      (ended : ℕ) (d : Deletion) (o : Option Text)
      → d.folder_to_delete ≡ o
      → IsSound ended d
      → IsSound ended (on_confirm d o)
  on_confirm-IsSound ended d none e s = s
  on_confirm-IsSound ended d (some p) e s =
      confirmed-IsSound ended d p (is_stats_pending d.view || d.deleting) refl
        (subst (λ o. Picked o d.view) e (s.0)) s

  at_most-one : (b : Bool) (n ended : ℕ) → n ≤ ended + in_flight b → n ≤ suc ended + 0
  at_most-one true n ended h = omega arith
  at_most-one false n ended h = omega arith

  under : (b : Bool) (n ended : ℕ) → n ≤ (0 + ended) + in_flight b → n ≤ suc ended
  under true n ended h = omega arith
  under false n ended h = omega arith

  -- The deletions that have ended, after one more event.
  abbrev ended_by : ℕ → DeletionEvent → ℕ
  ended_by ended folder_deleted = suc ended
  ended_by ended (folder_failed _) = suc ended
  ended_by ended _ = ended

  handle_deletion-IsSound :
      (ended : ℕ) (d : Deletion) (e : DeletionEvent)
      → Shows e
      → IsSound ended d
      → IsSound (ended_by ended e) (handle_deletion d e)
  unfolding handle_deletion
  handle_deletion-IsSound ended d (pick_folder path view) t s = (t, s.1, s.2)
  handle_deletion-IsSound ended d (stats_changed path view) t s =
      see-IsSound ended d d.folder_to_delete path view refl t s
  handle_deletion-IsSound ended d cancel_folder t s = (tt, s.1, s.2)
  handle_deletion-IsSound ended d confirm_folder t s =
      on_confirm-IsSound ended d d.folder_to_delete refl s
  handle_deletion-IsSound ended d folder_deleted t s =
      (tt, s.1, at_most-one d.deleting (length d.calls) ended (s.2))
  handle_deletion-IsSound ended d (folder_failed error) t s =
      (s.0, s.1, at_most-one d.deleting (length d.calls) ended (s.2))

  ended_by-ends :
      (ended : ℕ) (e : DeletionEvent) (events : List DeletionEvent)
      → ended_by ended e + ends events ≡ ended + ends (e ∷ events)
  ended_by-ends ended (pick_folder _ _) events = refl
  ended_by-ends ended (stats_changed _ _) events = refl
  ended_by-ends ended cancel_folder events = refl
  ended_by-ends ended confirm_folder events = refl
  ended_by-ends ended folder_deleted events = omega arith
  ended_by-ends ended (folder_failed _) events = omega arith

  handle_deletions-IsSound :
      (events : List DeletionEvent) (ended : ℕ) (d : Deletion)
      → All Shows events
      → IsSound ended d
      → IsSound (ended + ends events) (handle_deletions d events)
  unfolding handle_deletions
  handle_deletions-IsSound [] ended d t s =
      let e : ended ≡ ended + 0 = omega arith in subst (λ n. IsSound n d) e s
  handle_deletions-IsSound (e ∷ events) ended d (first, t) s =
      subst (λ n. IsSound n (handle_deletions (handle_deletion d e) events))
        (ended_by-ends ended e events)
        (handle_deletions-IsSound events (ended_by ended e) (handle_deletion d e) t
          (handle_deletion-IsSound ended d e first s))

  -- Whatever is picked, shown and confirmed, and whenever the service answers: a folder is deleted only
  -- if its contents had been loaded, or had failed to load, and at most one more deletion was started
  -- than have ended.
  pub handle_deletions-Seen :
      (events : List DeletionEvent)
      → All Shows events
      → All Seen (handle_deletions no_deletion events).calls
        × (length (handle_deletions no_deletion events).calls ≤ suc (ends events))
  handle_deletions-Seen events t =
      let s = handle_deletions-IsSound events 0 no_deletion t (tt, tt, omega arith) in
      (s.1, under (handle_deletions no_deletion events).deleting _ _ (s.2))
