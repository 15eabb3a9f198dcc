-- ===== src/Menus/Single.antt =====
-- No two menus of a table are open at once.
use file_indexer.Prelude.{
  ◌≡◌, refl, ap, ◌⊎◌, inl, inr, ◌≢◌, Bool, true, false, ◌&&◌, not, Option, none, some, List, [],
  ◌∷◌, Text, codes, ◌===◌, ===_iff, ===_refl, Bool-cases, if◌then◌else◌,
}
use file_indexer.Menus.{
  Menus, all_closed, flipped, any_menu_open, Event, file_button, folder_button, menu_item,
  mouse_down, key_down, handle, handle_all,
}

abbrev pub AtMostOne : Menus → Type 0
AtMostOne m = (m.open_file_menu_id ≡ none) ⊎ (m.open_folder_menu_path ≡ none)

-- Closing under a condition keeps at most one open.
close_if-AtMostOne : (b : Bool) (m : Menus) → AtMostOne m → AtMostOne (if b then all_closed else m)
close_if-AtMostOne true m h = inl refl
close_if-AtMostOne false m h = h

pub handle-AtMostOne : (m : Menus) (e : Event) → AtMostOne m → AtMostOne (handle m e)
unfolding handle
handle-AtMostOne m (file_button id) h = inr refl
handle-AtMostOne m (folder_button path) h = inl refl
handle-AtMostOne m menu_item h = inl refl
handle-AtMostOne m (mouse_down inside) h = close_if-AtMostOne (any_menu_open m && not inside) m h
handle-AtMostOne m (key_down key) h =
    close_if-AtMostOne (any_menu_open m && (key === codes "Escape")) m h

-- Whatever a table hears of, in whatever order, at most one of its menus is open.
pub handle_all-AtMostOne :
    (events : List Event) (m : Menus) → AtMostOne m → AtMostOne (handle_all m events)
unfolding handle_all
handle_all-AtMostOne [] m h = h
handle_all-AtMostOne (e ∷ events) m h =
    handle_all-AtMostOne events (handle m e) (handle-AtMostOne m e h)

flipped-cases :
    (o : Option Text) (id : Text)
    → ((o ≡ some id) × (flipped o id ≡ none)) ⊎ ((o ≢ some id) × (flipped o id ≡ some id))
flipped-cases none id = inr ((λ e. cc), refl)
flipped-cases (some current) id = elim (Bool-cases (current === id)) [
  | inl same ↦ inl (ap some ((===_iff current id).0 same), rw same)
  | inr other ↦ inr ((λ e. let t = (===_iff current id).1 (cc) in cc), rw other)
]

-- A press of a file's button closes every menu if that file's was open, and otherwise opens that one
-- alone, which a second press closes again.
pub handle_all-file_button :
    (m : Menus) (id : Text)
    → ((m.open_file_menu_id ≡ some id) × (handle_all m (file_button id ∷ []) ≡ all_closed))
      ⊎ ((m.open_file_menu_id ≢ some id)
          × (handle_all m (file_button id ∷ [])
              ≡ record { open_file_menu_id = some id; open_folder_menu_path = none })
          × (handle_all m (file_button id ∷ file_button id ∷ []) ≡ all_closed))
unfolding handle_all handle
handle_all-file_button m id = elim (flipped-cases m.open_file_menu_id id) [
  | inl (shown, closes) ↦ inl (shown, rw closes refl)
  | inr (shut, opens) ↦ inr (shut, rw opens refl, rw (opens, ===_refl id) refl)
]
