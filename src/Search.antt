-- ===== src/Search.antt =====
-- The search box of web/src/components/SearchBar.tsx.
pub mod Settling
use file_indexer.Prelude.{
  ℕ, Bool, true, false, ◌&&◌, Option, none, some, List, [], ◌∷◌, ◌++◌, Text, codes, ◌===◌,
  if◌then◌else◌,
}
use mathlib.Core.List.{foldl}
use file_indexer.Js.Space.{trim}

-- What the box asks of the page around it.
pub data Asked : Type 0 where
  select : Text → Asked
  select_folder : Text → Asked
  search : Text → Asked

-- `timer` is the input that the running timer was started with, `asked` what was asked so far.
pub record Box : Type 0 where
  pub input : Text
  pub query : Text
  pub is_open : Bool
  pub timer : Option Text
  pub asked : List Asked

-- A box that was just mounted: the effect has run, and its timer with it.
abbrev pub new_box : Box
new_box = record { input = []; query = []; is_open = false; timer = some []; asked = [] }

pub data Event : Type 0 where
  change : Text → Event
  focus : Event
  blur : Event
  key_down : Text → Event
  pick_file : Text → Event
  pick_folder : Text → Event
  timeout : Event

-- `setInput`, and the effect, which runs again when the input has changed: it clears the timer and
-- starts another.
unfoldable pub set_input : Box → Text → Box
set_input b input = if b.input === input then b else record b { input = input; timer = some input }

abbrev pub ask : Box → Asked → Box
ask b a = record b { asked = b.asked ++ a ∷ [] }

-- `setInput('')`, `setQuery('')` and `setOpen(false)`, behind what is asked
unfoldable pub handle_select : Box → Asked → Box
unfolding set_input
handle_select b a = record (set_input (ask b a) []) { query = []; is_open = false }

-- `onSearch(trimmed)` unless it is empty
abbrev pub on_enter : Box → Text → Box
on_enter b [] = b
on_enter b (c ∷ s) = record (ask b (search (c ∷ s))) { is_open = false }

abbrev pub on_timeout : Box → Option Text → Box
on_timeout b none = b
on_timeout b (some input) = record b { query = trim input; timer = none }

unfoldable pub handle_key : Box → Text → Box
handle_key b key =
    if key === codes "Escape"
    then record b { is_open = false }
    else if key === codes "Enter"
    then on_enter b (trim b.input)
    else b

unfoldable pub handle_box : Box → Event → Box
unfolding set_input handle_select handle_key
handle_box b (change input) = record (set_input b input) { is_open = true }
handle_box b focus = record b { is_open = true }
handle_box b blur = record b { is_open = false }
handle_box b (key_down key) = handle_key b key
handle_box b (pick_file id) = handle_select b (select id)
handle_box b (pick_folder path) = handle_select b (select_folder path)
handle_box b timeout = on_timeout b b.timer

unfoldable pub handle_boxes : Box → List Event → Box
unfolding handle_box
handle_boxes b events = foldl handle_box b events

abbrev pub is_filled : Text → Bool
is_filled [] = false
is_filled (_ ∷ _) = true

-- Whether the list of matches is on show.
unfoldable pub shows_matches : Box → Bool
shows_matches b = b.is_open && is_filled b.query
