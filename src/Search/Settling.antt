-- ===== src/Search/Settling.antt =====
-- What the search box looks for, and what it is asked to search.
use file_indexer.Prelude.{
  ◌≡◌, refl, ap, ◌≢◌, inl, inr, Option, none, some, List, [], ◌∷◌, All, All-append, Text, codes,
  ◌===◌, Bool-cases, ===_iff,
}
use file_indexer.Js.Space.{trim}
use file_indexer.Js.Space.Twice.{trim_again}
use file_indexer.Search.{
  Asked, select, select_folder, search, Box, new_box, Event, change, focus, blur, key_down,
  pick_file, pick_folder, timeout, set_input, handle_select, on_enter, on_timeout, handle_key,
  handle_box, handle_boxes,
}

abbrev Waiting : Text → Text → Option Text → Type 0
Waiting input query none = query ≡ trim input
Waiting input query (some t) = t ≡ input

-- A search is for a text that is not empty and has no space at its ends.
abbrev pub IsProper : Asked → Type 0
IsProper (search q) = (q ≢ []) × (trim q ≡ q)
IsProper _ = Unit

record IsSound (b : Box) : Type 0 where
  waiting : Waiting b.input b.query b.timer
  proper : All IsProper b.asked

set_input-IsSound : (b : Box) (input : Text) → IsSound b → IsSound (set_input b input)
unfolding set_input
set_input-IsSound b input s = elim (Bool-cases (b.input === input)) [
  | inl same ↦ rw same s
  | inr other ↦ rw other (record { waiting = refl; proper = s.proper })
]

empty-Waiting :
    (input query : Text)
    → input ≡ []
    → (o : Option Text) → Waiting input query o
    → Waiting input [] o
unfolding trim
empty-Waiting input query e none w = rw e refl
empty-Waiting input query e (some t) w = w

handle_select-IsSound : (b : Box) (a : Asked) → IsProper a → IsSound b → IsSound (handle_select b a)
unfolding handle_select set_input trim
handle_select-IsSound b a p s = elim (Bool-cases (b.input === [])) [
  | inl same ↦
      let e : b.input ≡ [] = (===_iff b.input []).0 same in
      rw same (record {
        waiting = empty-Waiting b.input b.query e b.timer s.waiting;
        proper = All-append IsProper b.asked (a ∷ []) s.proper (p, tt);
      })
  | inr other ↦
      rw other
        (record { waiting = refl; proper = All-append IsProper b.asked (a ∷ []) s.proper (p, tt) })
]

on_enter-IsSound : (b : Box) (q : Text) → trim q ≡ q → IsSound b → IsSound (on_enter b q)
on_enter-IsSound b [] h s = s
on_enter-IsSound b (c ∷ q) h s = record {
  waiting = s.waiting;
  proper = All-append IsProper b.asked (search (c ∷ q) ∷ []) s.proper (((λ e. cc), h), tt);
}

handle_key-IsSound : (b : Box) (key : Text) → IsSound b → IsSound (handle_key b key)
unfolding handle_key
handle_key-IsSound b key s = elim (Bool-cases (key === codes "Escape")) [
  | inl escape ↦ rw escape (record { waiting = s.waiting; proper = s.proper })
  | inr other ↦ rw other (elim (Bool-cases (key === codes "Enter")) [
    | inl enter ↦ rw enter (on_enter-IsSound b (trim b.input) (trim_again b.input) s)
    | inr neither ↦ rw neither s
  ])
]

on_timeout-IsSound :
    (b : Box) (o : Option Text) → Waiting b.input b.query o → IsSound b → IsSound (on_timeout b o)
on_timeout-IsSound b none w s = s
on_timeout-IsSound b (some t) w s = record { waiting = ap trim w; proper = s.proper }

handle_box-IsSound : (b : Box) (e : Event) → IsSound b → IsSound (handle_box b e)
unfolding handle_box
handle_box-IsSound b (change input) s =
    let after = set_input-IsSound b input s in
    record { waiting = after.waiting; proper = after.proper }
handle_box-IsSound b focus s = record { waiting = s.waiting; proper = s.proper }
handle_box-IsSound b blur s = record { waiting = s.waiting; proper = s.proper }
handle_box-IsSound b (key_down key) s = handle_key-IsSound b key s
handle_box-IsSound b (pick_file id) s = handle_select-IsSound b (select id) tt s
handle_box-IsSound b (pick_folder path) s = handle_select-IsSound b (select_folder path) tt s
handle_box-IsSound b timeout s = on_timeout-IsSound b b.timer s.waiting s

handle_boxes-IsSound : (events : List Event) (b : Box) → IsSound b → IsSound (handle_boxes b events)
unfolding handle_boxes
handle_boxes-IsSound [] b s = s
handle_boxes-IsSound (e ∷ events) b s =
    handle_boxes-IsSound events (handle_box b e) (handle_box-IsSound b e s)

new_box-IsSound : IsSound new_box
new_box-IsSound = record { waiting = refl; proper = tt }

-- What is said of the box after the timer went off.
abbrev pub IsSettled : Box → Box → Type 0
IsSettled before after =
    (after.query ≡ trim before.input)
    × (after.input ≡ before.input)
    × (after.timer ≡ none)
    × (handle_box after timeout ≡ after)

on_timeout-IsSettled :
    (b : Box) (o : Option Text)
    → b.timer ≡ o
    → Waiting b.input b.query o
    → IsSettled b (on_timeout b o)
unfolding handle_box
on_timeout-IsSettled b none h w = (w, refl, h, rw h refl)
on_timeout-IsSettled b (some t) h w = (ap trim w, refl, refl, refl)

-- Whatever was typed, pressed and picked, when the running timer goes off next, the box looks for the
-- trimmed text that it shows, no timer runs any more and another timeout would change nothing.
pub handle_boxes-settles :
    (events : List Event)
    → let b = handle_boxes new_box events in IsSettled b (handle_box b timeout)
unfolding handle_box
handle_boxes-settles events =
    let b = handle_boxes new_box events in
    on_timeout-IsSettled b b.timer refl
      (handle_boxes-IsSound events new_box new_box-IsSound).waiting

-- Whatever was typed, pressed and picked, each search that was asked for is for a text that is not
-- empty and has no space at its ends.
pub handle_boxes-IsProper : (events : List Event) → All IsProper (handle_boxes new_box events).asked
handle_boxes-IsProper events = (handle_boxes-IsSound events new_box new_box-IsSound).proper
