-- ===== src/Tests/Pages.antt =====
-- The pages and their dialogs at concrete inputs.
use file_indexer.Prelude.{
  ◌≡◌, ◌≢◌, refl, inl, inr, false, List, [], ◌∷◌, map, All, Text, codes, ◌===◌, arith,
}
use file_indexer.Js.Space.{trim}
use file_indexer.Paths.Normal.{Segments}
use file_indexer.Folders.{split_key, current_folder}
use file_indexer.Table.{
  Picked, Event, pick_delete, pick_move, confirm_delete, confirm_move, delete_succeeded, delete,
  move, no_dialogs, handle_dialogs,
}
use file_indexer.FilePage.{PageEvent, new_page, handle_pages}
use file_indexer.FilePage.Requests.{OfFile, Browses, handle_pages-OfFile}
use file_indexer.Search.{Asked, search, new_box, handle_boxes}
use file_indexer.Search.Settling.{IsSettled, handle_boxes-settles}
use file_indexer.Routes.{header_destination}
use file_indexer.Routes.Searching.{Finds, header_destination-handle_boxes}

abbrev cat : Picked
cat = record { id = codes "1"; key = codes "a/cat.jpg" }

abbrev dog : Picked
dog = record { id = codes "2"; key = codes "a/dog.jpg" }

abbrev same : Text → Text
same key = key

abbrev NoDownload : Text → Type 0
NoDownload _ = ⊥

-- The cat was picked for deletion, and the dog for a move.
abbrev DeleteCat : Text → Type 0
DeleteCat id = id ≡ codes "1"

abbrev MoveDog : Text → Text → Type 0
MoveDog id key = (id ≡ codes "2") × (key ≡ codes "a/dog.jpg")

abbrev clicks : List Event
clicks =
    pick_delete cat
    ∷ confirm_delete
    ∷ pick_move dog
    ∷ confirm_move (codes "b/")
    ∷ delete_succeeded
    ∷ []

cat_deleted :
    (handle_dialogs same [] no_dialogs clicks).calls
    ≡ delete (codes "1") ∷ move (codes "2") (codes "b/dog.jpg") ∷ []
unfolding handle_dialogs split_key
cat_deleted = refl

abbrev page_events : List PageEvent
page_events =
    PageEvent.press_open
    ∷ PageEvent.press_delete
    ∷ PageEvent.confirm_delete
    ∷ PageEvent.confirm_delete
    ∷ PageEvent.delete_succeeded
    ∷ PageEvent.metadata_loaded (codes "b")
    ∷ PageEvent.go_home
    ∷ []

a_is_folder : Segments false (current_folder (codes "a/cat.jpg"))
unfolding split_key
a_is_folder = inr (omega arith, inl (refl, refl, tt))

root_is_folder : Segments false (current_folder (codes "b"))
unfolding split_key
root_is_folder = tt

abbrev AnyKey : Text → Type 0
AnyKey key = key ≢ []

handle_pages-OfFile_example :
    All
      (OfFile (codes "1") AnyKey Unit ⊥)
      (handle_pages (codes "1") (new_page (codes "a/cat.jpg")) page_events).calls
    × All Browses (handle_pages (codes "1") (new_page (codes "a/cat.jpg")) page_events).navigated
handle_pages-OfFile_example =
    handle_pages-OfFile (codes "1") AnyKey Unit ⊥ (codes "a/cat.jpg") page_events a_is_folder
      (λ e. cc) (tt, (tt, (tt, (tt, (tt, ((root_is_folder, λ e. cc), (tt, tt)))))))

abbrev typed : List file_indexer.Search.Event
typed =
    file_indexer.Search.change (codes " cat")
    ∷ file_indexer.Search.timeout
    ∷ file_indexer.Search.change (codes " cat ")
    ∷ file_indexer.Search.key_down (codes "Enter")
    ∷ []

cat_searched : (handle_boxes new_box typed).asked ≡ search (codes "cat") ∷ []
unfolding handle_boxes trim ◌===◌
cat_searched = refl

handle_boxes-settles_example :
    IsSettled
      (handle_boxes new_box typed)
      (file_indexer.Search.handle_box (handle_boxes new_box typed) file_indexer.Search.timeout)
handle_boxes-settles_example = handle_boxes-settles typed

header_destination-handle_boxes_example :
    All (Finds (codes "t")) (map header_destination (handle_boxes new_box typed).asked)
header_destination-handle_boxes_example = header_destination-handle_boxes typed (codes "t")
