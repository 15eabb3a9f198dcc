-- ===== src/Tests/Lists.antt =====
-- Listings, the folder tree and the move dialog at concrete inputs.
use file_indexer.Prelude.{
  ◌≡◌, refl, inl, inr, true, false, ◌||◌, Option, none, some, List, [], ◌∷◌, ◌++◌, map, All, Text,
  codes, ◌===◌, arith, ℕ, suc, ◌≤◌, length, pos, starts_with,
}
use file_indexer.Js.Join.{split}
use file_indexer.Js.Decimal.{decimal}
use file_indexer.Server.Inputs.{SortFieldInput, SortOrderInput}
use file_indexer.Server.Clients.{Service, search_service, files_service, Environment}
use file_indexer.Filters.{SearchFilters}
use file_indexer.Paths.Normal.{Segments}
use file_indexer.Folders.{Crumb, crumbs, split_key, file_name, current_folder}
use file_indexer.Folders.Crumbs.{NotSlash}
use file_indexer.Folders.Moving.{MoveEvent, new_dialog, handle_moves}
use file_indexer.Folders.Moving.Destinations.{Moves, handle_moves-Moves}
use file_indexer.Tree.{pop, folder_name, NodeEvent, toggle, browse, new_node, handle_nodes}
use file_indexer.Tree.Expanding.{visits, on_any, enters, visits-expanded}
use file_indexer.Format.{Unit1024, unit_text, fixed_text, format_bytes}
use file_indexer.Format.Bytes.{unit_size, Below, IsNearest, format_bytes-IsNearest}
use file_indexer.Lists.{basename, dir_name}
use file_indexer.Lists.Folders.{dir_name-folder_name}
use file_indexer.Lists.Deletion.{
  DeletionEvent, stats_pending, stats, pick_folder, stats_changed, confirm_folder, folder_deleted,
  no_deletion, handle_deletions,
}
use file_indexer.Lists.Deletion.Shown.{ends, handle_deletions-Seen}

abbrev docs : Text
docs = codes "docs/"

docs_is_folder : Segments false docs
docs_is_folder =
    inr (omega arith, inr (omega arith, inr (omega arith, inr (omega arith, inl (refl, refl, tt)))))

-- A folder that was collapsed by hand stays collapsed where the path goes on inside it.
abbrev collapsed : List NodeEvent
collapsed = browse (some docs) ∷ toggle ∷ []

abbrev deeper : List (Option Text)
deeper = some (codes "docs/work/") ∷ []

still_collapsed :
    (visits docs (handle_nodes docs (new_node docs (some [])) collapsed) deeper).expanded ≡ false
unfolding handle_nodes new_node starts_with
still_collapsed = refl

visits-expanded_example :
    ((visits docs (handle_nodes docs (new_node docs (some [])) collapsed) deeper).expanded
      ≡ (handle_nodes docs (new_node docs (some [])) collapsed).expanded
        || enters docs
            (handle_nodes docs (new_node docs (some [])) collapsed).on_current_path
            deeper)
    × ((visits docs (new_node docs (some [])) deeper).expanded ≡ on_any docs (some [] ∷ deeper))
visits-expanded_example = visits-expanded docs (some []) collapsed deeper

abbrev a_cat : Text
a_cat = codes "a/cat.jpg"

abbrev moves : List MoveEvent
moves =
    MoveEvent.move_here false
    ∷ MoveEvent.go_home
    ∷ MoveEvent.go_to_subfolder docs
    ∷ MoveEvent.move_here true
    ∷ MoveEvent.move_here false
    ∷ []

-- Where the file is already, and while a move is in flight, nothing is confirmed.
moved_to_docs : (handle_moves a_cat (new_dialog a_cat) moves).confirmed ≡ docs ∷ []
unfolding handle_moves new_dialog split_key ◌===◌
moved_to_docs = refl

a_is_folder : Segments false (current_folder a_cat)
unfolding split_key
a_is_folder = inr (omega arith, inl (refl, refl, tt))

handle_moves-Moves_example :
    Segments false (handle_moves a_cat (new_dialog a_cat) moves).dialog.view_path
    × All (Moves a_cat) (handle_moves a_cat (new_dialog a_cat) moves).confirmed
handle_moves-Moves_example =
    handle_moves-Moves a_cat moves a_is_folder (tt, (tt, (docs_is_folder, (tt, (tt, tt)))))

abbrev work : Text
work = codes "work"

work_is_name : All NotSlash work
work_is_name = (omega arith, (omega arith, (omega arith, (omega arith, tt))))

dir_name-folder_name_example :
    (dir_name docs (docs ++ work ++ b'/' ∷ []) ≡ work)
    × (folder_name (docs ++ work ++ b'/' ∷ []) ≡ some work)
    × (pop (map (λ (c : Crumb). c.name) (crumbs (docs ++ work ++ b'/' ∷ []))) ≡ some work)
    × (basename docs (docs ++ work) ≡ work)
    × (pop (split b'/' (docs ++ work)) ≡ some work)
    × (file_name (docs ++ work) ≡ work)
dir_name-folder_name_example = dir_name-folder_name docs work docs_is_folder work_is_name

abbrev cats : SearchFilters
cats = record {
  query = codes "cat";
  type = codes "image/";
  sort = SortFieldInput.size;
  order = SortOrderInput.desc;
}

abbrev deletions : List DeletionEvent
deletions =
    pick_folder docs stats_pending
    ∷ confirm_folder
    ∷ stats_changed docs (stats (pos 2) (pos 40))
    ∷ confirm_folder
    ∷ confirm_folder
    ∷ folder_deleted
    ∷ []

-- The first click comes too early, and the third while the deletion is in flight.
docs_deleted : (handle_deletions no_deletion deletions).calls ≡ docs ∷ []
unfolding handle_deletions ◌===◌
docs_deleted = refl

abbrev SeenDocs : Text → Type 0
SeenDocs path = path ≡ docs

handle_deletions-Seen_example :
    All SeenDocs (handle_deletions no_deletion deletions).calls
    × (length (handle_deletions no_deletion deletions).calls ≤ suc (ends deletions))
handle_deletions-Seen_example =
    handle_deletions-Seen SeenDocs deletions (tt, (tt, (refl, (tt, (tt, (tt, tt))))))

-- Just below a megabyte, the rounding reaches 1024 KB.
almost_a_megabyte : format_bytes (pos 1048575) ≡ codes "1024.0 KB"
unfolding format_bytes decimal unit_text
almost_a_megabyte = refl

format_bytes-IsNearest_example :
    (u : Unit1024) × (m : ℕ) × (format_bytes (pos 1048575) ≡ fixed_text m ++ (b' ' ∷ unit_text u))
    × (unit_size u ≤ 1048575)
    × Below 1048575 u
    × IsNearest 1048575 u m
format_bytes-IsNearest_example = format_bytes-IsNearest 1048575 (omega arith)

abbrev connect : Service → Text → Text
connect service url = url

abbrev env : Environment
env = record { search_addr = none; files_addr = some (codes "files:1") }

abbrev asked : List Service
asked = files_service ∷ search_service ∷ files_service ∷ []
