-- ===== src/FilePage/Requests.antt =====
-- What the page of a file asks the server for, and where it leads.
use file_indexer.Prelude.{
  ◌≡◌, refl, ℕ, zero, suc, not, ◌&&◌, Bool, true, false, List, [], ◌∷◌, ◌++◌, All, All-append, Text,
  if◌then◌else◌,
}
use file_indexer.Server.Inputs.{SortFieldInput, SortOrderInput}
use file_indexer.Paths.Normal.{Segments}
use file_indexer.Filters.{BrowseFilters, default_browse_filters, normalize_browse_filters}
use file_indexer.Filters.Laws.{browse_params, normalize_browse_filters-params}
use file_indexer.Folders.{Crumb, file_name, current_folder, crumbs}
use file_indexer.Folders.Targets.{ToFolder, crumbs-All}
use file_indexer.FilePage.{
  PageCall, get_open_url, get_download_url, delete_file, move_file, FilePage, new_page, PageEvent,
  press_open, press_download, press_move, press_delete, press_metadata, url_arrived, confirm_delete,
  cancel_delete, close_metadata, cancel_move, confirm_move, delete_succeeded, delete_failed,
  move_succeeded, move_failed, follow_crumb, go_home, metadata_loaded, and_request, browse_to,
  to_crumb, handle_page, handle_pages,
}

-- A search of the browse page that its URL carries unchanged: a folder's, in the order of the names.
abbrev pub Browses : BrowseFilters → Type 0
Browses f =
    Segments false f.path
    × (f.sort ≡ SortFieldInput.key)
    × (f.order ≡ SortOrderInput.asc)
    × (normalize_browse_filters (browse_params f) ≡ f)

browse-Browses :
    (path : Text) → Segments false path → Browses (record default_browse_filters { path = path })
browse-Browses path h = (h, refl, refl, normalize_browse_filters-params _)

-- `Loaded key`: the file had this key when its metadata was loaded. `Del`: it may be deleted; `Mov`: it
-- may be moved.
module _ (id : Text) (Loaded : Text → Type 0) (Del Mov : Type 0) where
  -- A file whose metadata is loaded is in a folder.
  abbrev pub Happens : PageEvent → Type 0
  Happens (metadata_loaded key) = Segments false (current_folder key) × Loaded key
  Happens press_delete = Del
  Happens press_move = Mov
  Happens _ = Unit

  abbrev pub OfFile : PageCall → Type 0
  OfFile (get_open_url i) = i ≡ id
  OfFile (get_download_url i) = i ≡ id
  OfFile (delete_file i) = (i ≡ id) × Del
  OfFile (move_file i destination) =
      (folder : Text) × (key : Text) × (i ≡ id)
      × Loaded key
      × (destination ≡ folder ++ file_name key)
      × Mov

  abbrev If : Bool → Type 0 → Type 0
  If true A = A
  If false A = Unit

  -- While a dialog is shown, its button was pressed.
  abbrev IsSound : FilePage → Type 0
  IsSound p =
      If p.confirm_delete Del
      × If p.move_open Mov
      × All OfFile p.calls
      × All Browses p.navigated
      × Segments false (current_folder p.key)
      × Loaded p.key

  with_call : (p : FilePage) (c : PageCall) → OfFile c → IsSound p → All OfFile (p.calls ++ c ∷ [])
  with_call p c h s = All-append OfFile p.calls (c ∷ []) (s.2) (h, tt)

  with_browse :
      (p : FilePage) (path : Text) → Segments false path → IsSound p → IsSound (browse_to p path)
  with_browse p path h s = (
    s.0,
    s.1,
    s.2,
    All-append Browses p.navigated ((record default_browse_filters { path = path }) ∷ []) (s.3)
        (browse-Browses path h, tt),
    s.4,
    s.5,
  )

  to_crumb-IsSound :
      (p : FilePage) (cs : List Crumb) (index : ℕ)
      → All ToFolder cs
      → IsSound p
      → IsSound (to_crumb p cs index)
  unfolding to_crumb
  to_crumb-IsSound p [] index h s = s
  to_crumb-IsSound p (c ∷ cs) zero (first, h) s = with_browse p c.target first s
  to_crumb-IsSound p (c ∷ cs) (suc index) (first, h) s = to_crumb-IsSound p cs index h s

  confirm-IsSound :
      (p q : FilePage) (shown busy : Bool) (A : Type 0)
      → If shown A
      → (A → IsSound q)
      → IsSound p
      → IsSound (if shown && not busy then q else p)
  confirm-IsSound p q false busy A h f s = s
  confirm-IsSound p q true true A h f s = s
  confirm-IsSound p q true false A h f s = f h

  handle_page-IsSound :
      (p : FilePage) (e : PageEvent) → Happens e → IsSound p → IsSound (handle_page id p e)
  unfolding handle_page
  handle_page-IsSound p (metadata_loaded key) h s = (s.0, s.1, s.2, s.3, h.0, h.1)
  handle_page-IsSound p press_open h s =
      (s.0, s.1, with_call p (get_open_url id) refl s, s.3, s.4, s.5)
  handle_page-IsSound p press_download h s =
      (s.0, s.1, with_call p (get_download_url id) refl s, s.3, s.4, s.5)
  handle_page-IsSound p press_move h s = (s.0, h, s.2, s.3, s.4, s.5)
  handle_page-IsSound p press_delete h s = (h, s.1, s.2, s.3, s.4, s.5)
  handle_page-IsSound p press_metadata h s = s
  handle_page-IsSound p (url_arrived url) h s = s
  handle_page-IsSound p confirm_delete h s =
      confirm-IsSound p (record (and_request p (delete_file id)) { deleting = true })
        p.confirm_delete p.deleting Del (s.0)
        (λ d. (s.0, s.1, with_call p (delete_file id) (refl, d) s, s.3, s.4, s.5)) s
  handle_page-IsSound p cancel_delete h s = (tt, s.1, s.2, s.3, s.4, s.5)
  handle_page-IsSound p close_metadata h s = s
  handle_page-IsSound p cancel_move h s = (s.0, tt, s.2, s.3, s.4, s.5)
  handle_page-IsSound p (confirm_move folder) h s =
      let c = move_file id (folder ++ file_name p.key) in
      confirm-IsSound p (record (and_request p c) { moving = true }) p.move_open p.moving Mov (s.1)
        (λ m. (s.0, s.1, with_call p c (folder, p.key, refl, s.5, refl, m) s, s.3, s.4, s.5)) s
  handle_page-IsSound p delete_succeeded h s = with_browse p (current_folder p.key) (s.4) s
  handle_page-IsSound p delete_failed h s = s
  handle_page-IsSound p move_succeeded h s = (s.0, tt, s.2, s.3, s.4, s.5)
  handle_page-IsSound p (move_failed err) h s = s
  handle_page-IsSound p go_home h s = with_browse p [] tt s
  handle_page-IsSound p (follow_crumb index) h s =
      to_crumb-IsSound p (crumbs (current_folder p.key)) index
        (crumbs-All (current_folder p.key) (s.4)) s

  handle_pages-IsSound :
      (events : List PageEvent) (p : FilePage)
      → All Happens events
      → IsSound p
      → IsSound (handle_pages id p events)
  unfolding handle_pages
  handle_pages-IsSound [] p h s = s
  handle_pages-IsSound (e ∷ events) p (first, h) s =
      handle_pages-IsSound events (handle_page id p e) h (handle_page-IsSound p e first s)

  -- On the page of a file that is in a folder whenever its metadata is loaded, whatever is pressed and
  -- answered: the server is asked only about this file, to delete or move it only after the button for
  -- that was pressed, and to move it only to a key that ends in its own name; and the page leads only to
  -- searches of folders, in the order of the names, which come back unchanged out of the URL that
  -- carries them.
  pub handle_pages-OfFile :
      (key : Text) (events : List PageEvent)
      → Segments false (current_folder key)
      → Loaded key
      → All Happens events
      → All OfFile (handle_pages id (new_page key) events).calls
        × All Browses (handle_pages id (new_page key) events).navigated
  handle_pages-OfFile key events k l h =
      let s = handle_pages-IsSound events (new_page key) h (tt, tt, tt, tt, k, l) in (s.2, s.3)
