-- ===== src/Table/Rows.antt =====
-- A table acts on the rows that it was given, and on no others.
use file_indexer.Prelude.{
  ◌≡◌, refl, inl, Bool, true, false, Option, none, some, List, [], ◌∷◌, All, All-append, IfSome,
  All-get_elem?, get_elem?, Text, if◌then◌else◌,
}
use file_indexer.Server.Types.{FileDto}
use file_indexer.Menus.{
  menu_item, file_button, folder_button, Event as MenuEvent, mouse_down as menus_mouse_down,
  key_down as menus_key_down,
}
use file_indexer.Menus.Single.{AtMostOne, handle-AtMostOne}
use file_indexer.Table.{Dialogs, Event, pick_download, pick_move, pick_delete, Call}
use file_indexer.Table.Selection as Selection
use file_indexer.Table.Confirmation.{Answer, on_confirm, on_cancel, answer_of}
use file_indexer.Table.Clicks.{
  press_delete_dialog, on_answer, is_shown, FolderRow, FileTable, new_table, FilePart, cell,
  actions, download_entry, move_entry, delete_entry, FolderPart, name_button, folder_actions,
  delete_folder_entry, DialogEvent, confirm_delete_ok, confirm_delete_failed, confirm_move,
  cancel_move, confirm_move_ok, confirm_move_failed, TableEvent, rows, click_file, click_folder,
  mouse_down, key_down, on_dialog, is_open_for, picked, with_menus, with_dialogs, on_entry,
  click_part, on_delete_folder, click_folder_part, on_file_row, on_folder_row, on_dialog_event,
  handle_table, handle_tables,
}

-- `FileShown` and `FolderShown` are true of the rows that the table is given.
module _ (FileShown : FileDto → Type 0) (FolderShown : FolderRow → Type 0) where
  -- The id, and the id and key, of a file that is shown.
  abbrev pub ShownId : Text → Type 0
  ShownId id = (f : FileDto) × FileShown f × (f.id ≡ id)

  abbrev pub ShownKey : Text → Text → Type 0
  ShownKey id key = (f : FileDto) × FileShown f × (f.id ≡ id) × (f.key ≡ key)

  abbrev pub ShownPath : Text → Type 0
  ShownPath path = (r : FolderRow) × FolderShown r × (r.path ≡ path)

  -- A call for a file that is shown; a move is from its key, to one that ends in its name.
  abbrev pub OfShown : Call → Type 0
  OfShown c = Selection.Allowed ShownId ShownId ShownKey c

  abbrev pub Gives : TableEvent → Type 0
  Gives (rows folders files) = All FolderShown folders × All FileShown files
  Gives _ = Unit

  abbrev DialogsSound : Dialogs → Type 0
  DialogsSound d = Selection.IsSound ShownId ShownId ShownKey d

  abbrev IsSound : FileTable → Type 0
  IsSound t =
      All FolderShown t.folders
      × All FileShown t.files
      × DialogsSound t.dialogs
      × All ShownId t.opened
      × All ShownPath t.navigated
      × All ShownPath t.asked_to_delete
      × AtMostOne t.menus

  with_menus-IsSound : (t : FileTable) (e : MenuEvent) → IsSound t → IsSound (with_menus t e)
  with_menus-IsSound t e (r, f, d, o, n, a, m) = (r, f, d, o, n, a, handle-AtMostOne t.menus e m)

  module _ (display_key : Text → Text) (keys : List (List Text)) where
    with_dialogs-IsSound :
        (t : FileTable) (e : Event)
        → Selection.Picks ShownId ShownId ShownKey e
        → IsSound t
        → IsSound (with_dialogs display_key keys t e)
    with_dialogs-IsSound t e p (r, f, d, o, n, a, m) = (
      r,
      f,
      Selection.handle_dialog-IsSound ShownId ShownId ShownKey display_key keys t.dialogs e p d,
      o,
      n,
      a,
      m,
    )

    on_entry-IsSound :
        (t : FileTable) (shown : Bool) (e : Event)
        → Selection.Picks ShownId ShownId ShownKey e
        → IsSound t
        → IsSound (on_entry display_key keys t shown e)
    on_entry-IsSound t false e p s = s
    on_entry-IsSound t true e p s =
        with_dialogs-IsSound (with_menus t menu_item) e p (with_menus-IsSound t menu_item s)

    on_file_row-IsSound :
        (t : FileTable) (o : Option FileDto) (part : FilePart)
        → IfSome FileShown o
        → IsSound t
        → IsSound (on_file_row display_key keys t o part)
    unfolding click_part
    on_file_row-IsSound t none part p s = s
    on_file_row-IsSound t (some f) cell p (r, fs, d, o, n, a, m) =
        (r, fs, d, All-append ShownId t.opened (f.id ∷ []) o ((f, p, refl), tt), n, a, m)
    on_file_row-IsSound t (some f) actions p s = with_menus-IsSound t (file_button f.id) s
    on_file_row-IsSound t (some f) download_entry p s =
        on_entry-IsSound t (is_open_for t.menus.open_file_menu_id f.id) (pick_download f.id)
          (f, p, refl) s
    on_file_row-IsSound t (some f) move_entry p s =
        on_entry-IsSound t (is_open_for t.menus.open_file_menu_id f.id) (pick_move (picked f))
          (f, p, refl, refl) s
    on_file_row-IsSound t (some f) delete_entry p s =
        on_entry-IsSound t (is_open_for t.menus.open_file_menu_id f.id) (pick_delete (picked f))
          (f, p, refl) s

    on_delete_folder-IsSound :
        (t : FileTable) (shown : Bool) (path : Text)
        → ShownPath path
        → IsSound t
        → IsSound (on_delete_folder display_key keys t shown path)
    on_delete_folder-IsSound t false path p s = s
    on_delete_folder-IsSound t true path p (r, f, d, o, n, a, m) = (
      r,
      f,
      d,
      o,
      n,
      All-append ShownPath t.asked_to_delete (path ∷ []) a (p, tt),
      handle-AtMostOne t.menus menu_item m,
    )

    on_folder_row-IsSound :
        (t : FileTable) (o : Option FolderRow) (part : FolderPart)
        → IfSome FolderShown o
        → IsSound t
        → IsSound (on_folder_row display_key keys t o part)
    unfolding click_folder_part
    on_folder_row-IsSound t none part p s = s
    on_folder_row-IsSound t (some w) name_button p (r, f, d, o, n, a, m) =
        (r, f, d, o, All-append ShownPath t.navigated (w.path ∷ []) n ((w, p, refl), tt), a, m)
    on_folder_row-IsSound t (some w) folder_actions p s =
        with_menus-IsSound t (folder_button w.path) s
    on_folder_row-IsSound t (some w) delete_folder_entry p s =
        on_delete_folder-IsSound t (is_open_for t.menus.open_folder_menu_path w.path) w.path
          (w, p, refl) s

    if-IsSound : (b : Bool) (t u : FileTable) → IsSound t → IsSound u → IsSound (if b then t else u)
    if-IsSound true t u s r = s
    if-IsSound false t u s r = r

    on_answer-IsSound :
        (t : FileTable) (o : Option Answer) → IsSound t → IsSound (on_answer display_key keys t o)
    on_answer-IsSound t none s = s
    on_answer-IsSound t (some on_confirm) s = with_dialogs-IsSound t Event.confirm_delete tt s
    on_answer-IsSound t (some on_cancel) s = with_dialogs-IsSound t Event.cancel_delete tt s

    on_dialog_event-IsSound :
        (t : FileTable) (e : DialogEvent)
        → IsSound t
        → IsSound (on_dialog_event display_key keys t e)
    unfolding on_dialog_event
    on_dialog_event-IsSound t (press_delete_dialog press) s =
        let o = answer_of t.dialogs.deleting press in
        if-IsSound (is_shown t.dialogs.file_to_delete) (on_answer display_key keys t o) t
          (on_answer-IsSound t o s) s
    on_dialog_event-IsSound t confirm_delete_ok s =
        let e = Event.delete_succeeded in
        if-IsSound t.dialogs.deleting (with_dialogs display_key keys t e) t
          (with_dialogs-IsSound t e tt s) s
    on_dialog_event-IsSound t confirm_delete_failed s =
        let e = Event.delete_failed in
        if-IsSound t.dialogs.deleting (with_dialogs display_key keys t e) t
          (with_dialogs-IsSound t e tt s) s
    on_dialog_event-IsSound t (confirm_move destination) s =
        with_dialogs-IsSound t (Event.confirm_move destination) tt s
    on_dialog_event-IsSound t cancel_move s = with_dialogs-IsSound t Event.cancel_move tt s
    on_dialog_event-IsSound t confirm_move_ok s =
        let e = Event.move_succeeded in
        if-IsSound t.dialogs.moving (with_dialogs display_key keys t e) t
          (with_dialogs-IsSound t e tt s) s
    on_dialog_event-IsSound t (confirm_move_failed err) s =
        let e = Event.move_failed err in
        if-IsSound t.dialogs.moving (with_dialogs display_key keys t e) t
          (with_dialogs-IsSound t e tt s) s

    handle_table-IsSound :
        (t : FileTable) (e : TableEvent)
        → Gives e
        → IsSound t
        → IsSound (handle_table display_key keys t e)
    unfolding handle_table
    handle_table-IsSound t (rows folders files) (r, f) s = (r, f, s.2, s.3, s.4, s.5, s.6)
    handle_table-IsSound t (click_file i part) g s =
        on_file_row-IsSound t (get_elem? t.files i) part (All-get_elem? FileShown t.files i s.1) s
    handle_table-IsSound t (click_folder i part) g s =
        on_folder_row-IsSound t (get_elem? t.folders i) part
          (All-get_elem? FolderShown t.folders i s.0) s
    handle_table-IsSound t (mouse_down inside) g s =
        with_menus-IsSound t (menus_mouse_down inside) s
    handle_table-IsSound t (key_down key) g s = with_menus-IsSound t (menus_key_down key) s
    handle_table-IsSound t (on_dialog e) g s = on_dialog_event-IsSound t e s

    handle_tables-IsSound :
        (events : List TableEvent) (t : FileTable)
        → All Gives events
        → IsSound t
        → IsSound (handle_tables display_key keys t events)
    unfolding handle_tables
    handle_tables-IsSound [] t g s = s
    handle_tables-IsSound (e ∷ events) t (here, g) s =
        handle_tables-IsSound events (handle_table display_key keys t e) g
          (handle_table-IsSound t e here s)

    -- Whatever is clicked, in whatever order, and whenever the table is given other rows: it opens,
    -- downloads and deletes only files that it was given, moves only such files, each to a key that
    -- ends in its own name, navigates to and asks to delete only folders that it was given, and has at
    -- most one menu open.
    pub handle_tables-OfShown :
        (folders : List FolderRow) (files : List FileDto) (events : List TableEvent)
        → All FolderShown folders
        → All FileShown files
        → All Gives events
        → let t = handle_tables display_key keys (new_table folders files) events in
          All OfShown t.dialogs.calls
          × All ShownId t.opened
          × All ShownPath t.navigated
          × All ShownPath t.asked_to_delete
          × AtMostOne t.menus
    handle_tables-OfShown folders files events r f g =
        let s =
          handle_tables-IsSound events (new_table folders files) g
            (r, f, (tt, tt, tt), tt, tt, tt, inl refl) in
        (s.2.2, s.3, s.4, s.5, s.6)
