-- ===== src/Lists/Folders.antt =====
-- The name of a folder in a listing.
use file_indexer.Prelude.{
  ◌≡◌, refl, ◌∙◌, ap, false, some, [], map, ◌∷◌, ◌++◌, append_assoc, All, Text,
}
use file_indexer.Js.Join.{split}
use file_indexer.Paths.Normal.{Segments}
use file_indexer.Folders.{Crumb, crumbs, file_name}
use file_indexer.Folders.Crumbs.{NotSlash}
use file_indexer.Folders.Moving.Destinations.{split_key-append}
use file_indexer.Tree.{pop, folder_name}
use file_indexer.Tree.Names.{pop-split, drop_end_slash-append}
use file_indexer.Lists.{basename, dir_name}

basename-append : (path rest : Text) → basename path (path ++ rest) ≡ rest
unfolding basename
basename-append [] rest = refl
basename-append (_ ∷ path) rest = basename-append path rest

-- A subfolder of the browsed folder is shown under its own name in the listing, in the tree and as the
-- last of its breadcrumbs. A file there is shown under its own name in the listing and on its page, which
-- is the name that a move keeps.
pub dir_name-folder_name :
    (path name : Text)
    → Segments false path
    → All NotSlash name
    → (dir_name path (path ++ name ++ b'/' ∷ []) ≡ name)
      × (folder_name (path ++ name ++ b'/' ∷ []) ≡ some name)
      × (pop (map (λ (c : Crumb). c.name) (crumbs (path ++ name ++ b'/' ∷ []))) ≡ some name)
      × (basename path (path ++ name) ≡ name)
      × (pop (split b'/' (path ++ name)) ≡ some name)
      × (file_name (path ++ name) ≡ name)
unfolding dir_name
dir_name-folder_name path name k h =
    let (page, tree, crumb) = pop-split (path ++ name) in
    let same : file_name (path ++ name) ≡ name = ap (λ k. k.1) (split_key-append path name k h) in
    (
      rw (append_assoc path name (b'/' ∷ []))
          (rw (basename-append path (name ++ b'/' ∷ [])) (drop_end_slash-append name)),
      tree ∙ ap some same,
      crumb ∙ ap some same,
      basename-append path name,
      page ∙ ap some same,
      same,
    )
