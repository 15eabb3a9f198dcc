-- ===== src/Tests/Folders.antt =====
-- Menus, breadcrumbs, the move dialog and the loading of folders at concrete inputs.
use file_indexer.Prelude.{
  ◌≡◌, refl, inl, inr, Bool, true, false, Option, none, some, List, [], ◌∷◌, take, Text, codes,
  ◌===◌, Eff, done, arith,
}
use file_indexer.Js.Space.{trim}
use file_indexer.Js.Join.{join, split}
use file_indexer.Server.Listing.{ListDirectoryResult}
use file_indexer.Paths.Normal.{Segments}
use file_indexer.Folders.{crumbs, split_key}
use file_indexer.Folders.Dialog.{Dialog, handle_new_folder_submit}
use file_indexer.Folders.Loading.{load_tree, fetch_tree_directories, fetch_dialog_directories}
use file_indexer.Folders.Loading.Agreement.{
  directories_of, Pages, last, more, fetch_dialog_directories-Pages, fetch_tree_directories-Pages,
}

crumbs_of_a_b :
    crumbs (codes "a/b/")
    ≡ record { name = codes "a"; target = codes "a/" }
      ∷ record { name = codes "b"; target = codes "a/b/" }
      ∷ []
unfolding crumbs join split
crumbs_of_a_b = refl

a_b_folder : Segments false (codes "a/b/")
a_b_folder = inr (omega arith, inl (refl, refl, inr (omega arith, inl (refl, refl, tt))))

split_key_of_a_b : split_key (codes "a/b.jpg") ≡ (codes "a/", codes "b.jpg")
unfolding split_key
split_key_of_a_b = refl

abbrev naming : Text → Dialog
naming name = record {
  view_path = codes "a/b/";
  show_add_folder = true;
  new_folder_name = name;
  new_folder_error = none;
}

named_c : (handle_new_folder_submit (naming (codes " c "))).view_path ≡ codes "a/b/c/"
unfolding handle_new_folder_submit trim ◌===◌
named_c = refl

named_dots : (handle_new_folder_submit (naming (codes ".."))).view_path ≡ codes "a/b/"
unfolding handle_new_folder_submit trim ◌===◌
named_dots = refl

abbrev page : Text → Text → ListDirectoryResult
page directory token = record { directories = directory ∷ []; files = []; next_page_token = token }

-- Two pages, for the first token and any other.
abbrev pages_by_token : Option Text → Eff Bool ListDirectoryResult
pages_by_token none n = done (page (codes "a/") (codes "t")) n
pages_by_token (some _) n = done (page (codes "b/") []) n

abbrev both : List ListDirectoryResult
both = page (codes "a/") (codes "t") ∷ page (codes "b/") [] ∷ []

both_are_given : Pages pages_by_token true none both
both_are_given = more refl refl (last refl refl)

fetch_dialog_directories-Pages_example :
    (t : Bool) × (fetch_dialog_directories pages_by_token true
      ≡ done (directories_of (take 100 both)) t)
fetch_dialog_directories-Pages_example =
    fetch_dialog_directories-Pages pages_by_token true both both_are_given

both_listed :
    fetch_tree_directories pages_by_token 2 true ≡ done (some (codes "a/" ∷ codes "b/" ∷ [])) true
unfolding fetch_tree_directories load_tree
both_listed = refl

fetch_tree_directories-Pages_example :
    (t : Bool) × (fetch_tree_directories pages_by_token 2 true
      ≡ done (some (directories_of both)) t)
fetch_tree_directories-Pages_example =
    fetch_tree_directories-Pages pages_by_token 2 true both both_are_given (omega arith)
      (inl (refl, inl (refl, tt)))
