-- ===== src/Browser/Uploads/Keys.antt =====
-- Which keys the browsed folder's uploads go to.
use file_indexer.Prelude.{
  ℕ, ◌≡◌, ◌≢◌, refl, ap, ◌⊎◌, inl, inr, Bool, true, false, Option, none, some, [], ◌∷◌, ◌++◌, any,
  All, Text, codes, ◌==◌, Bool-cases,
}
use file_indexer.Js.Space.{is_space, trim, trim_start, trim_end, NotSpace}
use file_indexer.Paths.Normal.{Segments, normalize_upload_path-same}
use file_indexer.Folders.Dialog.{has_slash-All, Segments-append, Segments-named}
use file_indexer.Folders.Crumbs.{NotSlash}
use file_indexer.Browser.Uploads.{
  BrowserFile, upload_key, stay, alert, navigate, named_folder, handle_new_folder,
}

-- No white space leads.
abbrev pub PlainStart : Text → Type 0
PlainStart [] = Unit
PlainStart (c ∷ s) = NotSpace c

trim_end-Segments :
    (inside : Bool) (c : ℕ) (s : Text) → Segments inside (c ∷ s) → trim_end (c ∷ s) ≡ c ∷ s
unfolding trim_end is_space
trim_end-Segments inside c [] (inl (here, _, _)) = rw here refl
trim_end-Segments inside c [] (inr (_, h)) = elim h [ ]
trim_end-Segments inside c (d ∷ s) (inl (_, _, h)) = rw (trim_end-Segments false d s h) refl
trim_end-Segments inside c (d ∷ s) (inr (_, h)) = rw (trim_end-Segments true d s h) refl

trim-Segments : (path : Text) → Segments false path → PlainStart path → trim path ≡ path
unfolding trim trim_start trim_end
trim-Segments [] h plain = refl
trim-Segments (c ∷ s) h plain = rw plain (trim_end-Segments false c s h)

-- From a folder whose key does not begin with white space, a file is uploaded to the folder's key with
-- the file's name behind it.
pub upload_key-plain :
    (path : Text) (f : BrowserFile)
    → Segments false path
    → PlainStart path
    → upload_key path f ≡ path ++ f.file.name
unfolding upload_key
upload_key-plain path f h plain =
    ap (λ p. p ++ f.file.name) (normalize_upload_path-same path (trim-Segments path h plain) h)

named_folder-cases :
    (path name : Text)
    → Segments false path
    → name ≢ []
    → ((message : Text) × (named_folder path name ≡ alert message))
      ⊎ (All NotSlash name
          × (named_folder path name ≡ navigate (path ++ (name ++ b'/' ∷ [])))
          × Segments false (path ++ (name ++ b'/' ∷ [])))
named_folder-cases path name h full = elim (Bool-cases (any (λ c. c == b'/') name)) [
  | inl slashed ↦ inl (codes "Folder name cannot contain \"/\"", rw slashed refl)
  | inr one ↦
      let plain = has_slash-All name one in
      inr (
        plain,
        rw one refl,
        Segments-append false path (name ++ b'/' ∷ []) h (Segments-named name full plain),
      )
]

-- In a folder, the button for a new folder stays where it is if no name is given, shows a message, or
-- goes to a folder within the shown one, of the name that was given, in which there is no slash.
pub handle_new_folder-cases :
    (path : Text) (answer : Option Text)
    → Segments false path
    → (handle_new_folder path answer ≡ stay)
      ⊎ ((message : Text) × (handle_new_folder path answer ≡ alert message))
      ⊎ ((name : Text) × (answer ≡ some name)
          × (name ≢ [])
          × All NotSlash name
          × (handle_new_folder path answer ≡ navigate (path ++ (name ++ b'/' ∷ [])))
          × Segments false (path ++ (name ++ b'/' ∷ [])))
unfolding handle_new_folder
handle_new_folder-cases path none h = inl refl
handle_new_folder-cases path (some []) h = inl refl
handle_new_folder-cases path (some (c ∷ s)) h =
    let full : c ∷ s ≢ [] = λ e. cc in
    elim (named_folder-cases path (c ∷ s) h full) [
      | inl (message, e) ↦ inr (inl (message, e))
      | inr (plain, e, folder) ↦ inr (inr (c ∷ s, refl, full, plain, e, folder))
    ]
