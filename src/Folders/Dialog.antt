-- ===== src/Folders/Dialog.antt =====
-- Adding a folder in the dialog of web/src/components/MoveFileDialog.tsx.
use file_indexer.Prelude.{
  ℕ, ◌≡◌, ◌≢◌, refl, ap, ◌⊎◌, inl, inr, Bool, true, false, ◌||◌, Option, none, some, [], ◌∷◌, ◌++◌,
  any, All, Text, codes, ◌==◌, ◌===◌, ===_iff, Bool-cases, or-false, if◌then◌else◌,
}
use file_indexer.Js.Space.{trim}
use file_indexer.Paths.Normal.{Segments, slash-cases}
use file_indexer.Folders.Crumbs.{NotSlash}

pub record Dialog : Type 0 where
  pub view_path : Text
  pub show_add_folder : Bool
  pub new_folder_name : Text
  pub new_folder_error : Option Text

unfoldable pub navigate_to : Text → Dialog → Dialog
navigate_to path d = record {
  view_path = path;
  show_add_folder = false;
  new_folder_name = [];
  new_folder_error = none;
}

-- `s.endsWith('/')`
unfoldable pub ends_in_slash : Text → Bool
ends_in_slash [] = false
ends_in_slash (c ∷ []) = c == b'/'
ends_in_slash (c ∷ d ∷ s) = ends_in_slash (d ∷ s)

abbrev pub has_slash : Text → Bool
has_slash s = any (λ c. c == b'/') s

abbrev pub refuse : Text → Dialog → Dialog
refuse message d = record d { new_folder_error = some message }

abbrev pub folder_prefix : Text → Text
folder_prefix path =
    if path === [] then [] else if ends_in_slash path then path else path ++ b'/' ∷ []

unfoldable pub handle_new_folder_submit : Dialog → Dialog
unfolding navigate_to ends_in_slash
handle_new_folder_submit d =
    let name = trim d.new_folder_name in
    if name === []
    then refuse (codes "Folder name cannot be empty") d
    else if (name === codes ".") || (name === codes "..")
    then refuse (codes "Folder name cannot be \".\" or \"..\"") d
    else if has_slash name
    then refuse (codes "Folder name cannot contain \"/\"") d
    else navigate_to (folder_prefix d.view_path ++ (name ++ b'/' ∷ [])) d

ends_in_slash-Segments :
    (inside : Bool) (c : ℕ) (s : Text) → Segments inside (c ∷ s) → ends_in_slash (c ∷ s) ≡ true
unfolding ends_in_slash
ends_in_slash-Segments inside c [] (inl (here, _, _)) = rw here refl
ends_in_slash-Segments inside c [] (inr (_, h)) = elim h [ ]
ends_in_slash-Segments inside c (d ∷ s) (inl (_, _, h)) = ends_in_slash-Segments false d s h
ends_in_slash-Segments inside c (d ∷ s) (inr (_, h)) = ends_in_slash-Segments true d s h

folder_prefix-Segments : (path : Text) → Segments false path → folder_prefix path ≡ path
unfolding ◌===◌
folder_prefix-Segments [] h = refl
folder_prefix-Segments (c ∷ s) h = rw (ends_in_slash-Segments false c s h) refl

pub has_slash-All : (s : Text) → has_slash s ≡ false → All NotSlash s
has_slash-All [] h = tt
has_slash-All (c ∷ s) h = elim (slash-cases c) [
  | inl (_, here) ↦ let t = rw here at h in cc
  | inr (other, e) ↦ (other, has_slash-All s (rw e at h))
]

Segments-segment : (name : Text) → All NotSlash name → Segments true (name ++ b'/' ∷ [])
Segments-segment [] h = inl (refl, refl, tt)
Segments-segment (c ∷ name) (other, h) = inr (other, Segments-segment name h)

pub Segments-append :
    (inside : Bool) (s t : Text) → Segments inside s → Segments false t → Segments inside (s ++ t)
Segments-append true [] t h k = elim h [ ]
Segments-append false [] t h k = k
Segments-append inside (c ∷ s) t (inl (here, began, h)) k =
    inl (here, began, Segments-append false s t h k)
Segments-append inside (c ∷ s) t (inr (other, h)) k = inr (other, Segments-append true s t h k)

pub Segments-named :
    (name : Text) → name ≢ [] → All NotSlash name → Segments false (name ++ b'/' ∷ [])
Segments-named [] full h = absurd (full refl)
Segments-named (c ∷ name) full (other, h) = inr (other, Segments-segment name h)

false-ne : (s t : Text) → (s === t) ≡ false → s ≢ t
false-ne s t h e = let k = (===_iff s t).1 e in cc

-- What a submitted name leads to, in a dialog that shows a folder.
abbrev pub Submitted : Dialog → Dialog → Type 0
Submitted d after =
    ((message : Text) × (after ≡ refuse message d))
    ⊎ ((name : Text) × (trim d.new_folder_name ≡ name)
        × (name ≢ [])
        × (name ≢ codes ".")
        × (name ≢ codes "..")
        × All NotSlash name
        × (after ≡ navigate_to (d.view_path ++ (name ++ b'/' ∷ [])) d)
        × Segments false (d.view_path ++ (name ++ b'/' ∷ [])))

-- In a folder, submitting a new folder's name either shows an error and changes nothing else, or
-- moves on to a folder: the shown one, with the trimmed name behind it, which is not empty, not `.`
-- and not `..`, has no slash, and is closed by one.
pub handle_new_folder_submit-cases :
    (d : Dialog) → Segments false d.view_path → Submitted d (handle_new_folder_submit d)
unfolding handle_new_folder_submit
handle_new_folder_submit-cases d h =
    let name = trim d.new_folder_name in
    elim (Bool-cases (name === [])) [
      | inl empty ↦ inl (codes "Folder name cannot be empty", rw empty refl)
      | inr full ↦ elim (Bool-cases ((name === codes ".") || (name === codes ".."))) [
        | inl dots ↦ inl (codes "Folder name cannot be \".\" or \"..\"", rw (full, dots) refl)
        | inr plain ↦ elim (Bool-cases (has_slash name)) [
          | inl slashed ↦
              inl (codes "Folder name cannot contain \"/\"", rw (full, plain, slashed) refl)
          | inr one ↦
              let (dot, dots) = or-false (name === codes ".") (name === codes "..") plain in
              let nonempty = false-ne name [] full in
              let no_slash = has_slash-All name one in
              inr (
                name,
                refl,
                nonempty,
                false-ne name (codes ".") dot,
                false-ne name (codes "..") dots,
                no_slash,
                rw (full, plain, one)
                    (ap (λ p. navigate_to (p ++ (name ++ b'/' ∷ [])) d)
                      (folder_prefix-Segments d.view_path h)),
                Segments-append false d.view_path (name ++ b'/' ∷ []) h
                    (Segments-named name nonempty no_slash),
              )
        ]
      ]
    ]
