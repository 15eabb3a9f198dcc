-- ===== src/Folders/Loading/Agreement.antt =====
-- What the two loops over a folder's pages return.
use file_indexer.Prelude.{
  ℕ, zero, suc, ◌≤◌, ◌≡◌, refl, ◌≢◌, sym, ◌∙◌, ap, ◌⊎◌, inl, inr, Option, none, some, List, [], ◌∷◌,
  ◌++◌, append-nil, append_assoc, length, take, flat_map, Text, Eff, Outcome, done, arith,
}
use file_indexer.Server.Types.{FileDto}
use file_indexer.Server.Listing.{ListDirectoryResult}
use file_indexer.Folders.Loading.{
  load_tree, load_dialog, fetch_tree_directories, fetch_dialog_directories,
}

abbrev pub directories_of : List ListDirectoryResult → List Text
directories_of pages = flat_map (λ (p : ListDirectoryResult). p.directories) pages

-- Once a page has a file, no page after it has a directory.
abbrev pub DirectoriesFirst : List ListDirectoryResult → Type 0
DirectoriesFirst [] = Unit
DirectoriesFirst (p ∷ ps) =
    ((p.files ≡ []) × DirectoriesFirst ps) ⊎ ((p.files ≢ []) × (directories_of ps ≡ []))

files-cases :
    (files : List FileDto)
    → (files ≡ []) ⊎ ((f : FileDto) × (rest : List FileDto) × (files ≡ f ∷ rest))
files-cases [] = inl refl
files-cases (f ∷ rest) = inr (f, rest, refl)

take-nil : (n : ℕ) → take {A = ListDirectoryResult} n [] ≡ []
take-nil zero = refl
take-nil (suc n) = refl

module _ {N : Type 0} (list_page : Option Text → Eff N ListDirectoryResult) where
  -- The pages that the service gives when each token is followed to the next, down to the last one.
  pub data Pages : N → Option Text → List ListDirectoryResult → Type 0 where
    last :
        {n : N} {token : Option Text} {page : ListDirectoryResult} {m : N}
        → list_page token n ≡ done page m
        → page.next_page_token ≡ []
        → Pages n token (page ∷ [])
    more :
        {n : N} {token : Option Text} {page : ListDirectoryResult}
        {pages : List ListDirectoryResult} {m : N} {c : ℕ} {s : Text}
        → list_page token n ≡ done page m
        → page.next_page_token ≡ c ∷ s
        → Pages m (some (c ∷ s)) pages
        → Pages n token (page ∷ pages)

  load_dialog-Pages :
      (left : ℕ) (n : N) (token : Option Text) (pages : List ListDirectoryResult)
      (found : List Text)
      → Pages n token pages
      → (t : N) × (load_dialog list_page left token found n
          ≡ done (found ++ directories_of (take left pages)) t)
  unfolding load_dialog
  load_dialog-Pages zero n token pages found p = (n, ap (λ ds. done ds n) (sym (append-nil found)))
  load_dialog-Pages (suc left) n token _ found (last {page} {m} answered over) = (
    m,
    rw (answered, over)
        (ap (λ ds. done (found ++ ds) m)
          (sym (append-nil page.directories)
            ∙ ap (λ ps. page.directories ++ directories_of ps) (sym (take-nil left)))),
  )
  load_dialog-Pages (suc left) n token _ found
        (more {page} {pages} {m} {c} {s} answered next rest) =
      let (t, e) = load_dialog-Pages left m (some (c ∷ s)) pages (found ++ page.directories) rest in
      (
        t,
        rw (answered, next)
            (e
              ∙ ap (λ ds. done ds t)
                  (append_assoc found page.directories (directories_of (take left pages)))),
      )

  -- If following the tokens leads to these pages, the dialog returns the directories of the first 100
  -- of them, page by page, and leaves out the rest without a word.
  pub fetch_dialog_directories-Pages :
      (n : N) (pages : List ListDirectoryResult)
      → Pages n none pages
      → (t : N) × (fetch_dialog_directories list_page n ≡ done (directories_of (take 100 pages)) t)
  unfolding fetch_dialog_directories
  fetch_dialog_directories-Pages n pages p = load_dialog-Pages 100 n none pages [] p

  load_tree-Pages :
      (fuel : ℕ) (n : N) (token : Option Text) (pages : List ListDirectoryResult)
      (found : List Text)
      → Pages n token pages
      → length pages ≤ fuel
      → DirectoriesFirst pages
      → (t : N) × (load_tree list_page fuel token found n
          ≡ done (some (found ++ directories_of pages)) t)
  unfolding load_tree
  load_tree-Pages zero n token _ found (last answered over) enough first = absurd (omega arith)
  load_tree-Pages zero n token _ found (more answered next rest) enough first = absurd (omega arith)
  load_tree-Pages (suc fuel) n token _ found (last {page} {m} answered over) enough first =
      let whole : ◌≡◌ {A = Outcome N (Option (List Text))}
          (done (some (found ++ page.directories)) m)
          (done (some (found ++ directories_of (page ∷ []))) m) =
        ap (λ ds. done (some (found ++ ds)) m) (sym (append-nil page.directories)) in
      elim (files-cases page.files) [
        | inl none_here ↦ (m, rw (answered, none_here, over) whole)
        | inr (f, fs, some_here) ↦ (m, rw (answered, some_here) whole)
      ]
  load_tree-Pages (suc fuel) n token _ found (more {page} {pages} {m} {c} {s} answered next rest)
        enough (inl (none_here, first)) =
      let (t, e) =
        load_tree-Pages fuel m (some (c ∷ s)) pages (found ++ page.directories) rest (omega arith)
          first in
      (
        t,
        rw (answered, next, none_here)
            (e
              ∙ ap (λ ds. done (some ds) t)
                  (append_assoc found page.directories (directories_of pages))),
      )
  load_tree-Pages (suc fuel) n token _ found (more {page} {pages} {m} {c} {s} answered next rest)
        enough (inr (full, no_more)) =
      elim (files-cases page.files) [
        | inl none_here ↦ absurd (full none_here)
        | inr (f, fs, some_here) ↦ (
          m,
          rw (answered, some_here)
              (ap (λ ds. done (some (found ++ ds)) m)
                (sym (append-nil page.directories)
                  ∙ ap (λ ds. page.directories ++ ds) (sym no_more))),
        )
      ]

  -- If following the tokens leads to these pages, and no directory comes after the first file, then the
  -- tree, given as many rounds as there are pages, returns the directories of all of them, although
  -- it stops at the first page that has a file.
  pub fetch_tree_directories-Pages :
      (fuel : ℕ) (n : N) (pages : List ListDirectoryResult)
      → Pages n none pages
      → length pages ≤ fuel
      → DirectoriesFirst pages
      → (t : N) × (fetch_tree_directories list_page fuel n ≡ done (some (directories_of pages)) t)
  unfolding fetch_tree_directories
  fetch_tree_directories-Pages fuel n pages p = load_tree-Pages fuel n none pages [] p
