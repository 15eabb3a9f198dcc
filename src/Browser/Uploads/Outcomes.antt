-- ===== src/Browser/Uploads/Outcomes.antt =====
-- How the uploading of several files ends.
use file_indexer.Prelude.{
  ℕ, ◌≡◌, refl, ◌∙◌, ap, ◌⊎◌, inl, inr, Bool, none, some, List, [], ◌∷◌, ◌++◌, append_assoc, Text,
  codes, Failure, Eff, Outcome, done, failed, Outcome-cases, Bool-cases, leb, end_state,
}
use file_indexer.Upload.Plan.{multipart_threshold_bytes}
use file_indexer.Upload.World.{World}
use file_indexer.Browser.Wiring.{UploadServer, Response}
use file_indexer.Browser.Uploads.{
  BrowserFile, Screen, on_screen, upload_in_parts, upload_file, upload_files, with_new_controller,
  upload_mutation,
}

in_world-invalidated :
    {N : Type 0} (s : Screen N) (o : Outcome (World N) (Unit {0}))
    → (end_state (on_screen s o)).invalidated ≡ s.invalidated
in_world-invalidated s (done a w) = refl
in_world-invalidated s (failed e w) = refl

module _ {N : Type 0} (server : UploadServer N) (fetch_part : Text → List ℕ → Eff N Response)
    (fetch_file : Text → List ℕ → Text → Eff N Response) (aborted : N → Bool)
    (new_controller : N → N) (path : Text) where
  abbrev one : BrowserFile → Eff (Screen N) (Unit {0})
  one f = upload_file server fetch_part fetch_file aborted new_controller path f

  abbrev all_of : List BrowserFile → Eff (Screen N) (Unit {0})
  all_of fs = upload_files server fetch_part fetch_file aborted new_controller path fs

  -- The files were uploaded one after another, in this order.
  pub data Uploaded : List BrowserFile → Screen N → Screen N → Type 0 where
    none_left : {s : Screen N} → Uploaded [] s s
    one_more :
        {f : BrowserFile} {fs : List BrowserFile} {s m t : Screen N}
        → upload_file server fetch_part fetch_file aborted new_controller path f s ≡ done tt m
        → Uploaded fs m t
        → Uploaded (f ∷ fs) s t

  upload_file-invalidated :
      (f : BrowserFile) (s : Screen N) → (end_state (one f s)).invalidated ≡ s.invalidated
  unfolding upload_file upload_in_parts
  upload_file-invalidated f s = elim (Bool-cases (leb multipart_threshold_bytes f.file.size)) [
    | inl large ↦ rw large (
        in_world-invalidated
          (record s {
            uploading = some f.file.name;
            world = record (Screen.world s) { progress = [] };
          })
          _)
    | inr small ↦ rw small (in_world-invalidated s _)
  ]

  Uploaded-invalidated :
      {fs : List BrowserFile} {s t : Screen N} → Uploaded fs s t → t.invalidated ≡ s.invalidated
  Uploaded-invalidated none_left = refl
  Uploaded-invalidated (one_more {f} {fs} {s} {m} {t} sent rest) =
      Uploaded-invalidated rest ∙ (rw sent at (upload_file-invalidated f s))

  -- Some file failed, after those before it.
  abbrev FailedAt : List BrowserFile → Screen N → Failure → Screen N → Type 0
  FailedAt fs s e t =
      (before : List BrowserFile) × (f : BrowserFile) × (after : List BrowserFile) × (m : Screen N)
      × (fs ≡ before ++ f ∷ after)
      × Uploaded before s m
      × (one f m ≡ failed e t)

  upload_files-cases :
      (fs : List BrowserFile) (s : Screen N)
      → ((t : Screen N) × Uploaded fs s t × (all_of fs s ≡ done tt t))
        ⊎ ((e : Failure) × (t : Screen N) × FailedAt fs s e t × (all_of fs s ≡ failed e t))
  unfolding upload_files
  upload_files-cases [] s = inl (s, none_left, refl)
  upload_files-cases (f ∷ fs) s = elim (Outcome-cases (one f s)) [
    | inl (_, m, sent) ↦ elim (upload_files-cases fs m) [
      | inl (t, rest, ends) ↦ inl (t, one_more sent rest, rw sent ends)
      | inr (e, t, (before, g, after, v, split, gone, broke), ends) ↦ inr (
        e,
        t,
        (f ∷ before, g, after, v, ap (λ gs. f ∷ gs) split, one_more sent gone, broke),
        rw sent ends,
      )
    ]
    | inr (e, t, broke) ↦ inr (e, t, ([], f, fs, s, refl, none_left, broke), rw broke refl)
  ]

  -- How an upload of several files ends, in the state that it began with and with its outcome.
  abbrev pub Ends : List BrowserFile → Screen N → Outcome (Screen N) (Unit {0}) → Type 0
  Ends fs s outcome =
      ((t : Screen N) × Uploaded fs
          (with_new_controller server fetch_part fetch_file aborted new_controller s) t
        × (t.invalidated ≡ s.invalidated)
        × (outcome
            ≡ done tt (record t {
              uploading = none;
              invalidated =
                  t.invalidated ++ ((codes "directory" ∷ []) ∷ (codes "folder-tree" ∷ []) ∷ []);
            })))
      ⊎ ((e : Failure) × (t : Screen N) × (before : List BrowserFile) × (f : BrowserFile)
          × (after : List BrowserFile) × (m : Screen N) × (fs ≡ before ++ f ∷ after)
          × Uploaded before
              (with_new_controller server fetch_part fetch_file aborted new_controller s) m
          × (upload_file server fetch_part fetch_file aborted new_controller path f m ≡ failed e t)
          × (t.invalidated ≡ s.invalidated)
          × (outcome ≡ failed e (record t { uploading = none })))

  -- An upload of several files takes them in order, with a controller of its own. Either all were
  -- uploaded and the listings of folders are invalidated, or one failed: those before it were uploaded,
  -- none behind it was begun, its failure is thrown and nothing more is invalidated. Either way no
  -- status is left on show.
  pub upload_mutation-cases :
      (fs : List BrowserFile) (s : Screen N)
      → Ends fs s (upload_mutation server fetch_part fetch_file aborted new_controller path fs s)
  unfolding upload_mutation
  upload_mutation-cases fs s =
      elim (upload_files-cases fs
        (with_new_controller server fetch_part fetch_file aborted new_controller s)) [
          | inl (t, uploaded, ends) ↦ inl (
            t,
            uploaded,
            Uploaded-invalidated uploaded,
            rw ends (
                ap (λ keys. done tt (record t { uploading = none; invalidated = keys }))
                  (append_assoc t.invalidated ((codes "directory" ∷ []) ∷ [])
                    ((codes "folder-tree" ∷ []) ∷ []))),
          )
          | inr (e, t, (before, f, after, m, split, gone, broke), ends) ↦ inr (
            e,
            t,
            before,
            f,
            after,
            m,
            split,
            gone,
            broke,
            (rw broke at (upload_file-invalidated f m)) ∙ Uploaded-invalidated gone,
            rw ends refl,
          )
        ]
