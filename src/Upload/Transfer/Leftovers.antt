-- ===== src/Upload/Transfer/Leftovers.antt =====
-- What an upload that fails leaves in the browser's storage.
use file_indexer.Prelude.{
  ℕ, ◌+◌, ℤ, ◌≡◌, sym, ◌∙◌, subst, ap, ◌⊎◌, inl, inr, List, [], ◌∷◌, Text, Failure,
  upload_cancelled, done, failed, and_then-eq-done, and_then-eq-failed, catch-eq-done,
  catch-eq-failed, Bool-cases, done-injective, failed-injective,
}
use file_indexer.Upload.Plan.{PartPlan}
use file_indexer.Upload.World.{
  World, Storage, FileLike, MultipartUploadDeps, call, back-eq-done, back-eq-failed,
}
use file_indexer.Upload.Session.{clear_session}
use file_indexer.Upload.Transfer.{
  has_landed, upload_part_with_retry, cancel, upload_part, upload_parts,
}
use file_indexer.Upload.Transfer.Steps.{cancel-ne-done}

abbrev pub storage_of : {N : Type 0} → World N → Storage
storage_of w = w.storage

module _ {N : Type 0} (deps : MultipartUploadDeps N) (file : FileLike) (key : Text) where
  -- The storage is as it was, or the upload was cancelled and its session cleared.
  abbrev pub Untouched : Failure → Storage → Storage → Type 0
  Untouched e before after =
      (after ≡ before) ⊎ ((e ≡ upload_cancelled key) × (after ≡ clear_session key before))

  module _ (id : Text) where
    cancel-Untouched :
        (w : World N) (e : Failure) (t : World N)
        → cancel deps file key id w ≡ failed e t
        → Untouched e w.storage t.storage
    unfolding cancel
    cancel-Untouched w e t h =
        elim (and_then-eq-failed (call (deps.abort_multipart_upload key id) w) _ h) [
          | inl refused ↦ inl (
              ap storage_of
                (back-eq-failed w (deps.abort_multipart_upload key id w.net) e t refused).1)
          | inr (_, v, aborted, after) ↦
              let (thrown, same) = failed-injective after in
              let kept =
                ap storage_of
                  (back-eq-done w (deps.abort_multipart_upload key id w.net) tt v aborted).1 in
              inr (sym thrown, sym (ap storage_of same) ∙ ap (clear_session key) kept)
        ]

    upload_part-storage :
        (landed : List (ℤ × ℤ)) (part : PartPlan) (w t : World N)
        → upload_part deps file key id landed part w ≡ done tt t
        → t.storage ≡ w.storage
    unfolding upload_part
    upload_part-storage landed part w t h = elim (Bool-cases (has_landed landed part)) [
      | inl there ↦ sym (ap storage_of (done-injective (rw there at h)).1)
      | inr missing ↦
          elim (catch-eq-done (call (upload_part_with_retry deps file key id part) w) _
            (rw missing at h)) [
              | inl arrived ↦
                  ap storage_of
                    (back-eq-done w (upload_part_with_retry deps file key id part w.net) tt t
                      arrived).1
              | inr (e, v, _, after) ↦ elim (Bool-cases (deps.aborted v.net)) [
                | inl stop ↦ absurd (cancel-ne-done deps file key id v t (rw stop at after))
                | inr go ↦ let thrown = rw go at after in cc
              ]
            ]
    ]

    upload_part-Untouched :
        (landed : List (ℤ × ℤ)) (part : PartPlan) (w : World N) (e : Failure) (t : World N)
        → upload_part deps file key id landed part w ≡ failed e t
        → Untouched e w.storage t.storage
    unfolding upload_part
    upload_part-Untouched landed part w e t h = elim (Bool-cases (has_landed landed part)) [
      | inl there ↦ let returned = rw there at h in cc
      | inr missing ↦
          let (c, v, failing, after) =
            catch-eq-failed (call (upload_part_with_retry deps file key id part) w) _
              (rw missing at h) in
          let kept =
            ap storage_of
              (back-eq-failed w (upload_part_with_retry deps file key id part w.net) c v
                failing).1 in
          elim (Bool-cases (deps.aborted v.net)) [
            | inl stop ↦
                subst (λ s. Untouched e s t.storage) kept
                  (cancel-Untouched v e t (rw stop at after))
            | inr go ↦
                let (_, same) = failed-injective (rw go at after) in
                inl (sym (ap storage_of same) ∙ kept)
          ]
    ]

    module _ (landed : List (ℤ × ℤ)) (total : ℕ) where
      pub upload_parts-storage :
          (parts : List PartPlan) (completed : ℕ) (w t : World N)
          → upload_parts deps file key id landed total completed parts w ≡ done tt t
          → t.storage ≡ w.storage
      unfolding upload_parts
      upload_parts-storage [] completed w t h = sym (ap storage_of (done-injective h).1)
      upload_parts-storage (p ∷ parts) completed w t h = elim (Bool-cases (deps.aborted w.net)) [
        | inl stop ↦ absurd (cancel-ne-done deps file key id w t (rw stop at h))
        | inr go ↦
            let (_, v, stepped, rest) =
              and_then-eq-done (upload_part deps file key id landed p w) _ (rw go at h) in
            upload_parts-storage parts (completed + 1) _ t rest
            ∙ upload_part-storage landed p w v stepped
      ]

      pub upload_parts-Untouched :
          (parts : List PartPlan) (completed : ℕ) (w : World N) (e : Failure) (t : World N)
          → upload_parts deps file key id landed total completed parts w ≡ failed e t
          → Untouched e w.storage t.storage
      unfolding upload_parts
      upload_parts-Untouched [] completed w e t h = cc
      upload_parts-Untouched (p ∷ parts) completed w e t h =
          elim (Bool-cases (deps.aborted w.net)) [
            | inl stop ↦ cancel-Untouched w e t (rw stop at h)
            | inr go ↦
                elim (and_then-eq-failed (upload_part deps file key id landed p w) _ (rw go at h)) [
                  | inl stepped ↦ upload_part-Untouched landed p w e t stepped
                  | inr (_, v, stepped, rest) ↦
                      subst (λ s. Untouched e s t.storage)
                        (upload_part-storage landed p w v stepped)
                        (upload_parts-Untouched parts (completed + 1) _ e t rest)
                ]
          ]
