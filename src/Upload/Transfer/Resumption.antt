-- ===== src/Upload/Transfer/Resumption.antt =====
-- When a session is taken up again, and that a failure leaves one to take up.
use file_indexer.Prelude.{
  ◌≡◌, refl, sym, ◌∙◌, ap, ◌⊎◌, inl, inr, Option, none, some, List, Text, ◌===◌, ===_iff, length,
  Failure, upload_cancelled, done, failed, and_then-eq-done, and_then-eq-failed, catch-eq-done,
  catch-eq-failed, Bool-cases, done-injective,
}
use file_indexer.Upload.Plan.{part_size_bytes, plan_parts}
use file_indexer.Upload.World.{
  World, Entry, FileLike, MultipartUploadDeps, call, back-eq-done, back-eq-failed,
}
use file_indexer.Upload.Session.{StoredSession, file_fingerprint, load_session, save_session}
use file_indexer.Upload.Session.Laws.{
  load_session-save_session_self, load_session-clear_session_self,
}
use file_indexer.Upload.Transfer.{
  Upload, upload_parts, create, list_landed, matching, resume, resume_or_create_upload,
  upload_file_multipart,
}
use file_indexer.Upload.Transfer.Leftovers.{
  storage_of, upload_parts-storage, upload_parts-Untouched,
}

module _ {N : Type 0} (deps : MultipartUploadDeps N) (file : FileLike) (key : Text) where
  -- The session of an upload of this file.
  abbrev pub session_of : Text → StoredSession
  session_of id = record { upload_id = id; fingerprint = file_fingerprint file }

  matching-session :
      (o : Option StoredSession) (id : Text)
      → matching deps file key o ≡ some id
      → o ≡ some (session_of id)
  unfolding matching
  matching-session none id h = cc
  matching-session (some session) id h =
      elim (Bool-cases (session.fingerprint === file_fingerprint file)) [
        | inl same ↦
            let printed = (===_iff session.fingerprint (file_fingerprint file)).0 same in
            let named : some session.upload_id ≡ some id = rw same at h in cc
        | inr other ↦ let nothing = rw other at h in cc
      ]

  create-session :
      (content_type : Text) (w v : World N) (upload : Upload) (items : List (Text × Entry))
      → w.storage ≡ some items
      → create deps file key content_type w ≡ done upload v
      → load_session key v.storage ≡ some (session_of upload.upload_id)
  unfolding create
  create-session content_type w v upload items stored h =
      let (id, u, created, rest) =
        and_then-eq-done (call (deps.create_multipart_upload key content_type) w) _ h in
      let kept =
        ap storage_of
          (back-eq-done w (deps.create_multipart_upload key content_type w.net) id u created).1
        ∙ stored in
      let (made, same) = done-injective rest in
      ap (λ (x : World N). load_session key x.storage) (sym same)
      ∙ ap (λ s. load_session key (save_session key (session_of id) s)) kept
      ∙ load_session-save_session_self key (session_of id) items
      ∙ ap (λ (x : Upload). some (session_of x.upload_id)) made

  create-failed :
      (content_type : Text) (w : World N) (e : Failure) (t : World N)
      → create deps file key content_type w ≡ failed e t
      → t.storage ≡ w.storage
  unfolding create
  create-failed content_type w e t h =
      elim (and_then-eq-failed (call (deps.create_multipart_upload key content_type) w) _ h) [
        | inl refused ↦
            ap storage_of
              (back-eq-failed w (deps.create_multipart_upload key content_type w.net) e t refused).1
        | inr (id, u, created, rest) ↦ cc
      ]

  list_landed-storage :
      (id : Text) (w v : World N) (upload : Upload)
      → list_landed deps file key id w ≡ done upload v
      → (v.storage ≡ w.storage) × (upload.upload_id ≡ id)
  unfolding list_landed
  list_landed-storage id w v upload h =
      let (parts, u, listed, rest) =
        and_then-eq-done (call (deps.list_uploaded_parts key id) w) _ h in
      let (made, same) = done-injective rest in
      (
        sym (ap storage_of same)
            ∙ ap storage_of
                (back-eq-done w (deps.list_uploaded_parts key id w.net) parts u listed).1,
        sym (ap (λ (x : Upload). x.upload_id) made),
      )

  list_landed-failed :
      (id : Text) (w : World N) (e : Failure) (t : World N)
      → list_landed deps file key id w ≡ failed e t
      → t.storage ≡ w.storage
  unfolding list_landed
  list_landed-failed id w e t h =
      elim (and_then-eq-failed (call (deps.list_uploaded_parts key id) w) _ h) [
        | inl refused ↦
            ap storage_of (back-eq-failed w (deps.list_uploaded_parts key id w.net) e t refused).1
        | inr (parts, u, listed, rest) ↦ cc
      ]

  module _ (content_type : Text) (w : World N) (items : List (Text × Entry))
      (stored : w.storage ≡ some items) where
    resume_or_create-session :
        (v : World N) (upload : Upload) (o : Option Text)
        → matching deps file key (load_session key w.storage) ≡ o
        → resume deps file key content_type o w ≡ done upload v
        → load_session key v.storage ≡ some (session_of upload.upload_id)
    unfolding resume
    resume_or_create-session v upload none found h =
        create-session content_type w v upload items stored h
    resume_or_create-session v upload (some id) found h =
        elim (catch-eq-done (list_landed deps file key id w) _ h) [
          | inl resumed ↦
              let (kept, named) = list_landed-storage id w v upload resumed in
              ap (load_session key) kept
              ∙ matching-session (load_session key w.storage) id found
              ∙ ap (λ i. some (session_of i)) (sym named)
          | inr (e, u, lost, restarted) ↦
              create-session content_type u v upload items
                (list_landed-failed id w e u lost ∙ stored) restarted
        ]

    resume_or_create-failed :
        (e : Failure) (t : World N) (o : Option Text)
        → resume deps file key content_type o w ≡ failed e t
        → t.storage ≡ w.storage
    unfolding resume
    resume_or_create-failed e t none h = create-failed content_type w e t h
    resume_or_create-failed e t (some id) h =
        let (c, u, lost, refused) = catch-eq-failed (list_landed deps file key id w) _ h in
        create-failed content_type u e t refused ∙ list_landed-failed id w c u lost

    -- With a storage, an upload that fails has stopped before it had a session of its own and left
    -- the storage as it was, or it leaves a session with this file's fingerprint for the key, or it
    -- was cancelled: then it fails with `UploadCancelledError` and leaves no session for the key.
    pub upload_file_multipart-failed :
        (e : Failure) (t : World N)
        → upload_file_multipart deps file key content_type w ≡ failed e t
        → (t.storage ≡ w.storage)
          ⊎ ((id : Text) × (load_session key t.storage ≡ some (session_of id)))
          ⊎ ((e ≡ upload_cancelled key) × (load_session key t.storage ≡ none))
    unfolding upload_file_multipart resume_or_create_upload
    upload_file_multipart-failed e t h =
        elim (and_then-eq-failed (resume_or_create_upload deps file key content_type w) _ h) [
          | inl refused ↦ inl (resume_or_create-failed e t _ refused)
          | inr (upload, u, begun, rest) ↦
              let session = resume_or_create-session u upload _ refl begun in
              let plan = plan_parts file.size part_size_bytes in
              let id = upload.upload_id in
              elim (and_then-eq-failed
                (upload_parts deps file key id upload.landed (length plan) 0 plan u) _ rest) [
                  | inl broken ↦
                      elim (upload_parts-Untouched deps file key id upload.landed (length plan) plan
                        0 u e t broken) [
                          | inl kept ↦ inr (inl (id, ap (load_session key) kept ∙ session))
                          | inr (cancelled, cleared) ↦ inr (
                              inr (
                                cancelled,
                                ap (load_session key) cleared
                                    ∙ load_session-clear_session_self key u.storage,
                              ))
                        ]
                  | inr (_, v, sent, finishing) ↦
                      let kept =
                        upload_parts-storage deps file key id upload.landed (length plan) plan 0 u v
                          sent in
                      elim (and_then-eq-failed (call (deps.complete_multipart_upload key id) v) _
                        finishing) [
                          | inl refused ↦
                              let same =
                                ap storage_of
                                  (back-eq-failed v (deps.complete_multipart_upload key id v.net) e
                                    t refused).1 in
                              inr (inl (id, ap (load_session key) (same ∙ kept) ∙ session))
                          | inr (_, x, completed, clearing) ↦ cc
                        ]
                ]
        ]
