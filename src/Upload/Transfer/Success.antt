-- ===== src/Upload/Transfer/Success.antt =====
-- An upload against services that answer comes to its end.
use file_indexer.Prelude.{
  ℕ, ◌+◌, ℤ, ◌≡◌, refl, sym, ◌∙◌, ap, inl, inr, false, Option, none, some, List, [], ◌∷◌, ◌++◌,
  append-nil, append_assoc, length, Text, Outcome, done, end_state, Outcome-cases, Bool-cases,
}
use file_indexer.Upload.Plan.{PartPlan, part_size_bytes, plan_parts}
use file_indexer.Upload.World.{World, FileLike, MultipartUploadDeps}
use file_indexer.Upload.Session.{
  StoredSession, file_fingerprint, load_session, save_session, clear_session,
}
use file_indexer.Upload.Session.Laws.{load_session-clear_session_self}
use file_indexer.Upload.Transfer.{
  Upload, has_landed, landed_of, attempt, retry, upload_part_with_retry, upload_part, upload_parts,
  create, list_landed, matching, resume, resume_or_create_upload, upload_file_multipart,
}

-- In a healthy state the signal is not aborted, and each call but the listing of parts is answered,
-- which leaves a healthy state; the listing may fail, but leaves one too.
pub record IsAnswering {N : Type 0} (deps : MultipartUploadDeps N) (key : Text)
    (Healthy : N → Type 0) : Type 0 where
  pub goes_on : (n : N) → Healthy n → deps.aborted n ≡ false
  pub creates :
      (content_type : Text) (n : N)
      → Healthy n
      → (id : Text) × (t : N) × (deps.create_multipart_upload key content_type n ≡ done id t)
        × Healthy t
  pub lists :
      (id : Text) (n : N) → Healthy n → Healthy (end_state (deps.list_uploaded_parts key id n))
  pub gives_url :
      (id : Text) (i : ℕ) (n : N)
      → Healthy n
      → (url : Text) × (t : N) × (deps.get_upload_part_url key id i n ≡ done url t) × Healthy t
  pub puts :
      (url : Text) (body : List ℕ) (n : N)
      → Healthy n
      → (t : N) × (deps.put_part url body n ≡ done tt t) × Healthy t
  pub completes :
      (id : Text) (n : N)
      → Healthy n
      → (t : N) × (deps.complete_multipart_upload key id n ≡ done tt t) × Healthy t

-- The calls of `onProgress` for parts: each number behind, of the total.
abbrev pub reports : ℕ → ℕ → List PartPlan → List (ℕ × ℕ)
reports total completed [] = []
reports total completed (p ∷ parts) = (completed + 1, total) ∷ reports total (completed + 1) parts

module _ {N : Type 0} (deps : MultipartUploadDeps N) (file : FileLike) (key : Text)
    {Healthy : N → Type 0} (answering : IsAnswering deps key Healthy) where
  module _ (id : Text) where
    attempt-done :
        (part : PartPlan) (n : N)
        → Healthy n
        → (t : N) × (attempt deps file key id part n ≡ done tt t) × Healthy t
    unfolding attempt
    attempt-done part n h =
        let (url, m, asked, hm) = answering.gives_url id part.part_number n h in
        let (t, sent, ht) = answering.puts url (file.slice part.start part.end) m hm in
        (t, rw (asked, sent) refl, ht)

    upload_part_with_retry-done :
        (part : PartPlan) (n : N)
        → Healthy n
        → (t : N) × (upload_part_with_retry deps file key id part n ≡ done tt t) × Healthy t
    unfolding upload_part_with_retry retry
    upload_part_with_retry-done part n h =
        let (t, sent, ht) = attempt-done part n h in (t, rw sent refl, ht)

    upload_part-done :
        (landed : List (ℤ × ℤ)) (part : PartPlan) (w : World N)
        → Healthy w.net
        → (t : N) × (upload_part deps file key id landed part w ≡ done tt (record w { net = t }))
          × Healthy t
    unfolding upload_part
    upload_part-done landed part w h = elim (Bool-cases (has_landed landed part)) [
      | inl there ↦ (w.net, rw there refl, h)
      | inr missing ↦
          let (t, sent, ht) = upload_part_with_retry-done part w.net h in
          (t, rw (missing, sent) refl, ht)
    ]

    upload_parts-done :
        (landed : List (ℤ × ℤ)) (total completed : ℕ) (parts : List PartPlan) (w : World N)
        → Healthy w.net
        → (t : N) × (upload_parts deps file key id landed total completed parts w
            ≡ done tt
                (record w { net = t; progress = w.progress ++ reports total completed parts }))
          × Healthy t
    unfolding upload_parts
    upload_parts-done landed total completed [] w h =
        (w.net, ap (λ p. done tt (record w { progress = p })) (sym (append-nil w.progress)), h)
    upload_parts-done landed total completed (part ∷ parts) w h =
        let (n, sent, hn) = upload_part-done landed part w h in
        let (t, rest, ht) =
          upload_parts-done landed total (completed + 1) parts
            (record w { net = n; progress = w.progress ++ (completed + 1, total) ∷ [] }) hn in
        (
          t,
          rw (answering.goes_on w.net h, sent)
              (rest
                ∙ ap (λ p. done tt (record w { net = t; progress = p }))
                    (append_assoc w.progress ((completed + 1, total) ∷ [])
                      (reports total (completed + 1) parts))),
          ht,
        )

  module _ (content_type : Text) where
    Begun : World N → Outcome (World N) Upload → Type 0
    Begun w o =
        (upload : Upload) × (v : World N) × (o ≡ done upload v)
        × (v.progress ≡ w.progress)
        × Healthy v.net

    create-done : (w : World N) → Healthy w.net → Begun w (create deps file key content_type w)
    unfolding create Begun
    create-done w h =
        let (id, n, made, hn) = answering.creates content_type w.net h in
        let session : StoredSession = record {
          upload_id = id;
          fingerprint = file_fingerprint file;
        } in
        (
          record { upload_id = id; landed = [] },
          record w { net = n; storage = save_session key session w.storage },
          rw made refl,
          refl,
          hn,
        )

    resume-done :
        (o : Option Text) (w : World N)
        → Healthy w.net
        → Begun w (resume deps file key content_type o w)
    unfolding resume list_landed Begun
    resume-done none w h = create-done w h
    resume-done (some id) w h =
        let healthy = answering.lists id w.net h in
        elim (Outcome-cases (deps.list_uploaded_parts key id w.net)) [
          | inl (parts, n, listed) ↦ (
            record { upload_id = id; landed = landed_of parts },
            record w { net = n },
            rw listed refl,
            refl,
            (rw listed at healthy),
          )
          | inr (e, n, lost) ↦
              let (upload, v, made, same, hv) =
                create-done (record w { net = n }) (rw lost at healthy) in
              (upload, v, rw lost made, same, hv)
        ]

    -- From a healthy state of services that answer, an upload returns, whatever session is stored, also
    -- where the listing of its parts fails; it has reported every planned part in order, and has left
    -- no session for the key.
    pub upload_file_multipart-done :
        (w : World N)
        → Healthy w.net
        → (t : World N) × (upload_file_multipart deps file key content_type w ≡ done tt t)
          × (t.progress
              ≡ w.progress
                ++ reports
                    (length (plan_parts file.size part_size_bytes))
                    0
                    (plan_parts file.size part_size_bytes))
          × (load_session key t.storage ≡ none)
    unfolding upload_file_multipart resume_or_create_upload Begun
    upload_file_multipart-done w h =
        let plan = plan_parts file.size part_size_bytes in
        let (upload, u, begun, same, hu) =
          resume-done (matching deps file key (load_session key w.storage)) w h in
        let (n, sent, hn) =
          upload_parts-done upload.upload_id upload.landed (length plan) 0 plan u hu in
        let (x, completed, _) = answering.completes upload.upload_id n hn in
        (
          record u {
            net = x;
            progress = u.progress ++ reports (length plan) 0 plan;
            storage = clear_session key u.storage;
          },
          rw (begun, sent, completed) refl,
          ap (λ p. p ++ reports (length plan) 0 plan) same,
          load_session-clear_session_self key u.storage,
        )
