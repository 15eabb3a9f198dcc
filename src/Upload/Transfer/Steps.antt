-- ===== src/Upload/Transfer/Steps.antt =====
-- What the storage service is relied on for, and what each step of an upload leaves with it.
use file_indexer.Prelude.{
  ℕ, zero, suc, ◌-◌, ℤ, pos, ◌≡◌, ◌≢◌, subst, inl, inr, true, false, List, Text, All, length,
  Outcome, done, failed, end_state, Outcome-cases, and_then, throw, and_then-eq-done, catch-eq-done,
  codes, upload_cancelled, Bool-cases, done-injective, Failure,
}
use file_indexer.Prelude.Effects.{◌>>◌}
use file_indexer.Upload.Plan.{PartPlan}
use file_indexer.Upload.World.{
  World, FileLike, UploadedPartInfo, MultipartUploadDeps, call, back-eq-done,
}
use file_indexer.Upload.Transfer.{
  failure_text, has_landed, attempt, retry, upload_part_with_retry, cancel, upload_part, clear,
}
use file_indexer.Upload.Transfer.Retry.{Succeeds, upload_part_with_retry-Succeeds}

-- `Landed n id i k`: in state `n` of the services, the upload `id` has a part `i` of `k` bytes. A
-- successful PUT to a part's URL brings the part over, neither asking for a URL nor a PUT to another
-- part's URL takes a part away, and the listing of an upload shows what has landed.
pub record IsLawful {N : Type 0} (deps : MultipartUploadDeps N) (key : Text)
    (Landed : N → Text → ℕ → ℕ → Type 0) : Type 0 where
  pub put_lands :
      (id : Text) (i : ℕ) (body : List ℕ) (n m t : N) (url : Text)
      → deps.get_upload_part_url key id i n ≡ done url m
      → deps.put_part url body m ≡ done tt t
      → Landed t id i (length body)
  pub url_keeps :
      (id : Text) (i : ℕ) (n : N) (j k : ℕ)
      → Landed n id j k
      → Landed (end_state (deps.get_upload_part_url key id i n)) id j k
  pub put_keeps :
      (id : Text) (i : ℕ) (body : List ℕ) (n m : N) (url : Text) (j k : ℕ)
      → j ≢ i
      → deps.get_upload_part_url key id i n ≡ done url m
      → Landed m id j k
      → Landed (end_state (deps.put_part url body m)) id j k
  pub list_reports :
      (id : Text) (n t : N) (parts : List UploadedPartInfo)
      → deps.list_uploaded_parts key id n ≡ done parts t
      → All
          (λ (p : UploadedPartInfo).
            (i k : ℕ) → p.part_number ≡ pos i → p.size ≡ pos k → Landed t id i k)
          parts

module _ {N : Type 0} (deps : MultipartUploadDeps N) (file : FileLike) (key id : Text) where
  clear-throw-ne-done :
      (o : Outcome (World N) (Unit {0})) (e : Failure) {b : Unit {0}} {t : World N}
      → (and_then {B = Unit {0}} o λ _. (clear deps file key >> throw e)) ≢ done b t
  clear-throw-ne-done (done a s) e h = cc
  clear-throw-ne-done (failed f s) e h = cc

  pub cancel-ne-done : (w t : World N) → cancel deps file key id w ≢ done tt t
  unfolding cancel
  cancel-ne-done w t h =
      clear-throw-ne-done (call (deps.abort_multipart_upload key id) w) (upload_cancelled key) h

  -- A part with no record of its size has been sent when the step returns.
  sent :
      (landed : List (ℤ × ℤ)) (part : PartPlan) (w t : World N)
      → has_landed landed part ≡ false
      → upload_part deps file key id landed part w ≡ done tt t
      → upload_part_with_retry deps file key id part w.net ≡ done tt t.net
  unfolding upload_part
  sent landed part w t missing h =
      elim (catch-eq-done (call (upload_part_with_retry deps file key id part) w) _
        (rw missing at h)) [
          | inl arrived ↦
              (back-eq-done w (upload_part_with_retry deps file key id part w.net) tt t arrived).0
          | inr (e, v, _, after) ↦ elim (Bool-cases (deps.aborted v.net)) [
            | inl stop ↦ absurd (cancel-ne-done v t (rw stop at after))
            | inr go ↦ let thrown = rw go at after in cc
          ]
        ]

  module _ {Landed : N → Text → ℕ → ℕ → Type 0} (lawful : IsLawful deps key Landed) where
    attempt-lands :
        (part : PartPlan) (n t : N)
        → attempt deps file key id part n ≡ done tt t
        → Landed t id part.part_number (length (file.slice part.start part.end))
    unfolding attempt
    attempt-lands part n t h =
        let (url, m, asked, put) =
          and_then-eq-done (deps.get_upload_part_url key id part.part_number n) _ h in
        lawful.put_lands id part.part_number (file.slice part.start part.end) n m t url asked put

    attempt-keeps :
        (part : PartPlan) (n : N) (j k : ℕ)
        → j ≢ part.part_number
        → Landed n id j k
        → Landed (end_state (attempt deps file key id part n)) id j k
    unfolding attempt
    attempt-keeps part n j k other l =
        let still = lawful.url_keeps id part.part_number n j k l in
        elim (Outcome-cases (deps.get_upload_part_url key id part.part_number n)) [
          | inl (url, m, asked) ↦ rw asked (
              lawful.put_keeps id part.part_number (file.slice part.start part.end) n m url j k
                other asked (rw asked at still))
          | inr (e, m, refused) ↦ rw refused (rw refused at still)
        ]

    retry-keeps :
        (left : ℕ) (last : Text) (part : PartPlan) (n : N) (j k : ℕ)
        → j ≢ part.part_number
        → Landed n id j k
        → Landed (end_state (retry deps file key id left last part n)) id j k
    unfolding retry
    retry-keeps zero last part n j k other l = l
    retry-keeps (suc left) last part n j k other l =
        let still = attempt-keeps part n j k other l in
        elim (Outcome-cases (attempt deps file key id part n)) [
          | inl (a, m, arrived) ↦ rw arrived (rw arrived at still)
          | inr (e, m, missed) ↦ elim (Bool-cases (deps.aborted m)) [
            | inl stop ↦ rw (missed, stop) (rw missed at still)
            | inr go ↦
                rw (missed, go)
                  (retry-keeps left (failure_text e) part m j k other (rw missed at still))
          ]
        ]

    upload_part_with_retry-keeps :
        (part : PartPlan) (n : N) (j k : ℕ)
        → j ≢ part.part_number
        → Landed n id j k
        → Landed (end_state (upload_part_with_retry deps file key id part n)) id j k
    unfolding upload_part_with_retry
    upload_part_with_retry-keeps part n j k = retry-keeps 3 (codes "undefined") part n j k

    -- A part with the right size on record is there; another is there once it has been brought over.
    pub upload_part-lands :
        (landed : List (ℤ × ℤ)) (part : PartPlan) (w t : World N)
        → length (file.slice part.start part.end) ≡ part.end - part.start
        → (has_landed landed part ≡ true → Landed w.net id part.part_number (part.end - part.start))
        → upload_part deps file key id landed part w ≡ done tt t
        → Landed t.net id part.part_number (part.end - part.start)
    unfolding upload_part Succeeds
    upload_part-lands landed part w t size recorded h = elim (Bool-cases (has_landed landed part)) [
      | inl there ↦
          let (_, same) = done-injective (rw there at h) in
          subst (λ (v : World N). Landed v.net id part.part_number (part.end - part.start)) same
            (recorded there)
      | inr missing ↦
          let (_, m, _, _, _, arrived) =
            upload_part_with_retry-Succeeds deps file key id part w.net t.net
              (sent landed part w t missing h) in
          subst (λ k. Landed t.net id part.part_number k) size (attempt-lands part m t.net arrived)
    ]

    pub upload_part-keeps :
        (landed : List (ℤ × ℤ)) (part : PartPlan) (w t : World N) (j k : ℕ)
        → j ≢ part.part_number
        → Landed w.net id j k
        → upload_part deps file key id landed part w ≡ done tt t
        → Landed t.net id j k
    unfolding upload_part
    upload_part-keeps landed part w t j k other l h = elim (Bool-cases (has_landed landed part)) [
      | inl there ↦
          let (_, same) = done-injective (rw there at h) in
          subst (λ (v : World N). Landed v.net id j k) same l
      | inr missing ↦
          subst (λ (o : Outcome N (Unit {0})). Landed (end_state o) id j k)
            (sent landed part w t missing h) (upload_part_with_retry-keeps part w.net j k other l)
    ]
