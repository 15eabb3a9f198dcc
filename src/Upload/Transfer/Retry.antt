-- ===== src/Upload/Transfer/Retry.antt =====
-- How often a part is attempted, and what ends the attempts.
use file_indexer.Prelude.{
  ℕ, zero, suc, ◌+◌, ◌<◌, ◌≡◌, refl, ◌⊎◌, inl, inr, true, false, Text, codes, Failure, done, failed,
  arith, catch-eq-done, catch-eq-failed, Bool-cases, failed-injective, Outcome-cases, subst, sym,
  ◌∙◌,
}
use file_indexer.Upload.Plan.{PartPlan}
use file_indexer.Upload.World.{FileLike, MultipartUploadDeps}
use file_indexer.Upload.Transfer.{failure_text, attempt, give_up, retry, upload_part_with_retry}

module _ {N : Type 0} (deps : MultipartUploadDeps N) (file : FileLike) (key upload_id : Text)
    (part : PartPlan) where
  -- So many attempts in a row that failed with no abort behind them, with the last failure's text.
  pub data Fails (n : N) : ℕ → N → Text → Type 0 where
    none_yet : {m : N} {last : Text} → n ≡ m → Fails n 0 m last
    one_more :
        {k : ℕ} {m t : N} {e : Failure} {before last : Text}
        → Fails n k m before
        → attempt deps file key upload_id part m ≡ failed e t
        → deps.aborted t ≡ false
        → last ≡ failure_text e
        → Fails n (suc k) t last

  -- A part was attempted at most three times, and the last attempt brought it over.
  unfoldable pub Succeeds : N → N → Type 0
  Succeeds n t =
      (k : ℕ) × (m : N) × (last : Text) × (k < 3)
      × Fails n k m last
      × (attempt deps file key upload_id part m ≡ done tt t)

  -- An attempt failed while the signal was aborted, or all three failed.
  unfoldable pub GivesUp : N → Failure → N → Type 0
  GivesUp n e t =
      ((k : ℕ) × (m : N) × (last : Text) × (k < 3)
        × Fails n k m last
        × (attempt deps file key upload_id part m ≡ failed e t)
        × (deps.aborted t ≡ true))
      ⊎ ((last : Text) × Fails n 3 t last × (e ≡ give_up deps file key upload_id part last))

  retry-Succeeds :
      (left k : ℕ) (last : Text) {n m t : N}
      → k + left ≡ 3
      → Fails n k m last
      → retry deps file key upload_id left last part m ≡ done tt t
      → Succeeds n t
  unfolding retry Succeeds
  retry-Succeeds zero k last e fails h = cc
  retry-Succeeds (suc left) k last {n} {m} e fails h =
      elim (catch-eq-done (attempt deps file key upload_id part m) _ h) [
        | inl landed ↦ (k, m, last, omega arith, fails, landed)
        | inr (c, s, missed, rest) ↦ elim (Bool-cases (deps.aborted s)) [
          | inl stop ↦ ground arith
          | inr go ↦
              retry-Succeeds left (suc k) (failure_text c) (omega arith)
                (one_more fails missed go refl) (rw go at rest)
        ]
      ]

  retry-GivesUp :
      (left k : ℕ) (last : Text) {n m t : N} {e : Failure}
      → k + left ≡ 3
      → Fails n k m last
      → retry deps file key upload_id left last part m ≡ failed e t
      → GivesUp n e t
  unfolding retry GivesUp
  retry-GivesUp zero k last {n} {m} q fails h =
      let (same, stays) = failed-injective h in
      let three : k ≡ 3 = omega arith in
      inr (
        last,
        subst (λ x. Fails n 3 x last) stays (subst (λ j. Fails n j m last) three fails),
        sym same,
      )
  retry-GivesUp (suc left) k last {n} {m} q fails h =
      let (c, s, missed, rest) = catch-eq-failed (attempt deps file key upload_id part m) _ h in
      elim (Bool-cases (deps.aborted s)) [
        | inl stop ↦
            let thrown = rw stop at rest in
            let (_, stays) = failed-injective thrown in
            inl (
              k,
              m,
              last,
              omega arith,
              fails,
              missed ∙ thrown,
              subst (λ x. deps.aborted x ≡ true) stays stop,
            )
        | inr go ↦
            retry-GivesUp left (suc k) (failure_text c) (omega arith)
              (one_more fails missed go refl) (rw go at rest)
      ]

  -- When it returns, the last attempt succeeded, after at most two failed ones
  -- that no abort came behind.
  pub upload_part_with_retry-Succeeds :
      (n t : N) → upload_part_with_retry deps file key upload_id part n ≡ done tt t → Succeeds n t
  unfolding upload_part_with_retry
  upload_part_with_retry-Succeeds n t = retry-Succeeds 3 0 (codes "undefined") refl (none_yet refl)

  -- When `uploadPartWithRetry` throws, either its last attempt, of at most three, failed with the
  -- signal aborted and it throws that failure, or three attempts failed with no abort behind them and
  -- it throws the message that names the part, the key and the last failure.
  pub upload_part_with_retry-GivesUp :
      (n : N) (e : Failure) (t : N)
      → upload_part_with_retry deps file key upload_id part n ≡ failed e t
      → GivesUp n e t
  unfolding upload_part_with_retry
  upload_part_with_retry-GivesUp n e t = retry-GivesUp 3 0 (codes "undefined") refl (none_yet refl)

  -- An attempt to bring a part over, and its repetitions, end in one of two ways. Either the part is
  -- uploaded: its last attempt succeeded, after at most two failed ones with no abort behind them. Or it
  -- is given up: an attempt, of at most three, failed with the signal aborted, and its failure is
  -- thrown, or three attempts failed with no abort behind them, and the message that is thrown names the
  -- part, the key and the last failure.
  pub upload_part_with_retry-cases :
      (n : N)
      → ((t : N) × (upload_part_with_retry deps file key upload_id part n ≡ done tt t)
          × Succeeds n t)
        ⊎ ((e : Failure) × (t : N) × (upload_part_with_retry deps file key upload_id part n
              ≡ failed e t)
            × GivesUp n e t)
  upload_part_with_retry-cases n =
      elim (Outcome-cases (upload_part_with_retry deps file key upload_id part n)) [
        | inl (_, t, landed) ↦ inl (t, landed, upload_part_with_retry-Succeeds n t landed)
        | inr (e, t, lost) ↦ inr (e, t, lost, upload_part_with_retry-GivesUp n e t lost)
      ]
