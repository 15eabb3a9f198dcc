-- ===== src/Upload/Transfer.antt =====
-- `uploadFileMultipart` and the functions that it is made of.
pub mod Retry
pub mod Steps
pub mod Completion
pub mod Leftovers
pub mod Resumption
pub mod Success
use file_indexer.Prelude.{
  ℕ, zero, suc, ◌+◌, ◌-◌, ℤ, pos, ◌≡◌, Bool, true, false, Option, none, some, List, [], ◌∷◌, ◌++◌,
  map, Text, codes, ◌===◌, int_eq, length, if◌then◌else◌, Failure, error, upload_cancelled,
  syntax_error, range_error, rejected, Eff, done, pure, throw, try_catch,
}
use file_indexer.Prelude.Effects.{◌>>=◌, ◌>>◌}
use file_indexer.Js.Decimal.{decimal}
use file_indexer.Js.Dictionary.{map_get, map_of}
use file_indexer.Upload.Plan.{PartPlan, part_size_bytes, plan_parts}
use file_indexer.Upload.World.{World, FileLike, UploadedPartInfo, MultipartUploadDeps, call}
use file_indexer.Upload.Session.{
  StoredSession, file_fingerprint, load_session, save_session, clear_session,
}

-- `String(err)`
abbrev pub failure_text : Failure → Text
failure_text (error message) = codes "Error: " ++ message
failure_text (upload_cancelled key) =
    codes "UploadCancelledError: upload of " ++ key ++ codes " was cancelled"
failure_text syntax_error = codes "SyntaxError"
failure_text range_error = codes "RangeError"
failure_text (rejected reason) = reason

-- An upload id with the sizes of the parts that the storage service has for it.
pub record Upload : Type 0 where
  pub upload_id : Text
  pub landed : List (ℤ × ℤ)

abbrev pub landed_of : List UploadedPartInfo → List (ℤ × ℤ)
landed_of parts = map_of int_eq (map (λ (p : UploadedPartInfo). (p.part_number, p.size)) parts)

-- Whether a part of this size is on record under this number.
abbrev pub has_landed : List (ℤ × ℤ) → PartPlan → Bool
has_landed landed part = elim (map_get int_eq landed (pos part.part_number)) [
  | none ↦ false
  | some size ↦ int_eq size (pos (part.end - part.start))
]

module _ {N : Type 0} (deps : MultipartUploadDeps N) (file : FileLike) (key : Text) where
  abbrev pub save : Text → Eff (World N) (Unit {0})
  save upload_id w = done tt (record w {
    storage =
        save_session key (record { upload_id = upload_id; fingerprint = file_fingerprint file })
          w.storage;
  })

  abbrev pub clear : Eff (World N) (Unit {0})
  clear w = done tt (record w { storage = clear_session key w.storage })

  abbrev pub notify : ℕ → ℕ → Eff (World N) (Unit {0})
  notify completed total w = done tt (record w { progress = w.progress ++ (completed, total) ∷ [] })

  unfoldable pub create : Text → Eff (World N) Upload
  create content_type = do
    upload_id ← call (deps.create_multipart_upload key content_type)
    save upload_id
    pure (record { upload_id = upload_id; landed = [] })

  -- The session that is on record for this file, if it is.
  unfoldable pub matching : Option StoredSession → Option Text
  matching none = none
  matching (some session) =
      if session.fingerprint === file_fingerprint file then some session.upload_id else none

  unfoldable pub list_landed : Text → Eff (World N) Upload
  list_landed upload_id = do
    parts ← call (deps.list_uploaded_parts key upload_id)
    pure (record { upload_id = upload_id; landed = landed_of parts })

  unfoldable pub resume : Text → Option Text → Eff (World N) Upload
  resume content_type none = create content_type
  resume content_type (some upload_id) = try_catch (list_landed upload_id) λ _. create content_type

  unfoldable pub resume_or_create_upload : Text → Eff (World N) Upload
  resume_or_create_upload content_type w =
      resume content_type (matching (load_session key w.storage)) w

  module _ (upload_id : Text) where
    -- One attempt at a part: a fresh URL, and a PUT of the part's bytes to it.
    unfoldable pub attempt : PartPlan → Eff N (Unit {0})
    attempt part = do
      url ← deps.get_upload_part_url key upload_id part.part_number
      deps.put_part url (file.slice part.start part.end)

    abbrev pub give_up : PartPlan → Text → Failure
    give_up part last = error (
        codes "part "
        ++ decimal part.part_number
        ++ codes " of "
        ++ key
        ++ codes " failed after 3 attempts: "
        ++ last)

    -- The attempts that are left, and the text of the last failure.
    unfoldable pub retry : ℕ → Text → PartPlan → Eff N (Unit {0})
    retry zero last part = throw (give_up part last)
    retry (suc left) last part =
        try_catch (attempt part)
          λ err n. if deps.aborted n then throw err n else retry left (failure_text err) part n

    unfoldable pub upload_part_with_retry : PartPlan → Eff N (Unit {0})
    upload_part_with_retry part = retry 3 (codes "undefined") part

    unfoldable pub cancel : Eff (World N) (Unit {0})
    cancel = do
      call (deps.abort_multipart_upload key upload_id)
      clear
      throw (upload_cancelled key)

    -- `if (landed.get(…) !== …) { try { … } catch (err) { … } }`
    unfoldable pub upload_part : List (ℤ × ℤ) → PartPlan → Eff (World N) (Unit {0})
    upload_part landed part =
        if has_landed landed part
        then pure tt
        else try_catch (call (upload_part_with_retry part))
            λ err w. if deps.aborted w.net then cancel w else throw err w

    -- The loop over the plan, with the number of parts behind it.
    unfoldable pub upload_parts : List (ℤ × ℤ) → ℕ → ℕ → List PartPlan → Eff (World N) (Unit {0})
    upload_parts landed total completed [] = pure tt
    upload_parts landed total completed (part ∷ parts) = λ w.
        if deps.aborted w.net
        then cancel w
        else (do
          upload_part landed part
          notify (completed + 1) total
          upload_parts landed total (completed + 1) parts)
            w

  unfoldable pub upload_file_multipart : Text → Eff (World N) (Unit {0})
  upload_file_multipart content_type = do
    upload ← resume_or_create_upload content_type
    let plan = plan_parts file.size part_size_bytes
    upload_parts upload.upload_id upload.landed (length plan) 0 plan
    call (deps.complete_multipart_upload key upload.upload_id)
    clear
