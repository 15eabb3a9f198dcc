-- ===== src/Upload/World.antt =====
-- What an upload reads and changes: the browser's storage, the services behind its calls, and the
-- calls of `onProgress`.
use file_indexer.Prelude.{
  ℕ, ℤ, ◌≡◌, ap, Bool, Option, List, Text, Failure, Eff, Outcome, done, failed, done-injective,
  failed-injective,
}
use file_indexer.Js.Value.{Value}

-- A stored text, as what `JSON.parse` reads from it; `corrupt` where that throws.
pub data Entry : Type 0 where
  corrupt : Entry
  parsed : Value → Entry

-- `localStorage`. It is `none` where `typeof localStorage` is undefined.
abbrev pub Storage : Type 0
Storage = Option (List (Text × Entry))

pub record World (N : Type 0) : Type 0 where
  pub storage : Storage
  pub net : N
  pub progress : List (ℕ × ℕ)

pub record FileLike : Type 0 where
  pub name : Text
  pub size : ℕ
  pub last_modified : ℕ
  pub slice : ℕ → ℕ → List ℕ

pub record UploadedPartInfo : Type 0 where
  pub part_number : ℤ
  pub size : ℤ

-- `MultipartUploadDeps`: calls of the server functions, and `fetch` for `putPart`. Whether the
-- signal has been aborted is read from the same state, which each call may change.
pub record MultipartUploadDeps (N : Type 0) : Type 0 where
  pub create_multipart_upload : Text → Text → Eff N Text
  pub get_upload_part_url : Text → Text → ℕ → Eff N Text
  pub list_uploaded_parts : Text → Text → Eff N (List UploadedPartInfo)
  pub complete_multipart_upload : Text → Text → Eff N (Unit {0})
  pub abort_multipart_upload : Text → Text → Eff N (Unit {0})
  pub put_part : Text → List ℕ → Eff N (Unit {0})
  pub aborted : N → Bool

abbrev pub back {ℓ} : {N : Type 0} {A : Type ℓ} → World N → Outcome N A → Outcome (World N) A
back w (done a n) = done a (record w { net = n })
back w (failed e n) = failed e (record w { net = n })

-- A call leaves the storage and the progress alone.
abbrev pub call {ℓ} : {N : Type 0} {A : Type ℓ} → Eff N A → Eff (World N) A
call m w = back w (m w.net)

module _ {ℓ} {N : Type 0} {A : Type ℓ} where
  pub back-eq-done :
      (w : World N) (o : Outcome N A) (a : A) (t : World N)
      → back w o ≡ done a t
      → (o ≡ done a t.net) × (t ≡ record w { net = t.net })
  back-eq-done w (done b n) a t h =
      let (e, same) = done-injective h in
      let here : n ≡ t.net = ap (λ (v : World N). v.net) same in (cc, cc)
  back-eq-done w (failed e n) a t h = cc

  pub back-eq-failed :
      (w : World N) (o : Outcome N A) (e : Failure) (t : World N)
      → back w o ≡ failed e t
      → (o ≡ failed e t.net) × (t ≡ record w { net = t.net })
  back-eq-failed w (failed f n) e t h =
      let (same_failure, same) = failed-injective h in
      let here : n ≡ t.net = ap (λ (v : World N). v.net) same in (cc, cc)
  back-eq-failed w (done a n) e t h = cc
