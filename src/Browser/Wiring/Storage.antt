-- ===== src/Browser/Wiring/Storage.antt =====
-- What a browser's upload relies on, from what the files service and the bucket are relied on for.
use file_indexer.Prelude.{
  ℕ, ◌<◌, pos, ◌≡◌, ◌≢◌, refl, sym, ◌∙◌, ap, subst, ◌⊎◌, inl, inr, Bool, true, List, [], ◌∷◌, map,
  All, Text, codes, length, Result, Failure, Outcome, done, failed, end_state, Outcome-cases,
  and_then, and_then-eq-done, done-injective, Bool-cases, Eff, ◌===◌,
}
use file_indexer.Js.Value.{get}
use file_indexer.Js.Number.{exact_limit, to_number}
use file_indexer.Js.Number.Laws.{round-exact}
use file_indexer.Server.Types.{Timestamp}
use file_indexer.Server.Services.{SearchClient, FilesClient, UploadedPart}
use file_indexer.Server.Validate.{
  require_text, require_integer, validate_upload_part_url_input, validate_upload_id_input,
}
use file_indexer.Server.Calls.{get_upload_part_url_impl, list_uploaded_parts_impl}
use file_indexer.Server.Functions.{get_upload_part_url, list_uploaded_parts}
use file_indexer.Upload.World.{UploadedPartInfo, MultipartUploadDeps}
use file_indexer.Upload.Transfer.Steps.{IsLawful}
use file_indexer.Browser.Wiring.{
  Response, check_response, put_part, list_part_infos, multipart_deps,
}
use file_indexer.Browser.Wiring.Requests.{to_info, regroup, upload_server}

-- `Landed n id i k`, as for an upload's calls: in state `n`, the upload `id` has a part `i` of `k`
-- bytes. A PUT to a part's URL that is answered with success brings the part over; neither asking for
-- a URL nor a PUT to another part's URL takes a part away; the service lists what has landed, in parts
-- of less than 2^53 bytes.
pub record IsStorage {S : Type 0} (files : FilesClient S)
    (fetch_part : Text → List ℕ → Eff S Response) (key : Text) (Landed : S → Text → ℕ → ℕ → Type 0)
    : Type 0 where
  pub put_lands :
      (id : Text) (i : ℕ) (body : List ℕ) (n m t : S) (url : Text) (res : Response)
      → files.get_upload_part_url key id (pos i) n ≡ done url m
      → fetch_part url body m ≡ done res t
      → res.ok ≡ true
      → Landed t id i (length body)
  pub url_keeps :
      (id : Text) (i : ℕ) (n : S) (j k : ℕ)
      → Landed n id j k
      → Landed (end_state (files.get_upload_part_url key id (pos i) n)) id j k
  pub put_keeps :
      (id : Text) (i : ℕ) (body : List ℕ) (n m : S) (url : Text) (j k : ℕ)
      → j ≢ i
      → files.get_upload_part_url key id (pos i) n ≡ done url m
      → Landed m id j k
      → Landed (end_state (fetch_part url body m)) id j k
  pub list_reports :
      (id : Text) (n t : S) (parts : List UploadedPart)
      → files.list_uploaded_parts key id n ≡ done parts t
      → All
          (λ (p : UploadedPart).
            (k : ℕ) × (p.size ≡ pos k)
            × (k < exact_limit)
            × ((i : ℕ) → p.part_number ≡ pos i → Landed t id i k))
          parts

pub check-eq-done :
    {S : Type 0} (message : Text) (res : Response) {s t : S}
    → check_response message res s ≡ done tt t
    → (res.ok ≡ true) × (s ≡ t)
check-eq-done message res h = elim (Bool-cases res.ok) [
  | inl fine ↦ (fine, (done-injective (rw fine at h)).1)
  | inr bad ↦ let thrown = rw bad at h in cc
]

end_state-check :
    {S : Type 0} (message : Text) (res : Response) (s : S)
    → end_state (check_response message res s) ≡ s
end_state-check message res s = elim (Bool-cases res.ok) [
  | inl fine ↦ rw fine refl
  | inr bad ↦ rw bad refl
]

module _ {S : Type 0} (search : SearchClient S) (files : FilesClient S)
    (to_iso_string : Timestamp → Result Text) (fetch_part : Text → List ℕ → Eff S Response)
    (aborted : S → Bool) (key : Text) where
  abbrev deps : MultipartUploadDeps S
  deps = multipart_deps (upload_server search files to_iso_string) fetch_part aborted

  -- A request for a part's URL is refused, or is the service's.
  url-cases :
      (k id : Text) (i : ℕ) (s : S)
      → ((e : Failure) × (deps.get_upload_part_url k id i s ≡ failed e s))
        ⊎ (deps.get_upload_part_url k id i s ≡ files.get_upload_part_url k id (pos i) s)
  unfolding get_upload_part_url get_upload_part_url_impl validate_upload_part_url_input require_text
      require_integer get ◌===◌
  url-cases [] id i s = inl (_, refl)
  url-cases (c ∷ k) [] i s = inl (_, refl)
  url-cases (c ∷ k) (d ∷ id) i s = inr refl

  list-cases :
      (k id : Text) (s : S)
      → ((e : Failure) × (deps.list_uploaded_parts k id s ≡ failed e s))
        ⊎ (deps.list_uploaded_parts k id s
            ≡ and_then (files.list_uploaded_parts k id s) λ ps t. done (map to_info ps) t)
  unfolding list_uploaded_parts list_uploaded_parts_impl validate_upload_id_input list_part_infos
      require_text get ◌===◌
  list-cases [] id s = inl (_, refl)
  list-cases (c ∷ k) [] s = inl (_, refl)
  list-cases (c ∷ k) (d ∷ id) s = inr (regroup (files.list_uploaded_parts (c ∷ k) (d ∷ id) s))

  module _ {Landed : S → Text → ℕ → ℕ → Type 0}
      (storage : IsStorage files fetch_part key Landed) where
    asked :
        (id : Text) (i : ℕ) (n m : S) (url : Text)
        → deps.get_upload_part_url key id i n ≡ done url m
        → files.get_upload_part_url key id (pos i) n ≡ done url m
    asked id i n m url h = elim (url-cases key id i n) [
      | inl (e, refused) ↦ cc
      | inr same ↦ sym same ∙ h
    ]

    url-keeps :
        (id : Text) (i : ℕ) (n : S) (j k : ℕ)
        → Landed n id j k
        → Landed (end_state (deps.get_upload_part_url key id i n)) id j k
    url-keeps id i n j k l = elim (url-cases key id i n) [
      | inl (e, refused) ↦
          subst (λ (o : Outcome S Text). Landed (end_state o) id j k) (sym refused) l
      | inr same ↦
          subst (λ (o : Outcome S Text). Landed (end_state o) id j k) (sym same)
            (storage.url_keeps id i n j k l)
    ]

    put_part-lands :
        (id : Text) (i : ℕ) (body : List ℕ) (n m t : S) (url : Text)
        → deps.get_upload_part_url key id i n ≡ done url m
        → deps.put_part url body m ≡ done tt t
        → Landed t id i (length body)
    unfolding put_part
    put_part-lands id i body n m t url h put =
        let (res, v, answered, checked) = and_then-eq-done (fetch_part url body m) _ put in
        let (fine, same) = check-eq-done (codes "part upload failed") res checked in
        storage.put_lands id i body n m t url res (asked id i n m url h)
          (answered ∙ ap (λ x. done res x) same) fine

    put_part-keeps :
        (id : Text) (i : ℕ) (body : List ℕ) (n m : S) (url : Text) (j k : ℕ)
        → j ≢ i
        → deps.get_upload_part_url key id i n ≡ done url m
        → Landed m id j k
        → Landed (end_state (deps.put_part url body m)) id j k
    unfolding put_part
    put_part-keeps id i body n m url j k other h l =
        let still = storage.put_keeps id i body n m url j k other (asked id i n m url h) l in
        elim (Outcome-cases (fetch_part url body m)) [
          | inl (res, v, answered) ↦ rw answered (
              subst (λ x. Landed x id j k)
                (sym (end_state-check (codes "part upload failed") res v)) (rw answered at still))
          | inr (e, v, lost) ↦ rw lost (rw lost at still)
        ]

    infos-report :
        (id : Text) (t : S) (ps : List UploadedPart)
        → All
            (λ (p : UploadedPart).
              (k : ℕ) × (p.size ≡ pos k)
              × (k < exact_limit)
              × ((i : ℕ) → p.part_number ≡ pos i → Landed t id i k))
            ps
        → All
            (λ (p : UploadedPartInfo).
              (i k : ℕ) → p.part_number ≡ pos i → p.size ≡ pos k → Landed t id i k)
            (map to_info ps)
    unfolding to_number
    infos-report id t [] h = tt
    infos-report id t (p ∷ ps) ((k, size, small, there), h) = (
      (λ i j numbered sized.
          let shown : pos k ≡ pos j =
            ap pos (sym (round-exact k small)) ∙ sym (ap to_number size) ∙ sized in
          let e : k ≡ j = cc in subst (λ x. Landed t id i x) e (there i numbered)),
      infos-report id t ps h,
    )

    list-reports :
        (id : Text) (n t : S) (parts : List UploadedPartInfo)
        → deps.list_uploaded_parts key id n ≡ done parts t
        → All
            (λ (p : UploadedPartInfo).
              (i k : ℕ) → p.part_number ≡ pos i → p.size ≡ pos k → Landed t id i k)
            parts
    list-reports id n t parts h = elim (list-cases key id n) [
      | inl (e, refused) ↦ cc
      | inr same ↦
          let (ps, v, listed, given) =
            and_then-eq-done (files.list_uploaded_parts key id n) _ (sym same ∙ h) in
          let (made, stays) = done-injective given in
          subst
            (λ infos.
              All
                (λ (p : UploadedPartInfo).
                  (i k : ℕ) → p.part_number ≡ pos i → p.size ≡ pos k → Landed t id i k)
                infos)
            made
            (infos-report id t ps
              (storage.list_reports id n t ps (listed ∙ ap (λ x. done ps x) stays)))
    ]

    -- Where the files service and the bucket are as relied on, the calls that the browser wires up, with
    -- the server functions and their validators between, are what an upload relies on: the theorems on
    -- uploads hold of the browser's.
    pub multipart_deps-IsLawful : IsLawful deps key Landed
    multipart_deps-IsLawful = record {
      put_lands = put_part-lands;
      url_keeps = url-keeps;
      put_keeps = put_part-keeps;
      list_reports = list-reports;
    }
