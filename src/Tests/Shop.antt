-- ===== src/Tests/Shop.antt =====
-- A small storage service for uploads, and what it is relied on for.
use file_indexer.Prelude.{
  ℕ, pos, zero, suc, ◌≡◌, refl, ◌⊎◌, inl, inr, Bool, false, List, [], ◌∷◌, map, All, Text, codes,
  length, rejected, done, failed, done-injective, subst, end_state, Eff,
}
use file_indexer.Upload.World.{UploadedPartInfo, MultipartUploadDeps}
use file_indexer.Upload.Transfer.Steps.{IsLawful}
use file_indexer.Upload.Transfer.Success.{IsAnswering}

-- The parts that have arrived with their sizes, the PUTs that will fail first, and the signal.
pub record Shop : Type 0 where
  pub parts : List (ℕ × ℕ)
  pub faults : ℕ
  pub stopped : Bool

abbrev pub number_of : Text → ℕ
number_of [] = 0
number_of (i ∷ _) = i

abbrev pub put : ℕ → Text → List ℕ → Eff Shop (Unit {0})
put zero url body s = done tt (record s { parts = (number_of url, length body) ∷ s.parts })
put (suc n) url body s = failed (rejected (codes "offline")) (record s { faults = n })

abbrev pub to_info : ℕ × ℕ → UploadedPartInfo
to_info (i, k) = record { part_number = pos i; size = pos k }

-- A part's URL is the number of the part.
abbrev pub shop : MultipartUploadDeps Shop
shop = record {
  create_multipart_upload = λ key content_type s. done (codes "u1") s;
  get_upload_part_url = λ key id i s. done (i ∷ []) s;
  list_uploaded_parts = λ key id s. done (map to_info s.parts) s;
  complete_multipart_upload = λ key id s. done tt s;
  abort_multipart_upload = λ key id s. done tt (record s { parts = [] });
  put_part = λ url body s. put s.faults url body s;
  aborted = λ s. s.stopped;
}

abbrev pub Arrived : List (ℕ × ℕ) → ℕ → ℕ → Type 0
Arrived [] i k = ⊥
Arrived ((a, b) ∷ parts) i k = ((a ≡ i) × (b ≡ k)) ⊎ Arrived parts i k

abbrev pub Landed : Shop → Text → ℕ → ℕ → Type 0
Landed s id i k = Arrived s.parts i k

put-Arrived :
    (n : ℕ) (i : ℕ) (body : List ℕ) (s t : Shop)
    → put n (i ∷ []) body s ≡ done tt t
    → Arrived t.parts i (length body)
put-Arrived zero i body s t h =
    let (_, same) = done-injective h in
    subst (λ (x : Shop). Arrived x.parts i (length body)) same (inl (refl, refl))
put-Arrived (suc n) i body s t h = cc

put-keeps :
    (n i : ℕ) (body : List ℕ) (s : Shop) (j k : ℕ)
    → Arrived s.parts j k
    → Arrived (end_state (put n (i ∷ []) body s)).parts j k
put-keeps zero i body s j k h = inr h
put-keeps (suc n) i body s j k h = h

Arrived-listing :
    (parts here : List (ℕ × ℕ))
    → ((i k : ℕ) → Arrived here i k → Arrived parts i k)
    → All
        (λ (p : UploadedPartInfo).
          (i k : ℕ) → p.part_number ≡ pos i → p.size ≡ pos k → Arrived parts i k)
        (map to_info here)
Arrived-listing parts [] all_in = tt
Arrived-listing parts ((a, b) ∷ here) all_in = (
  (λ i k number size. all_in i k (inl (cc, cc))),
  Arrived-listing parts here λ i k h. all_in i k (inr h),
)

pub shop-IsLawful : (key : Text) → IsLawful shop key Landed
shop-IsLawful key = record {
  put_lands = λ id i body n m t url asked sent.
      let e : url ≡ i ∷ [] = cc in
      let put_there : put m.faults (i ∷ []) body m ≡ done tt t =
        subst (λ u. put m.faults u body m ≡ done tt t) e sent in
      put-Arrived m.faults i body m t put_there;
  url_keeps = λ id i n j k l. l;
  put_keeps = λ id i body n m url j k other asked l.
      let e : i ∷ [] ≡ url = cc in
      subst (λ u. Arrived (end_state (put m.faults u body m)).parts j k) e
        (put-keeps m.faults i body m j k l);
  list_reports = λ id n t parts listed.
      let (e, same) = done-injective listed in
      subst
        (λ ps.
          All
            (λ (p : UploadedPartInfo).
              (i k : ℕ) → p.part_number ≡ pos i → p.size ≡ pos k → Landed t id i k)
            ps)
        e
        (subst
          (λ (x : Shop).
            All
              (λ (p : UploadedPartInfo).
                (i k : ℕ) → p.part_number ≡ pos i → p.size ≡ pos k → Landed x id i k)
              (map to_info n.parts))
          same (Arrived-listing n.parts n.parts λ i k h. h));
}

-- Without faults to come and with nobody to stop it, the shop answers.
abbrev pub Open : Shop → Type 0
Open s = (s.faults ≡ 0) × (s.stopped ≡ false)

pub shop-IsAnswering : (key : Text) → IsAnswering shop key Open
shop-IsAnswering key = record {
  goes_on = λ n h. h.1;
  creates = λ content_type n h. (codes "u1", n, refl, h);
  lists = λ id n h. h;
  gives_url = λ id i n h. (i ∷ [], n, refl, h);
  puts = λ url body n h.
      (record n { parts = (number_of url, length body) ∷ n.parts }, rw (h.0) refl, h);
  completes = λ id n h. (n, refl, h);
}
