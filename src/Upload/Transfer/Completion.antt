-- ===== src/Upload/Transfer/Completion.antt =====
-- An upload that returns has brought over the whole file.
use file_indexer.Prelude.{
  ℕ, ◌+◌, ◌-◌, ◌≤◌, ◌<◌, ℤ, pos, ◌≡◌, ◌≢◌, sym, ◌∙◌, subst, ap, inl, inr, true, Option, none, some,
  List, [], ◌∷◌, map, Text, All, length, int_eq, int_eq_iff, done, and_then-eq-done, catch-eq-done,
  Bool-cases, Option-cases, done-injective, arith,
}
use file_indexer.Js.Dictionary.{map_get, last_value, map_get-map_of}
use file_indexer.Upload.Plan.{PartPlan, part_size_bytes, plan_parts}
use file_indexer.Upload.Plan.Tiling.{Tiles, plan_parts-Tiles}
use file_indexer.Upload.Plan.Content.{slice, length-slice}
use file_indexer.Upload.World.{
  World, FileLike, UploadedPartInfo, MultipartUploadDeps, call, back-eq-done,
}
use file_indexer.Upload.Session.{load_session}
use file_indexer.Upload.Session.Laws.{load_session-clear_session_self}
use file_indexer.Upload.Transfer.{
  Upload, has_landed, landed_of, upload_part, upload_parts, create, list_landed, resume,
  resume_or_create_upload, upload_file_multipart,
}
use file_indexer.Upload.Transfer.Steps.{
  IsLawful, cancel-ne-done, upload_part-lands, upload_part-keeps,
}

-- What a `File` of these bytes does.
pub record IsFile (file : FileLike) (bytes : List ℕ) : Type 0 where
  pub size_is : file.size ≡ length bytes
  pub slices : (start end : ℕ) → file.slice start end ≡ slice bytes start end

has_landed-size :
    (landed : List (ℤ × ℤ)) (part : PartPlan)
    → has_landed landed part ≡ true
    → map_get int_eq landed (pos part.part_number) ≡ some (pos (part.end - part.start))
has_landed-size landed part h = elim (Option-cases (map_get int_eq landed (pos part.part_number))) [
  | inl missing ↦ let no_size = rw (missing, has_landed) at h in cc
  | inr (size, found) ↦
      let same = (int_eq_iff size (pos (part.end - part.start))).0 (rw (found, has_landed) at h) in
      found ∙ ap some same
]

module _ {N : Type 0} (deps : MultipartUploadDeps N) (file : FileLike) (key : Text)
    {Landed : N → Text → ℕ → ℕ → Type 0} (lawful : IsLawful deps key Landed) where
  -- What is on record of the parts from a number on is there.
  abbrev Recorded : List (ℤ × ℤ) → N → Text → ℕ → Type 0
  Recorded landed n id from =
      (i k : ℕ) → from ≤ i → map_get int_eq landed (pos i) ≡ some (pos k) → Landed n id i k

  abbrev AllLanded : N → Text → List PartPlan → Type 0
  AllLanded n id = All λ (p : PartPlan). Landed n id p.part_number (p.end - p.start)

  module _ (id : Text) (part_size : ℕ) (landed : List (ℤ × ℤ)) (total : ℕ)
      (sizes : (start end : ℕ)
        → start ≤ end
        → end ≤ file.size
        → length (file.slice start end) ≡ end - start) where
    upload_parts-AllLanded :
        (parts : List PartPlan) (completed number start : ℕ) (w t : World N)
        → Tiles file.size part_size number start parts
        → Recorded landed w.net id number
        → upload_parts deps file key id landed total completed parts w ≡ done tt t
        → AllLanded t.net id parts
          × ((i k : ℕ) → i < number → Landed w.net id i k → Landed t.net id i k)
    unfolding upload_parts
    upload_parts-AllLanded [] completed number start w t tiles recorded h =
        let (_, same) = done-injective h in
        (tt, λ i k before l. subst (λ (v : World N). Landed v.net id i k) same l)
    upload_parts-AllLanded (p ∷ parts) completed number start w t
          (named, begins, grows, within, _, _, tiles) recorded h =
        elim (Bool-cases (deps.aborted w.net)) [
          | inl stop ↦ absurd (cancel-ne-done deps file key id w t (rw stop at h))
          | inr go ↦
              let (_, v, stepped, rest) =
                and_then-eq-done (upload_part deps file key id landed p w) _ (rw go at h) in
              let here =
                upload_part-lands deps file key id lawful landed p w v
                  (sizes p.start p.end (omega arith) within)
                  (λ there.
                    recorded p.part_number (p.end - p.start) (omega arith)
                      (has_landed-size landed p there))
                  stepped in
              let keeps = λ (i k : ℕ) (other : i ≢ p.part_number) (l : Landed w.net id i k).
                upload_part-keeps deps file key id lawful landed p w v i k other l stepped in
              let (later, kept) =
                upload_parts-AllLanded parts (completed + 1) (number + 1) p.end _ t tiles
                  (λ i k above found. keeps i k (omega arith) (recorded i k (omega arith) found))
                  rest in
              (
                (kept p.part_number (p.end - p.start) (omega arith) here, later),
                λ i k before l. kept i k (omega arith) (keeps i k (omega arith) l),
              )
        ]

  last_value-Landed :
      (parts : List UploadedPartInfo) (found : Option ℤ) (n : N) (id : Text) (i k : ℕ)
      → (found ≡ some (pos k) → Landed n id i k)
      → All
          (λ (p : UploadedPartInfo).
            (i k : ℕ) → p.part_number ≡ pos i → p.size ≡ pos k → Landed n id i k)
          parts
      → last_value int_eq found
          (map (λ (p : UploadedPartInfo). (p.part_number, p.size)) parts)
          (pos i)
        ≡ some (pos k)
      → Landed n id i k
  unfolding last_value
  last_value-Landed [] found n id i k known reports h = known h
  last_value-Landed (p ∷ parts) found n id i k known (report, reports) h =
      elim (Bool-cases (int_eq p.part_number (pos i))) [
        | inl same ↦
            last_value-Landed parts (some p.size) n id i k
              (λ e. report i k ((int_eq_iff p.part_number (pos i)).0 same) (cc)) reports
              (rw (same, last_value) at h)
        | inr other ↦
            last_value-Landed parts found n id i k known reports (rw (other, last_value) at h)
      ]

  create-Recorded :
      (content_type : Text) (w v : World N) (upload : Upload)
      → create deps file key content_type w ≡ done upload v
      → Recorded upload.landed v.net upload.upload_id 0
  unfolding create map_get
  create-Recorded content_type w v upload h i k _ found =
      let (id, u, _, rest) =
        and_then-eq-done (call (deps.create_multipart_upload key content_type) w) _ h in
      let (made, _) = done-injective rest in
      let e = ap (λ (x : Upload). map_get int_eq x.landed (pos i)) made ∙ found in cc

  resume-Recorded :
      (content_type : Text) (session : Option Text) (w v : World N) (upload : Upload)
      → resume deps file key content_type session w ≡ done upload v
      → Recorded upload.landed v.net upload.upload_id 0
  unfolding resume list_landed
  resume-Recorded content_type none w v upload h = create-Recorded content_type w v upload h
  resume-Recorded content_type (some id) w v upload h =
      elim (catch-eq-done (list_landed deps file key id w) _ h) [
        | inl resumed ↦
            let (parts, u, listed, rest) =
              and_then-eq-done (call (deps.list_uploaded_parts key id) w) _ resumed in
            let (made, same) = done-injective rest in
            let (reported, _) =
              back-eq-done w (deps.list_uploaded_parts key id w.net) parts u listed in
            let reports = lawful.list_reports id w.net u.net parts reported in
            let all_there : Recorded (landed_of parts) u.net id 0 = λ i k _ found.
              last_value-Landed parts none u.net id i k (λ e. cc) reports
                (sym (map_get-map_of int_eq int_eq_iff _ (pos i)) ∙ found) in
            subst (λ (x : Upload). Recorded x.landed v.net x.upload_id 0) made
              (subst (λ (x : World N). Recorded (landed_of parts) x.net id 0) same all_there)
        | inr (_, u, _, restarted) ↦ create-Recorded content_type u v upload restarted
      ]

  -- Where the storage service is as relied on and the file is as it says, an upload that returns has
  -- told the service to complete an upload of which every planned part was there with its planned
  -- size at that moment, and has left no session for the key.
  pub upload_file_multipart-AllLanded :
      (bytes : List ℕ) (content_type : Text) (w t : World N)
      → IsFile file bytes
      → upload_file_multipart deps file key content_type w ≡ done tt t
      → (id : Text) × (n : N) × AllLanded n id (plan_parts file.size part_size_bytes)
        × (deps.complete_multipart_upload key id n ≡ done tt t.net)
        × (load_session key t.storage ≡ none)
  unfolding upload_file_multipart resume_or_create_upload
  upload_file_multipart-AllLanded bytes content_type w t is_file h =
      let (upload, u, begun, sending) =
        and_then-eq-done (resume_or_create_upload deps file key content_type w) _ h in
      let plan = plan_parts file.size part_size_bytes in
      let (_, v, sent, completing) =
        and_then-eq-done
          (upload_parts deps file key upload.upload_id upload.landed (length plan) 0 plan u) _
          sending in
      let (_, x, completed, clearing) =
        and_then-eq-done (call (deps.complete_multipart_upload key upload.upload_id) v) _
          completing in
      let (_, same) = done-injective clearing in
      let (there, _) =
        upload_parts-AllLanded upload.upload_id part_size_bytes upload.landed (length plan)
          (λ start end h k.
            ap length (is_file.slices start end)
            ∙ length-slice bytes start end h (omega (arith, is_file.size_is)))
          plan 0 1 0 u v (plan_parts-Tiles file.size part_size_bytes (omega arith))
          (λ i k _ found. resume-Recorded content_type _ w u upload begun i k (omega arith) found)
          sent in
      let (done_there, _) =
        back-eq-done v (deps.complete_multipart_upload key upload.upload_id v.net) tt x completed in
      (
        upload.upload_id,
        v.net,
        there,
        done_there ∙ ap (λ (y : World N). done tt y.net) same,
        ap (λ (y : World N). load_session key y.storage) (sym same)
            ∙ load_session-clear_session_self key x.storage,
      )
