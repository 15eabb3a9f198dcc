-- ===== src/Tests/Bucket.antt =====
-- A small files service with its bucket, and what it is relied on for.
use file_indexer.Prelude.{
  ℕ, ◌<◌, ltb, ltb→lt, pos, negsuc, ℤ, zero, suc, ◌≡◌, refl, ap, inl, inr, true, false, none, some,
  List, [], ◌∷◌, All, Text, codes, length, rejected, done, failed, done-injective, subst, end_state,
  Eff, Result, err, if◌then◌else◌, Bool-cases,
}
use file_indexer.Js.Number.{exact_limit}
use file_indexer.Server.Types.{Timestamp, FileInfo, PreviewStatus}
use file_indexer.Server.Services.{SearchClient, FilesClient, UploadedPart}
use file_indexer.Browser.Wiring.{Response}
use file_indexer.Browser.Wiring.Storage.{IsStorage}
use file_indexer.Tests.Shop.{Shop, number_of, Arrived, Landed}

abbrev refuse : {A : Type 0} → Eff Shop A
refuse s = failed (rejected (codes "unimplemented")) s

-- A part's URL is the number of the part.
abbrev url_of : ℤ → Text
url_of (pos i) = i ∷ []
url_of (negsuc i) = []

-- Parts that are too large for a number of the program are not listed.
abbrev listed : List (ℕ × ℕ) → List UploadedPart
listed [] = []
listed ((i, k) ∷ parts) =
    if ltb k exact_limit
    then record { part_number = pos i; size = pos k } ∷ listed parts
    else listed parts

abbrev pub stored : Text → FileInfo
stored key = record {
  id = pos 7;
  key = key;
  content_type = codes "text/plain";
  size_bytes = pos 3;
  created_at = none;
  updated_at = none;
  preview_key = [];
  preview_width = pos 0;
  preview_height = pos 0;
  exif = none;
  preview_status = PreviewStatus.no_preview;
}

abbrev pub files : FilesClient Shop
files = record {
  get_download_url = λ ids. refuse;
  get_open_url = λ ids. refuse;
  get_preview_url = λ ids. refuse;
  get_file_info = λ id. refuse;
  delete_file = λ id. refuse;
  move_file = λ id key. refuse;
  get_upload_url = λ key s. done (codes "whole") s;
  commit_upload = λ key s. done (some (stored key)) s;
  create_multipart_upload = λ key content_type s. done (codes "u1") s;
  get_upload_part_url = λ key id number s. done (url_of number) s;
  list_uploaded_parts = λ key id s. done (listed s.parts) s;
  complete_multipart_upload = λ key id s. done (some (stored key)) s;
  abort_multipart_upload = λ key id s. done tt (record s { parts = [] });
  get_directory_stats = λ path. refuse;
  delete_directory = λ path. refuse;
  get_file_preview_statuses = λ ids. refuse;
}

abbrev pub search : SearchClient Shop
search = record {
  list_files = λ r. refuse;
  list_directory = λ r. refuse;
  list_content_types = refuse;
  search_directories = λ r. refuse;
}

abbrev pub no_dates : Timestamp → Result Text
no_dates t = err (rejected [])

-- A fault is an answer that is no success.
abbrev pub put_faulty : ℕ → Text → List ℕ → Eff Shop Response
put_faulty zero url body s =
    done (record { ok = true; status = 200 })
      (record s { parts = (number_of url, length body) ∷ s.parts })
put_faulty (suc n) url body s = done (record { ok = false; status = 503 }) (record s { faults = n })

abbrev pub fetch_part : Text → List ℕ → Eff Shop Response
fetch_part url body s = put_faulty s.faults url body s

abbrev pub fetch_file : Text → List ℕ → Text → Eff Shop Response
fetch_file url body content_type = fetch_part url body

put_faulty-Arrived :
    (n i : ℕ) (body : List ℕ) (s t : Shop) (res : Response)
    → put_faulty n (i ∷ []) body s ≡ done res t
    → res.ok ≡ true
    → Arrived t.parts i (length body)
put_faulty-Arrived zero i body s t res h fine =
    let (_, same) = done-injective h in
    subst (λ (x : Shop). Arrived x.parts i (length body)) same (inl (refl, refl))
put_faulty-Arrived (suc n) i body s t res h fine =
    let (answer, _) = done-injective h in let bad = ap (λ (r : Response). r.ok) answer in cc

put_faulty-keeps :
    (n : ℕ) (url : Text) (body : List ℕ) (s : Shop) (j k : ℕ)
    → Arrived s.parts j k
    → Arrived (end_state (put_faulty n url body s)).parts j k
put_faulty-keeps zero url body s j k h = inr h
put_faulty-keeps (suc n) url body s j k h = h

Arrived-listed :
    (parts here : List (ℕ × ℕ))
    → ((i k : ℕ) → Arrived here i k → Arrived parts i k)
    → All
        (λ (p : UploadedPart).
          (k : ℕ) × (p.size ≡ pos k)
          × (k < exact_limit)
          × ((i : ℕ) → p.part_number ≡ pos i → Arrived parts i k))
        (listed here)
Arrived-listed parts [] all_in = tt
Arrived-listed parts ((a, b) ∷ here) all_in = elim (Bool-cases (ltb b exact_limit)) [
  | inl small ↦ rw small (
    (b, refl, ltb→lt b exact_limit small, λ i number. all_in i b (inl (cc, refl))),
    Arrived-listed parts here λ i k h. all_in i k (inr h),
  )
  | inr large ↦ rw large (Arrived-listed parts here λ i k h. all_in i k (inr h))
]

pub files-IsStorage : (key : Text) → IsStorage files fetch_part key Landed
files-IsStorage key = record {
  put_lands = λ id i body n m t url res asked sent fine.
      let e : url ≡ i ∷ [] = cc in
      let put_there : put_faulty m.faults (i ∷ []) body m ≡ done res t =
        subst (λ u. put_faulty m.faults u body m ≡ done res t) e sent in
      put_faulty-Arrived m.faults i body m t res put_there fine;
  url_keeps = λ id i n j k l. l;
  put_keeps = λ id i body n m url j k other asked l. put_faulty-keeps m.faults url body m j k l;
  list_reports = λ id n t parts told.
      let (e, same) = done-injective told in
      subst
        (λ ps.
          All
            (λ (p : UploadedPart).
              (k : ℕ) × (p.size ≡ pos k)
              × (k < exact_limit)
              × ((i : ℕ) → p.part_number ≡ pos i → Landed t id i k))
            ps)
        e
        (subst
          (λ (x : Shop).
            All
              (λ (p : UploadedPart).
                (k : ℕ) × (p.size ≡ pos k)
                × (k < exact_limit)
                × ((i : ℕ) → p.part_number ≡ pos i → Landed x id i k))
              (listed n.parts))
          same (Arrived-listed n.parts n.parts λ i k h. h));
}
