-- ===== src/Server/Listing/Previews.antt =====
-- What the preview lookup makes of a page of files.
use file_indexer.Prelude.{
  ℤ, ◌≡◌, refl, ◌∙◌, ap, Option, none, some, List, [], ◌∷◌, map, Text, ◌===◌, ===_iff, int_eq,
  Result, ok, map_all, >>=-eq-ok, ok-injective, subst,
}
use file_indexer.Js.Decimal.{to_string}
use file_indexer.Js.Number.{to_number}
use file_indexer.Js.Dictionary.{map_get, last_value, map_get-map_of}
use file_indexer.Server.Types.{Timestamp, FileInfo, FileDto}
use file_indexer.Server.Dto.{to_file_dto, optional_iso, taken_at_of}
use file_indexer.Server.Services.{UrlSpec}
use file_indexer.Server.Calls.Urls.{to_string-===}
use file_indexer.Server.Listing.{urls_by_id, fill_in}

-- The URL that an answer gives a file: that of its last entry for the id.
abbrev pub url_for : List UrlSpec → ℤ → Option Text
url_for specs id = last_value int_eq none (map (λ (p : UrlSpec). (p.id, p.url)) specs) id

abbrev pub shown_url : Option (List UrlSpec) → ℤ → Option Text
shown_url none id = none
shown_url (some specs) id = url_for specs id

-- A row of a page, against the message that it stands for and the answer about previews.
pub record Shows (answer : Option (List UrlSpec)) (file : FileInfo) (dto : FileDto) : Type 0 where
  pub id : dto.id ≡ to_string file.id
  pub key : dto.key ≡ file.key
  pub content_type : dto.content_type ≡ file.content_type
  pub size_bytes : dto.size_bytes ≡ to_number file.size_bytes
  pub preview_status : dto.preview_status ≡ file.preview_status
  pub preview_url : dto.preview_url ≡ shown_url answer file.id

-- Row by row, in order, with none left over on either side.
abbrev pub Rows : Option (List UrlSpec) → List FileInfo → List FileDto → Type 0
Rows answer [] [] = Unit
Rows answer [] (_ ∷ _) = ⊥
Rows answer (_ ∷ _) [] = ⊥
Rows answer (file ∷ files) (dto ∷ dtos) = Shows answer file dto × Rows answer files dtos

last_value-map :
    (specs : List UrlSpec) (found : Option Text) (id : ℤ)
    → last_value ◌===◌ found (map (λ (p : UrlSpec). (to_string p.id, p.url)) specs) (to_string id)
      ≡ last_value int_eq found (map (λ (p : UrlSpec). (p.id, p.url)) specs) id
unfolding last_value
last_value-map [] found id = refl
last_value-map (p ∷ specs) found id =
    rw (to_string-=== p.id id, last_value) (last_value-map specs _ id)

map_get-urls_by_id :
    (specs : List UrlSpec) (id : ℤ)
    → map_get ◌===◌ (urls_by_id specs) (to_string id) ≡ url_for specs id
map_get-urls_by_id specs id =
    map_get-map_of ◌===◌ ===_iff (map (λ (p : UrlSpec). (to_string p.id, p.url)) specs)
      (to_string id)
    ∙ last_value-map specs none id

pub Rows-fill_in :
    (specs : List UrlSpec) (infos : List FileInfo) (dtos : List FileDto)
    → Rows none infos dtos
    → Rows (some specs) infos (fill_in (urls_by_id specs) dtos)
Rows-fill_in specs [] [] rows = tt
Rows-fill_in specs [] (_ ∷ _) rows = elim rows [ ]
Rows-fill_in specs (_ ∷ _) [] rows = elim rows [ ]
Rows-fill_in specs (file ∷ infos) (dto ∷ dtos) (row, rows) = (
  record {
    id = row.id;
    key = row.key;
    content_type = row.content_type;
    size_bytes = row.size_bytes;
    preview_status = row.preview_status;
    preview_url = ap (map_get ◌===◌ (urls_by_id specs)) row.id ∙ map_get-urls_by_id specs file.id;
  },
  Rows-fill_in specs infos dtos rows,
)

module _ (to_iso_string : Timestamp → Result Text) where
  to_file_dto-Shows :
      (file : FileInfo) (dto : FileDto)
      → to_file_dto to_iso_string file ≡ ok dto
      → Shows none file dto
  unfolding to_file_dto
  to_file_dto-Shows file dto h =
      let (a, ra, h) = >>=-eq-ok (optional_iso to_iso_string file.created_at) _ h in
      let (b, rb, h) = >>=-eq-ok (optional_iso to_iso_string file.updated_at) _ h in
      let (c, rc, h) = >>=-eq-ok (optional_iso to_iso_string (taken_at_of file.exif)) _ h in
      subst (Shows none file) (ok-injective h) (record {
        id = refl;
        key = refl;
        content_type = refl;
        size_bytes = refl;
        preview_status = refl;
        preview_url = refl;
      })

  pub map_all-Rows :
      (infos : List FileInfo) (dtos : List FileDto)
      → map_all (to_file_dto to_iso_string) infos ≡ ok dtos
      → Rows none infos dtos
  unfolding map_all
  map_all-Rows [] [] h = tt
  map_all-Rows [] (_ ∷ _) h = cc
  map_all-Rows (file ∷ infos) dtos h =
      let (d, rd, h) = >>=-eq-ok (to_file_dto to_iso_string file) _ h in
      let (ds, rds, h) = >>=-eq-ok (map_all (to_file_dto to_iso_string) infos) _ h in
      subst (Rows none (file ∷ infos)) (ok-injective h)
        (to_file_dto-Shows file d rd, map_all-Rows infos ds rds)
