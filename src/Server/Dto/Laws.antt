-- ===== src/Server/Dto/Laws.antt =====
-- What `toFileDto` of web/src/server/impl.ts keeps of a file.
use file_indexer.Prelude.{
  ℕ, ◌<◌, pos, ◌≡◌, refl, ◌⊎◌, inl, inr, ◌≢◌, ap, sym, ◌∙◌, subst, some, none, [], Text, ◌===◌,
  ===_iff, Result, ok, >>=-eq-ok, ok-injective, Bool-cases, if◌then◌else◌,
}
use file_indexer.Js.Decimal.{to_string}
use file_indexer.Js.Decimal.Laws.{to_string-injective}
use file_indexer.Js.Number.{exact_limit, to_number}
use file_indexer.Js.Number.Laws.{round-exact}
use file_indexer.Server.Types.{Timestamp, FileInfo, FileDto}
use file_indexer.Server.Dto.{to_file_dto, optional_iso, taken_at_of, has_preview}

-- What does not depend on the timestamps.
record Keeps (file : FileInfo) (dto : FileDto) : Type 0 where
  id : dto.id ≡ to_string file.id
  size_bytes : dto.size_bytes ≡ to_number file.size_bytes
  preview_width : dto.preview_width ≡ (if has_preview file then some file.preview_width else none)
  preview_height :
      dto.preview_height ≡ (if has_preview file then some file.preview_height else none)
  preview_url : dto.preview_url ≡ none

module _ (to_iso_string : Timestamp → Result Text) where
  to_file_dto-Keeps :
      (file : FileInfo) (dto : FileDto) → to_file_dto to_iso_string file ≡ ok dto → Keeps file dto
  unfolding to_file_dto
  to_file_dto-Keeps file dto h =
      let (a, ra, h) = >>=-eq-ok (optional_iso to_iso_string file.created_at) _ h in
      let (b, rb, h) = >>=-eq-ok (optional_iso to_iso_string file.updated_at) _ h in
      let (c, rc, h) = >>=-eq-ok (optional_iso to_iso_string (taken_at_of file.exif)) _ h in
      subst (Keeps file) (ok-injective h) (record {
        id = refl;
        size_bytes = refl;
        preview_width = refl;
        preview_height = refl;
        preview_url = refl;
      })

  -- Two files that `toFileDto` gives the same id text have the same id.
  pub to_file_dto-id_injective :
      (file other : FileInfo) (dto other_dto : FileDto)
      → to_file_dto to_iso_string file ≡ ok dto
      → to_file_dto to_iso_string other ≡ ok other_dto
      → dto.id ≡ other_dto.id
      → file.id ≡ other.id
  to_file_dto-id_injective file other dto other_dto h k e =
      let d = to_file_dto-Keeps file dto h in
      let o = to_file_dto-Keeps other other_dto k in
      to_string-injective file.id other.id (sym d.id ∙ e ∙ o.id)

  -- A size below 2^53 bytes comes through `toFileDto` unchanged.
  pub to_file_dto-size_bytes :
      (file : FileInfo) (dto : FileDto) (n : ℕ)
      → to_file_dto to_iso_string file ≡ ok dto
      → file.size_bytes ≡ pos n
      → n < exact_limit
      → dto.size_bytes ≡ file.size_bytes
  unfolding to_number
  to_file_dto-size_bytes file dto n h e small =
      let d = to_file_dto-Keeps file dto h in
      d.size_bytes ∙ ap to_number e ∙ ap pos (round-exact n small) ∙ sym e

  -- The width and height are those of the file's preview if it has one, and are both null exactly if
  -- it has none; the URL of the preview is not filled in yet.
  pub to_file_dto-preview :
      (file : FileInfo) (dto : FileDto)
      → to_file_dto to_iso_string file ≡ ok dto
      → (dto.preview_url ≡ none)
        × (((file.preview_key ≡ []) × (dto.preview_width ≡ none) × (dto.preview_height ≡ none))
            ⊎ ((file.preview_key ≢ [])
                × (dto.preview_width ≡ some file.preview_width)
                × (dto.preview_height ≡ some file.preview_height)))
  to_file_dto-preview file dto h =
      let d = to_file_dto-Keeps file dto h in
      let iff = ===_iff file.preview_key [] in
      (
        d.preview_url,
        elim (Bool-cases (file.preview_key === [])) [
          | inl empty ↦ inl (iff.0 empty, d.preview_width ∙ rw empty, d.preview_height ∙ rw empty)
          | inr full ↦
              inr (
                (λ e. let t = iff.1 e in cc),
                d.preview_width ∙ rw full,
                d.preview_height ∙ rw full,
              )
        ],
      )
