-- ===== src/Format/Previews/Cells.antt =====
-- How the previews of tables and of the photo wall go together.
use file_indexer.Prelude.{◌≡◌, refl, inl, inr, true, Option, none, some, Text, Bool-cases}
use file_indexer.Server.Types.{FileDto}
use file_indexer.Format.Previews.{
  Preview, image, boxed, plain, icon, is_pending, is_failed, is_image, filled, cell_without_image,
  thumbnail_without_image, image_or, preview_cell, photo_thumbnail,
}

-- What the words of a preview say, or that it has none.
abbrev pub says : Preview → Option Text
says (image _ _ _) = none
says (boxed text) = some text
says (plain text) = some text
says (icon _) = none

abbrev pub image_of : Preview → Option Text
image_of (image url _ _) = some url
image_of _ = none

SameWords : FileDto → Preview → Preview → Type 0
SameWords file cell thumbnail = (says cell ≡ says thumbnail) × (image_of cell ≡ image_of thumbnail)

without_image-SameWords :
    (file : FileDto)
    → is_image file.content_type ≡ true
    → SameWords file (cell_without_image file) (thumbnail_without_image file)
unfolding SameWords
without_image-SameWords file h = elim (Bool-cases (is_pending file.preview_status)) [
  | inl pending ↦ rw pending (rw h (refl, refl))
  | inr settled ↦ rw settled (elim (Bool-cases (is_failed file.preview_status)) [
    | inl failed ↦ rw failed (refl, refl)
    | inr other ↦ rw other (rw h (refl, refl))
  ])
]

image_or-SameWords :
    (file : FileDto) (o : Option Text) (cell thumbnail : Preview)
    → SameWords file cell thumbnail
    → SameWords file (image_or cell file o) (image_or thumbnail file o)
unfolding SameWords
image_or-SameWords file none cell thumbnail h = h
image_or-SameWords file (some url) cell thumbnail h = (refl, refl)

-- A photo says the same of itself in a table as on the photo wall, and shows the same image.
pub preview_cell-photo_thumbnail :
    (file : FileDto)
    → is_image file.content_type ≡ true
    → (says (preview_cell file) ≡ says (photo_thumbnail file))
      × (image_of (preview_cell file) ≡ image_of (photo_thumbnail file))
unfolding preview_cell photo_thumbnail SameWords
preview_cell-photo_thumbnail file h =
    image_or-SameWords file (filled file.preview_url) (cell_without_image file)
      (thumbnail_without_image file) (without_image-SameWords file h)
