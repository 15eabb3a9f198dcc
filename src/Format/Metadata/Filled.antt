-- ===== src/Format/Metadata/Filled.antt =====
-- The rows of a file's metadata.
use file_indexer.Prelude.{
  ◌≢◌, Bool, true, false, ◌&&◌, Option, none, some, List, [], ◌∷◌, ◌++◌, All, All-append, Text,
  codes,
}
use file_indexer.Js.Value.{Double}
use file_indexer.Server.Types.{ExifMetadataDto, FileMetadataDto}
use file_indexer.Format.Metadata.{
  Row, Section, row, rows, both, camera_cells, gps_cells, xmp_cells, base_cells, section_if,
  exif_sections, exif_or_none, metadata_sections,
}

abbrev pub IsFilled : Row → Type 0
IsFilled r = r.value ≢ []

abbrev pub AllFilled : Section → Type 0
AllFilled s = All IsFilled s.rows

row-All : (label : Text) (value : Option Text) → All IsFilled (row label value)
unfolding row
row-All label none = tt
row-All label (some []) = tt
row-All label (some (c ∷ s)) = ((λ e. cc), tt)

rows-All : (cells : List (Text × Option Text)) → All IsFilled (rows cells)
unfolding rows
rows-All [] = tt
rows-All ((label, value) ∷ cells) =
    All-append IsFilled (row label value) (rows cells) (row-All label value) (rows-All cells)

module _ (double_text : Double → Text) (is_truthy : Double → Bool)
    (format_date : Option Text → Text) where
  section_if-All :
      (shown : Bool) (heading : Text) (cells : List (Text × Option Text))
      → All AllFilled (section_if double_text is_truthy format_date shown heading (rows cells))
  section_if-All true heading cells = (rows-All cells, tt)
  section_if-All false heading cells = tt

  exif_sections-All :
      (exif : ExifMetadataDto)
      → All AllFilled (exif_sections double_text is_truthy format_date exif)
  unfolding exif_sections
  exif_sections-All exif =
      let camera = camera_cells double_text is_truthy format_date exif in
      let gps = gps_cells double_text is_truthy format_date exif in
      let xmp = xmp_cells double_text is_truthy format_date exif in
      let gps_shown = exif.has_exif && both exif.gps_latitude exif.gps_longitude in
      All-append AllFilled
        (section_if double_text is_truthy format_date exif.has_exif (codes "Camera (EXIF)")
          (rows camera))
        (section_if double_text is_truthy format_date gps_shown (codes "GPS") (rows gps)
          ++ section_if double_text is_truthy format_date exif.has_xmp (codes "XMP") (rows xmp))
        (section_if-All exif.has_exif (codes "Camera (EXIF)") camera)
        (All-append AllFilled
          (section_if double_text is_truthy format_date gps_shown (codes "GPS") (rows gps))
          (section_if double_text is_truthy format_date exif.has_xmp (codes "XMP") (rows xmp))
          (section_if-All gps_shown (codes "GPS") gps)
          (section_if-All exif.has_xmp (codes "XMP") xmp))

  exif_or_none-All :
      (o : Option ExifMetadataDto)
      → All AllFilled (exif_or_none double_text is_truthy format_date o)
  exif_or_none-All none = tt
  exif_or_none-All (some exif) = exif_sections-All exif

  -- No row of a file's metadata is shown without a value.
  pub metadata_sections-AllFilled :
      (file : FileMetadataDto)
      → All AllFilled (metadata_sections double_text is_truthy format_date file)
  unfolding metadata_sections
  metadata_sections-AllFilled file =
      (rows-All (base_cells double_text is_truthy format_date file), exif_or_none-All file.exif)
