-- ===== src/Format/Metadata.antt =====
-- The tables of web/src/components/FileMetadataTable.tsx.
pub mod Filled
use file_indexer.Prelude.{
  ℤ, Bool, true, false, ◌&&◌, Option, none, some, List, [], ◌∷◌, ◌++◌, Text, codes, if◌then◌else◌,
}
use file_indexer.Js.Value.{Double}
use file_indexer.Js.Join.{join}
use file_indexer.Js.Decimal.{to_string}
use file_indexer.Server.Types.{ExifMetadataDto, FileMetadataDto}
use file_indexer.Format.{format_bytes}

-- A row that is shown, with the text of its value.
pub record Row : Type 0 where
  pub label : Text
  pub value : Text

pub record Section : Type 0 where
  pub heading : Option Text
  pub rows : List Row

-- `Row`: none where the value is null, undefined or empty
unfoldable pub row : Text → Option Text → List Row
row label none = []
row label (some []) = []
row label (some (c ∷ s)) = record { label = label; value = c ∷ s } ∷ []

-- The rows of a table, from its labels and values.
unfoldable pub rows : List (Text × Option Text) → List Row
unfolding row
rows [] = []
rows ((label, value) ∷ cells) = row label value ++ rows cells

abbrev pub number : Option ℤ → Option Text
number none = none
number (some n) = some (to_string n)

abbrev pub keywords : List Text → Option Text
keywords [] = none
keywords (k ∷ ks) = some (join (codes ", ") (k ∷ ks))

abbrev pub both : Option Double → Option Double → Bool
both (some _) (some _) = true
both _ _ = false

-- How a double is printed, and whether it is neither zero nor NaN, are parameters, and so is `formatDate`.
module _ (double_text : Double → Text) (is_truthy : Double → Bool)
    (format_date : Option Text → Text) where
  abbrev pub double : Option Double → Option Text
  double none = none
  double (some d) = some (double_text d)

  -- A truthy number between two texts
  abbrev pub measured : Text → Option Double → Text → Option Text
  measured before none after = none
  measured before (some d) after =
      if is_truthy d then some (before ++ (double_text d ++ after)) else none

  abbrev pub camera_cells : ExifMetadataDto → List (Text × Option Text)
  camera_cells exif =
      (codes "Image type", exif.image_type)
      ∷ (codes "Camera make", exif.camera_make)
      ∷ (codes "Camera model", exif.camera_model)
      ∷ (codes "Camera serial", exif.camera_serial)
      ∷ (codes "Lens make", exif.lens_make)
      ∷ (codes "Lens model", exif.lens_model)
      ∷ (codes "Taken at", exif.taken_at)
      ∷ (codes "ISO", number exif.iso)
      ∷ (codes "F-number", measured (codes "f/") exif.f_number [])
      ∷ (codes "Exposure time", measured [] exif.exposure_time (codes "s"))
      ∷ (codes "Focal length", measured [] exif.focal_length (codes "mm"))
      ∷ (codes "Focal length (35mm equiv.)", measured [] exif.focal_length_35mm (codes "mm"))
      ∷ (codes "Exposure program", number exif.exposure_program)
      ∷ (codes "Metering mode", number exif.metering_mode)
      ∷ (codes "Flash", number exif.flash)
      ∷ (codes "Orientation", number exif.orientation)
      ∷ (codes "Image width", number exif.image_width)
      ∷ (codes "Image height", number exif.image_height)
      ∷ (codes "Software", exif.software)
      ∷ (codes "Artist", exif.artist)
      ∷ (codes "Copyright", exif.copyright)
      ∷ (codes "Description", exif.image_description)
      ∷ []

  abbrev pub gps_cells : ExifMetadataDto → List (Text × Option Text)
  gps_cells exif =
      (codes "Latitude", double exif.gps_latitude)
      ∷ (codes "Longitude", double exif.gps_longitude)
      ∷ (codes "Altitude", measured [] exif.gps_altitude (codes "m"))
      ∷ (codes "GPS time", exif.gps_at)
      ∷ []

  abbrev pub xmp_cells : ExifMetadataDto → List (Text × Option Text)
  xmp_cells exif =
      (codes "Title", exif.xmp_title)
      ∷ (codes "Description", exif.xmp_description)
      ∷ (codes "Creator", exif.xmp_creator)
      ∷ (codes "Label", exif.xmp_label)
      ∷ (codes "Rating", number exif.xmp_rating)
      ∷ (codes "Keywords", keywords exif.xmp_keywords)
      ∷ (codes "Created", exif.xmp_create_date)
      ∷ []

  abbrev pub section_if : Bool → Text → List Row → List Section
  section_if shown heading rs =
      if shown then record { heading = some heading; rows = rs } ∷ [] else []

  unfoldable pub exif_sections : ExifMetadataDto → List Section
  unfolding rows
  exif_sections exif =
      section_if exif.has_exif (codes "Camera (EXIF)") (rows (camera_cells exif))
      ++ (section_if (exif.has_exif && both exif.gps_latitude exif.gps_longitude) (codes "GPS")
            (rows (gps_cells exif))
          ++ section_if exif.has_xmp (codes "XMP") (rows (xmp_cells exif)))

  abbrev pub exif_or_none : Option ExifMetadataDto → List Section
  exif_or_none none = []
  exif_or_none (some exif) = exif_sections exif

  abbrev pub base_cells : FileMetadataDto → List (Text × Option Text)
  base_cells file =
      (codes "Content type", some file.content_type)
      ∷ (codes "Size", some (format_bytes file.size_bytes))
      ∷ (codes "Created", some (format_date file.created_at))
      ∷ (codes "Updated", some (format_date file.updated_at))
      ∷ []

  unfoldable pub metadata_sections : FileMetadataDto → List Section
  unfolding rows exif_sections
  metadata_sections file =
      record { heading = none; rows = rows (base_cells file) } ∷ exif_or_none file.exif
