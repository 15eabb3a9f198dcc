-- ===== src/Server/Dto.antt =====
-- The projections of messages in web/src/server/impl.ts.
pub mod Laws
use file_indexer.Prelude.{
  ℤ, ◌≡◌, Bool, not, Option, none, some, [], Text, Result, ok, map_result, ◌===◌, if◌then◌else◌,
}
use file_indexer.Prelude.Results.{◌>>=◌}
use file_indexer.Js.Decimal.{to_string}
use file_indexer.Js.Number.{to_number}
use file_indexer.Server.Types.{
  Timestamp, ExifMetadata, FileInfo, FileDto, ExifMetadataDto, FileMetadataDto,
}

-- `file.previewKey !== ''`
abbrev pub has_preview : FileInfo → Bool
has_preview file = not (file.preview_key === [])

abbrev pub taken_at_of : Option ExifMetadata → Option Timestamp
taken_at_of none = none
taken_at_of (some exif) = exif.taken_at

-- `timestampDate(t).toISOString()`, which throws where the timestamp is no valid date.
module _ (to_iso_string : Timestamp → Result Text) where
  abbrev pub optional_iso : Option Timestamp → Result (Option Text)
  optional_iso none = ok none
  optional_iso (some t) = map_result some (to_iso_string t)

  unfoldable pub to_exif_metadata_dto : ExifMetadata → Result ExifMetadataDto
  to_exif_metadata_dto exif = do
    taken_at ← optional_iso exif.taken_at
    gps_at ← optional_iso exif.gps_at
    xmp_create_date ← optional_iso exif.xmp_create_date
    ok (record {
      image_type = exif.image_type;
      camera_make = exif.camera_make;
      camera_model = exif.camera_model;
      camera_serial = exif.camera_serial;
      lens_make = exif.lens_make;
      lens_model = exif.lens_model;
      taken_at = taken_at;
      iso = exif.iso;
      f_number = exif.f_number;
      exposure_time = exif.exposure_time;
      focal_length = exif.focal_length;
      focal_length_35mm = exif.focal_length_35mm;
      exposure_program = exif.exposure_program;
      metering_mode = exif.metering_mode;
      flash = exif.flash;
      orientation = exif.orientation;
      image_width = exif.image_width;
      image_height = exif.image_height;
      gps_latitude = exif.gps_latitude;
      gps_longitude = exif.gps_longitude;
      gps_altitude = exif.gps_altitude;
      gps_at = gps_at;
      software = exif.software;
      artist = exif.artist;
      copyright = exif.copyright;
      image_description = exif.image_description;
      xmp_title = exif.xmp_title;
      xmp_description = exif.xmp_description;
      xmp_creator = exif.xmp_creator;
      xmp_label = exif.xmp_label;
      xmp_rating = exif.xmp_rating;
      xmp_keywords = exif.xmp_keywords;
      xmp_create_date = xmp_create_date;
      has_exif = exif.has_exif;
      has_xmp = exif.has_xmp;
    })

  unfoldable pub optional_exif : Option ExifMetadata → Result (Option ExifMetadataDto)
  unfolding to_exif_metadata_dto
  optional_exif none = ok none
  optional_exif (some exif) = map_result some (to_exif_metadata_dto exif)

  unfoldable pub to_file_metadata_dto : FileInfo → Result FileMetadataDto
  unfolding optional_exif to_string to_number
  to_file_metadata_dto file = do
    created_at ← optional_iso file.created_at
    updated_at ← optional_iso file.updated_at
    exif ← optional_exif file.exif
    ok (record {
      id = to_string file.id;
      key = file.key;
      content_type = file.content_type;
      size_bytes = to_number file.size_bytes;
      created_at = created_at;
      updated_at = updated_at;
      exif = exif;
    })

  unfoldable pub to_file_dto : FileInfo → Result FileDto
  to_file_dto file = do
    created_at ← optional_iso file.created_at
    updated_at ← optional_iso file.updated_at
    taken_at ← optional_iso (taken_at_of file.exif)
    ok (record {
      id = to_string file.id;
      key = file.key;
      content_type = file.content_type;
      size_bytes = to_number file.size_bytes;
      created_at = created_at;
      updated_at = updated_at;
      taken_at = taken_at;
      preview_url = none;
      preview_width = if has_preview file then some file.preview_width else none;
      preview_height = if has_preview file then some file.preview_height else none;
      preview_status = file.preview_status;
    })
