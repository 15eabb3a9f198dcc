-- ===== src/Server/Types.antt =====
-- The messages of web/src/gen/service/v1 and their plain projections in web/src/server/impl.ts.
use file_indexer.Prelude.{ℕ, ℤ, Bool, Option, List, Text}
use file_indexer.Js.Value.{Double}

-- A protobuf timestamp. Only the library that decodes messages looks into it.
pub record Timestamp : Type 0 where
  pub seconds : ℤ
  pub nanos : ℕ

-- Where a file stands in the preview pipeline. An enum value that a newer service might send is not
-- represented: the program compares a status with `PENDING`, `PROCESSING` and `FAILED` alone.
pub data PreviewStatus : Type 0 where
  unspecified no_preview pending processing ready failed_preview : PreviewStatus

pub record ExifMetadata : Type 0 where
  pub image_type : Option Text
  pub camera_make : Option Text
  pub camera_model : Option Text
  pub camera_serial : Option Text
  pub lens_make : Option Text
  pub lens_model : Option Text
  pub taken_at : Option Timestamp
  pub iso : Option ℤ
  pub f_number : Option Double
  pub exposure_time : Option Double
  pub focal_length : Option Double
  pub focal_length_35mm : Option Double
  pub exposure_program : Option ℤ
  pub metering_mode : Option ℤ
  pub flash : Option ℤ
  pub orientation : Option ℤ
  pub image_width : Option ℤ
  pub image_height : Option ℤ
  pub gps_latitude : Option Double
  pub gps_longitude : Option Double
  pub gps_altitude : Option Double
  pub gps_at : Option Timestamp
  pub software : Option Text
  pub artist : Option Text
  pub copyright : Option Text
  pub image_description : Option Text
  pub xmp_title : Option Text
  pub xmp_description : Option Text
  pub xmp_creator : Option Text
  pub xmp_label : Option Text
  pub xmp_rating : Option ℤ
  pub xmp_keywords : List Text
  pub xmp_create_date : Option Timestamp
  pub has_exif : Bool
  pub has_xmp : Bool

pub record FileInfo : Type 0 where
  pub id : ℤ
  pub key : Text
  pub content_type : Text
  pub size_bytes : ℤ
  pub created_at : Option Timestamp
  pub updated_at : Option Timestamp
  pub preview_key : Text
  pub preview_width : ℤ
  pub preview_height : ℤ
  pub exif : Option ExifMetadata
  pub preview_status : PreviewStatus

-- `FileDto`
pub record FileDto : Type 0 where
  pub id : Text
  pub key : Text
  pub content_type : Text
  pub size_bytes : ℤ
  pub created_at : Option Text
  pub updated_at : Option Text
  pub taken_at : Option Text
  pub preview_url : Option Text
  pub preview_width : Option ℤ
  pub preview_height : Option ℤ
  pub preview_status : PreviewStatus

pub record ExifMetadataDto : Type 0 where
  pub image_type : Option Text
  pub camera_make : Option Text
  pub camera_model : Option Text
  pub camera_serial : Option Text
  pub lens_make : Option Text
  pub lens_model : Option Text
  pub taken_at : Option Text
  pub iso : Option ℤ
  pub f_number : Option Double
  pub exposure_time : Option Double
  pub focal_length : Option Double
  pub focal_length_35mm : Option Double
  pub exposure_program : Option ℤ
  pub metering_mode : Option ℤ
  pub flash : Option ℤ
  pub orientation : Option ℤ
  pub image_width : Option ℤ
  pub image_height : Option ℤ
  pub gps_latitude : Option Double
  pub gps_longitude : Option Double
  pub gps_altitude : Option Double
  pub gps_at : Option Text
  pub software : Option Text
  pub artist : Option Text
  pub copyright : Option Text
  pub image_description : Option Text
  pub xmp_title : Option Text
  pub xmp_description : Option Text
  pub xmp_creator : Option Text
  pub xmp_label : Option Text
  pub xmp_rating : Option ℤ
  pub xmp_keywords : List Text
  pub xmp_create_date : Option Text
  pub has_exif : Bool
  pub has_xmp : Bool

pub record FileMetadataDto : Type 0 where
  pub id : Text
  pub key : Text
  pub content_type : Text
  pub size_bytes : ℤ
  pub created_at : Option Text
  pub updated_at : Option Text
  pub exif : Option ExifMetadataDto
