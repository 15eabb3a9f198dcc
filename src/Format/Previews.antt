-- ===== src/Format/Previews.antt =====
-- What stands for a file: a cell of web/src/components/FileTable.tsx, a thumbnail of PhotoWall.tsx, and
-- the whole file in FileViewer.tsx.
pub mod Cells
use file_indexer.Prelude.{
  ℤ, Bool, true, false, ◌||◌, Option, none, some, List, [], ◌∷◌, ◌++◌, Text, codes, starts_with,
  if◌then◌else◌,
}
use file_indexer.Server.Types.{PreviewStatus, FileDto}
use file_indexer.Format.{FileIcon, get_file_icon}

pub data Preview : Type 0 where
  -- an image: its URL, and its width and height where they are known
  image : Text → Option ℤ → Option ℤ → Preview
  -- a text, in a box of the size of a thumbnail or without
  boxed : Text → Preview
  plain : Text → Preview
  icon : FileIcon → Preview

unfoldable pub is_pending : PreviewStatus → Bool
is_pending PreviewStatus.pending = true
is_pending PreviewStatus.processing = true
is_pending _ = false

unfoldable pub is_failed : PreviewStatus → Bool
is_failed PreviewStatus.failed_preview = true
is_failed _ = false

abbrev pub is_image : Text → Bool
is_image content_type = starts_with content_type (codes "image/")

-- A preview's URL, where there is one that is not empty
unfoldable pub filled : Option Text → Option Text
filled none = none
filled (some []) = none
filled (some (c ∷ s)) = some (c ∷ s)

abbrev pub cell_without_image : FileDto → Preview
cell_without_image file =
    if is_pending file.preview_status
    then (if is_image file.content_type
        then boxed (codes "Processing" ++ 8230 ∷ [])
        else plain (codes "Indexing" ++ 8230 ∷ []))
    else if is_failed file.preview_status
    then plain (codes "Preview failed")
    else if is_image file.content_type
    then boxed (codes "No preview")
    else icon (get_file_icon file.content_type)

abbrev pub thumbnail_without_image : FileDto → Preview
thumbnail_without_image file =
    if is_pending file.preview_status
    then boxed (codes "Processing" ++ 8230 ∷ [])
    else if is_failed file.preview_status
    then boxed (codes "Preview failed")
    else boxed (codes "No preview")

abbrev pub image_or : Preview → FileDto → Option Text → Preview
image_or otherwise file none = otherwise
image_or otherwise file (some url) = image url file.preview_width file.preview_height

unfoldable pub preview_cell : FileDto → Preview
unfolding is_pending is_failed filled
preview_cell file = image_or (cell_without_image file) file (filled file.preview_url)

unfoldable pub photo_thumbnail : FileDto → Preview
unfolding is_pending is_failed filled
photo_thumbnail file = image_or (thumbnail_without_image file) file (filled file.preview_url)

pub data Viewer : Type 0 where
  image_view video_view frame_view : Text → Viewer

unfoldable pub file_viewer : Text → Text → Viewer
file_viewer content_type open_url =
    if is_image content_type
    then image_view open_url
    else if starts_with content_type (codes "video/")
    then video_view open_url
    else frame_view open_url
