-- ===== src/Format.antt =====
-- How the pages print things: web/src/lib/formatDate.ts, web/src/lib/fileIcon.ts, and `formatBytes` of
-- web/src/components/FileMetadataTable.tsx.
pub mod Bytes
pub mod Previews
pub mod Metadata
use file_indexer.Prelude.{
  ℕ, zero, suc, ◌+◌, ◌*◌, ◌/◌, ◌%◌, ℤ, pos, negsuc, Bool, true, false, ◌||◌, Option, none, some,
  List, [], ◌∷◌, ◌++◌, any, Text, codes, ◌===◌, ltb, starts_with, if◌then◌else◌, or_default,
}
use file_indexer.Js.Decimal.{decimal, to_string}

-- `new Date(text)`, with nothing for an invalid one, and the format of its day are parameters.
module _ {Time : Type 0} (read_date : Text → Option Time) (format_day : Time → Text) where
  abbrev pub format_read : Text → Option Time → Text
  format_read iso none = iso
  format_read iso (some time) = format_day time

  unfoldable pub format_date : Option Text → Text
  format_date none = []
  format_date (some []) = []
  format_date (some (c ∷ s)) = format_read (c ∷ s) (read_date (c ∷ s))

pub data Unit1024 : Type 0 where
  kb mb gb tb : Unit1024

unfoldable pub unit_text : Unit1024 → Text
unit_text kb = codes "KB"
unit_text mb = codes "MB"
unit_text gb = codes "GB"
unit_text tb = codes "TB"

-- The loop over the units behind one: a value is `bytes / divisor`, which is a double without rounding
-- since the divisor is a power of two.
unfoldable pub scale : ℕ → ℕ → Unit1024 → List Unit1024 → ℕ × Unit1024
scale bytes divisor unit [] = (divisor, unit)
scale bytes divisor unit (next ∷ units) =
    let larger = scale bytes (1024 * divisor) next units in
    if ltb bytes (1024 * divisor) then (divisor, unit) else larger

-- Tenths of `bytes / divisor`, the larger of two that are as near.
unfoldable pub tenths : ℕ → ℕ → ℕ
tenths bytes divisor = (20 * bytes + divisor) / (2 * divisor)

-- `value.toFixed(1)`, for a value in tenths
unfoldable pub fixed_text : ℕ → Text
fixed_text n = decimal (n / 10) ++ (b'.' ∷ decimal (n % 10))

abbrev pub scaled_text : ℕ → ℕ × Unit1024 → Text
scaled_text bytes (divisor, unit) = fixed_text (tenths bytes divisor) ++ (b' ' ∷ unit_text unit)

unfoldable pub format_bytes : ℤ → Text
unfolding scale tenths fixed_text
format_bytes (pos n) =
    if ltb n 1024
    then to_string (pos n) ++ codes " B"
    else scaled_text n (scale n 1024 kb (mb ∷ gb ∷ tb ∷ []))
format_bytes (negsuc n) = to_string (negsuc n) ++ codes " B"

pub record FileIcon : Type 0 where
  pub emoji : Text
  pub label : Text

abbrev archive_types : List Text
archive_types =
    codes "application/zip"
    ∷ codes "application/x-tar"
    ∷ codes "application/gzip"
    ∷ codes "application/x-bzip2"
    ∷ codes "application/x-7z-compressed"
    ∷ codes "application/x-rar-compressed"
    ∷ codes "application/x-zip-compressed"
    ∷ []

-- An emoji is a pair of code units.
unfoldable pub get_file_icon : Text → FileIcon
get_file_icon content_type =
    if starts_with content_type (codes "text/")
    then record { emoji = 55357 ∷ 56516 ∷ []; label = codes "Text file" }
    else if content_type === codes "application/pdf"
    then record { emoji = 55357 ∷ 56533 ∷ []; label = codes "PDF" }
    else if starts_with content_type (codes "video/")
    then record { emoji = 55356 ∷ 57260 ∷ []; label = codes "Video" }
    else if starts_with content_type (codes "audio/")
    then record { emoji = 55356 ∷ 57269 ∷ []; label = codes "Audio" }
    else if any (λ t. content_type === t) archive_types
    then record { emoji = 55357 ∷ 56550 ∷ []; label = codes "Archive" }
    else record { emoji = 55357 ∷ 56526 ∷ []; label = codes "File" }
