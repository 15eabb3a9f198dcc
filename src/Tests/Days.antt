-- ===== src/Tests/Days.antt =====
-- Groups of photos at concrete inputs.
use file_indexer.Prelude.{
  ◌≡◌, refl, Option, none, some, List, [], ◌∷◌, ◌++◌, map, Text, codes, ◌===◌, pos,
}
use file_indexer.Server.Types.{PreviewStatus, FileDto}
use file_indexer.Photos.{DayGroup, group_by_day}
use file_indexer.Photos.Further.{group_by_day-append}
use file_indexer.Photos.Days.{files_of, AreDays, group_by_day-AreDays}

abbrev photo : Text → Option Text → Option Text → FileDto
photo id taken_at updated_at = record {
  id = id;
  key = codes "a.jpg";
  content_type = codes "image/jpeg";
  size_bytes = pos 3;
  created_at = none;
  updated_at = updated_at;
  taken_at = taken_at;
  preview_url = none;
  preview_width = none;
  preview_height = none;
  preview_status = PreviewStatus.ready;
}

-- The day of a date, which is written as the day alone here.
abbrev day : Option Text → Text
day none = codes "-"
day (some t) = t

abbrev photos : List FileDto
photos =
    photo (codes "1") (some (codes "mon")) (some (codes "fri"))
    ∷ photo (codes "2") none (some (codes "mon"))
    ∷ photo (codes "3") none none
    ∷ []

two_days :
    group_by_day day photos
    ≡ record {
      date = codes "mon";
      files =
          photo (codes "1") (some (codes "mon")) (some (codes "fri"))
          ∷ photo (codes "2") none (some (codes "mon"))
          ∷ [];
    }
      ∷ record { date = codes "-"; files = photo (codes "3") none none ∷ [] }
      ∷ []
unfolding group_by_day ◌===◌
two_days = refl

group_by_day-AreDays_example :
    (files_of (group_by_day day photos) ≡ photos) × AreDays day (group_by_day day photos)
group_by_day-AreDays_example = group_by_day-AreDays day photos

-- Two photos of one day with another day's photo between them make two groups of one date.
same_date_twice :
    map
      (λ (g : DayGroup). g.date)
      (group_by_day day (
        photo (codes "1") (some (codes "mon")) none
        ∷ photo (codes "2") none (some (codes "tue"))
        ∷ photo (codes "3") (some (codes "mon")) none
        ∷ []))
    ≡ codes "mon" ∷ codes "tue" ∷ codes "mon" ∷ []
unfolding group_by_day ◌===◌
same_date_twice = refl

-- Two more photos of the day on show last, and one of another.
abbrev further : List FileDto
further =
    photo (codes "4") none none
    ∷ photo (codes "5") none none
    ∷ photo (codes "6") none (some (codes "mon"))
    ∷ []

abbrev monday : DayGroup
monday = record {
  date = codes "mon";
  files =
      photo (codes "1") (some (codes "mon")) (some (codes "fri"))
      ∷ photo (codes "2") none (some (codes "mon"))
      ∷ [];
}

abbrev undated : DayGroup
undated = record { date = codes "-"; files = photo (codes "3") none none ∷ [] }

group_by_day-append_example :
    (more : List FileDto) × (later : List DayGroup) × (group_by_day day (photos ++ further)
      ≡ (monday ∷ [])
        ++ record { date = codes "-"; files = photo (codes "3") none none ∷ [] ++ more } ∷ later)
    × (more ++ files_of later ≡ further)
group_by_day-append_example = group_by_day-append day photos further (monday ∷ []) undated two_days
