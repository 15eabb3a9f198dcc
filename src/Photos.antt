-- ===== src/Photos.antt =====
-- `groupByDay` of web/src/components/PhotoWall.tsx.
pub mod Days
pub mod Further
use file_indexer.Prelude.{Option, none, some, List, [], ◌∷◌, ◌++◌, Text, ◌===◌, if◌then◌else◌}
use mathlib.Core.List.{foldl}
use file_indexer.Server.Types.{FileDto}

pub record DayGroup : Type 0 where
  pub date : Text
  pub files : List FileDto

abbrev pub or_else : Option Text → Option Text → Option Text
or_else none next = next
or_else (some t) next = some t

-- `file.takenAt ?? file.updatedAt ?? file.createdAt`
abbrev pub effective_date : FileDto → Option Text
effective_date file = or_else file.taken_at (or_else file.updated_at file.created_at)

-- A round of the loop: the file joins the last group, or begins a group behind it.
unfoldable pub add_file : Text → FileDto → List DayGroup → List DayGroup
add_file date file [] = record { date = date; files = file ∷ [] } ∷ []
add_file date file (g ∷ []) =
    if g.date === date
    then record g { files = g.files ++ file ∷ [] } ∷ []
    else g ∷ record { date = date; files = file ∷ [] } ∷ []
add_file date file (g ∷ h ∷ groups) = g ∷ add_file date file (h ∷ groups)

-- Days are told apart by their texts alone, so the way to write a date is a parameter.
module _ (format_date : Option Text → Text) where
  abbrev pub add_by_day : List DayGroup → FileDto → List DayGroup
  add_by_day groups file = add_file (format_date (effective_date file)) file groups

  unfoldable pub group_by_day : List FileDto → List DayGroup
  unfolding add_file
  group_by_day files = foldl add_by_day [] files
