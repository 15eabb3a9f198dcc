-- ===== src/Photos/Days.antt =====
-- What the groups of photos contain.
use file_indexer.Prelude.{
  ◌≡◌, ◌≢◌, refl, sym, ◌∙◌, ap, inl, inr, Option, List, [], ◌∷◌, ◌++◌, append-nil, append_assoc,
  flat_map, All, All-append, Text, ◌===◌, ===_iff, Bool-cases,
}
use mathlib.Core.List.{foldl}
use file_indexer.Server.Types.{FileDto}
use file_indexer.Photos.{DayGroup, effective_date, add_file, add_by_day, group_by_day}

abbrev pub files_of : List DayGroup → List FileDto
files_of groups = flat_map (λ (g : DayGroup). g.files) groups

add_file-files :
    (date : Text) (file : FileDto) (groups : List DayGroup)
    → files_of (add_file date file groups) ≡ files_of groups ++ file ∷ []
unfolding add_file
add_file-files date file [] = refl
add_file-files date file (g ∷ []) = elim (Bool-cases (g.date === date)) [
  | inl same ↦
      rw same
        (append-nil (g.files ++ file ∷ []) ∙ ap (λ fs. fs ++ file ∷ []) (sym (append-nil g.files)))
  | inr other ↦ rw other (ap (λ fs. fs ++ file ∷ []) (sym (append-nil g.files)))
]
add_file-files date file (g ∷ h ∷ groups) =
    ap (λ fs. g.files ++ fs) (add_file-files date file (h ∷ groups))
    ∙ sym (append_assoc g.files (files_of (h ∷ groups)) (file ∷ []))

append-ne-nil : (fs : List FileDto) (file : FileDto) → fs ++ file ∷ [] ≢ []
append-ne-nil [] file e = cc
append-ne-nil (f ∷ fs) file e = cc

module _ (format_date : Option Text → Text) where
  -- A group has a file, and only files of its date.
  abbrev pub IsDay : DayGroup → Type 0
  IsDay g = (g.files ≢ []) × All (λ f. format_date (effective_date f) ≡ g.date) g.files

  -- Groups of a day each, where neighbours are of different dates.
  abbrev pub AreDays : List DayGroup → Type 0
  AreDays [] = Unit
  AreDays (g ∷ []) = IsDay g
  AreDays (g ∷ h ∷ groups) = IsDay g × (g.date ≢ h.date) × AreDays (h ∷ groups)

  new-IsDay :
      (file : FileDto)
      → IsDay (record { date = format_date (effective_date file); files = file ∷ [] })
  new-IsDay file = ((λ e. cc), (refl, tt))

  grown-IsDay :
      (g : DayGroup) (file : FileDto)
      → IsDay g
      → format_date (effective_date file) ≡ g.date
      → IsDay (record g { files = g.files ++ file ∷ [] })
  grown-IsDay g file (full, days) e = (
    append-ne-nil g.files file,
    All-append (λ f. format_date (effective_date f) ≡ g.date) g.files (file ∷ []) days (e, tt),
  )

  cons-AreDays :
      (g h : DayGroup) (date : Text) (file : FileDto) (groups : List DayGroup)
      → IsDay g
      → g.date ≢ h.date
      → AreDays (add_file date file (h ∷ groups))
      → AreDays (g ∷ add_file date file (h ∷ groups))
  unfolding add_file
  cons-AreDays g h date file [] day differs days = elim (Bool-cases (h.date === date)) [
    | inl same ↦ rw same (day, differs, (rw same at days))
    | inr other ↦ rw other (day, differs, (rw other at days))
  ]
  cons-AreDays g h date file (k ∷ groups) day differs days = (day, differs, days)

  add_by_day-AreDays :
      (groups : List DayGroup) (file : FileDto)
      → AreDays groups
      → AreDays (add_by_day format_date groups file)
  unfolding add_file
  add_by_day-AreDays [] file days = new-IsDay file
  add_by_day-AreDays (g ∷ []) file day =
      elim (Bool-cases (g.date === format_date (effective_date file))) [
        | inl same ↦ rw same (
            grown-IsDay g file day
              (sym ((===_iff g.date (format_date (effective_date file))).0 same)))
        | inr other ↦ rw other (
          day,
          (λ e. let t = (===_iff g.date (format_date (effective_date file))).1 e in cc),
          new-IsDay file,
        )
      ]
  add_by_day-AreDays (g ∷ h ∷ groups) file (day, differs, days) =
      cons-AreDays g h (format_date (effective_date file)) file groups day differs
        (add_by_day-AreDays (h ∷ groups) file days)

  foldl-days :
      (files : List FileDto) (groups : List DayGroup)
      → AreDays groups
      → (files_of (foldl (add_by_day format_date) groups files) ≡ files_of groups ++ files)
        × AreDays (foldl (add_by_day format_date) groups files)
  foldl-days [] groups days = (sym (append-nil (files_of groups)), days)
  foldl-days (file ∷ files) groups days =
      let (whole, are_days) =
        foldl-days files (add_by_day format_date groups file)
          (add_by_day-AreDays groups file days) in
      (
        whole
            ∙ ap (λ fs. fs ++ files)
                (add_file-files (format_date (effective_date file)) file groups)
            ∙ append_assoc (files_of groups) (file ∷ []) files,
        are_days,
      )

  -- The groups of `groupByDay`, put together, are the files in their order; each group has a file, and
  -- only files of its date, and no two neighbours have the same date.
  pub group_by_day-AreDays :
      (files : List FileDto)
      → (files_of (group_by_day format_date files) ≡ files)
        × AreDays (group_by_day format_date files)
  unfolding group_by_day
  group_by_day-AreDays files = foldl-days files [] tt
