-- ===== src/Photos/Further.antt =====
-- What further photos do to the groups that are there.
use file_indexer.Prelude.{
  ◌≡◌, refl, sym, ◌∙◌, ap, inl, inr, Option, List, [], ◌∷◌, ◌++◌, append-nil, append_assoc,
  flat_map-append, Text, ◌===◌, Bool-cases,
}
use mathlib.Core.List.{foldl, foldl-append, append_cancel_left}
use file_indexer.Server.Types.{FileDto}
use file_indexer.Photos.{DayGroup, effective_date, add_file, add_by_day, group_by_day}
use file_indexer.Photos.Days.{files_of, group_by_day-AreDays}

-- A photo goes to the last group or behind it, so the groups before stay.
add_file-append :
    (date : Text) (file : FileDto) (before : List DayGroup) (g : DayGroup) (groups : List DayGroup)
    → add_file date file (before ++ g ∷ groups) ≡ before ++ add_file date file (g ∷ groups)
unfolding add_file
add_file-append date file [] g groups = refl
add_file-append date file (b ∷ []) g groups = refl
add_file-append date file (b ∷ c ∷ before) g groups =
    ap (λ gs. b ∷ gs) (add_file-append date file (c ∷ before) g groups)

-- Groups that begin with one of the given group's date, which has its files first.
abbrev pub Extends : DayGroup → List DayGroup → Type 0
Extends g groups =
    (more : List FileDto) × (later : List DayGroup) × (groups
      ≡ record { date = g.date; files = g.files ++ more } ∷ later)

add_file-Extends :
    (date : Text) (file : FileDto) (g : DayGroup) (groups : List DayGroup)
    → Extends g groups
    → Extends g (add_file date file groups)
unfolding add_file
add_file-Extends date file g groups (more, [], e) = elim (Bool-cases (g.date === date)) [
  | inl same ↦ (
    more ++ file ∷ [],
    [],
    rw e (
        rw same (
          ap (λ fs. record { date = g.date; files = fs } ∷ [])
            (append_assoc g.files more (file ∷ [])))),
  )
  | inr other ↦ (more, record { date = date; files = file ∷ [] } ∷ [], rw e (rw other refl))
]
add_file-Extends date file g groups (more, h ∷ later, e) =
    (more, add_file date file (h ∷ later), rw e refl)

module _ (format_date : Option Text → Text) where
  foldl-Extends :
      (files : List FileDto) (before : List DayGroup) (g h : DayGroup) (groups : List DayGroup)
      → Extends g (h ∷ groups)
      → (all : List DayGroup) × (foldl (add_by_day format_date) (before ++ h ∷ groups) files
          ≡ before ++ all)
        × Extends g all
  foldl-Extends [] before g h groups x = (h ∷ groups, refl, x)
  foldl-Extends (file ∷ files) before g h groups x =
      let date = format_date (effective_date file) in
      let step = add_file-append date file before h groups in
      let (more, later, e) = add_file-Extends date file g (h ∷ groups) x in
      let grown : DayGroup = record { date = g.date; files = g.files ++ more } in
      let (all, whole, y) = foldl-Extends files before g grown later (more, later, refl) in
      (
        all,
        ap (λ gs. foldl (add_by_day format_date) gs files) (step ∙ ap (λ gs. before ++ gs) e)
            ∙ whole,
        y,
      )

  grown_groups :
      (files further : List FileDto) (before : List DayGroup) (g : DayGroup)
      → group_by_day format_date files ≡ before ++ g ∷ []
      → (more : List FileDto) × (later : List DayGroup) × (group_by_day format_date
            (files ++ further)
          ≡ before ++ record { date = g.date; files = g.files ++ more } ∷ later)
  unfolding group_by_day
  grown_groups files further before g e =
      let (all, whole, (more, later, f)) =
        foldl-Extends further before g g [] (
          [],
          [],
          ap (λ fs. record { date = g.date; files = fs } ∷ []) (sym (append-nil g.files)),
        ) in
      (
        more,
        later,
        foldl-append (add_by_day format_date) [] files further
            ∙ ap (λ gs. foldl (add_by_day format_date) gs further) e
            ∙ whole
            ∙ ap (λ gs. before ++ gs) f,
      )

  -- What comes behind the photos of a group is what the groups have in all, without the photos up to it.
  files_of-further :
      (files further more : List FileDto) (before : List DayGroup) (g : DayGroup)
      (later : List DayGroup)
      → group_by_day format_date files ≡ before ++ g ∷ []
      → group_by_day format_date (files ++ further)
        ≡ before ++ record { date = g.date; files = g.files ++ more } ∷ later
      → more ++ files_of later ≡ further
  files_of-further files further more before g later e f =
      let grown : DayGroup = record { date = g.date; files = g.files ++ more } in
      let behind = files_of before in
      let (first, _) = group_by_day-AreDays format_date files in
      let (whole, _) = group_by_day-AreDays format_date (files ++ further) in
      let old : behind ++ g.files ≡ files =
        ap (λ fs. behind ++ fs) (sym (append-nil g.files))
        ∙ sym (flat_map-append (λ (h : DayGroup). h.files) before (g ∷ []))
        ∙ ap files_of (sym e)
        ∙ first in
      let new : behind ++ (g.files ++ (more ++ files_of later)) ≡ files ++ further =
        ap (λ fs. behind ++ fs) (sym (append_assoc g.files more (files_of later)))
        ∙ sym (flat_map-append (λ (h : DayGroup). h.files) before (grown ∷ later))
        ∙ ap files_of (sym f)
        ∙ whole in
      append_cancel_left g.files _ _ (
        append_cancel_left behind _ _
          (new ∙ ap (λ fs. fs ++ further) (sym old) ∙ append_assoc behind g.files further))

  -- When further photos are loaded, all groups but the last stay as they are, and the last keeps its
  -- date and its photos; the further photos follow in their order, some of them behind those of the
  -- last group and the others in new groups behind it.
  pub group_by_day-append :
      (files further : List FileDto) (before : List DayGroup) (g : DayGroup)
      → group_by_day format_date files ≡ before ++ g ∷ []
      → (more : List FileDto) × (later : List DayGroup) × (group_by_day format_date
            (files ++ further)
          ≡ before ++ record { date = g.date; files = g.files ++ more } ∷ later)
        × (more ++ files_of later ≡ further)
  group_by_day-append files further before g e =
      let (more, later, f) = grown_groups files further before g e in
      (more, later, f, files_of-further files further more before g later e f)
