-- ===== src/Folders/Targets.antt =====
-- Where breadcrumbs lead.
use file_indexer.Prelude.{
  ℕ, ◌≢◌, refl, sym, inl, inr, Bool, true, false, List, [], ◌∷◌, ◌++◌, append_assoc, subst, All,
  All-append, Text,
}
use file_indexer.Js.Join.{join, cons_to_first, split}
use file_indexer.Paths.Normal.{Segments, slash-cases}
use file_indexer.Folders.{Crumb, drop_end_slash, segments, crumbs_from, crumbs}
use file_indexer.Folders.Crumbs.{NotSlash}
use file_indexer.Folders.Dialog.{Segments-append, Segments-named}

-- The name of a folder: it is not empty, and has no slash.
abbrev pub Named : Text → Type 0
Named name = (name ≢ []) × All NotSlash name

abbrev FirstNamed : Bool → Text → Type 0
FirstNamed false part = Named part
FirstNamed true part = All NotSlash part

abbrev AllNamed : Bool → List Text → Type 0
AllNamed inside [] = ⊥
AllNamed inside (part ∷ parts) = FirstNamed inside part × All Named parts

AllNamed-All : (parts : List Text) → AllNamed false parts → All Named parts
AllNamed-All [] h = elim h [ ]
AllNamed-All (part ∷ parts) h = h

cons_to_first-AllNamed :
    (inside : Bool) (c : ℕ) (parts : List Text)
    → c ≢ b'/'
    → AllNamed true parts
    → AllNamed inside (cons_to_first c parts)
cons_to_first-AllNamed inside c [] other h = elim h [ ]
cons_to_first-AllNamed true c (part ∷ parts) other (first, h) = ((other, first), h)
cons_to_first-AllNamed false c (part ∷ parts) other (first, h) = (((λ e. cc), (other, first)), h)

split-AllNamed :
    (inside : Bool) (c : ℕ) (s : Text)
    → Segments inside (c ∷ s)
    → AllNamed inside (split b'/' (drop_end_slash (c ∷ s)))
unfolding drop_end_slash split
split-AllNamed true c [] (inl (here, _, _)) = rw here (tt, tt)
split-AllNamed false c [] (inl (here, began, _)) = cc
split-AllNamed inside c [] (inr (_, h)) = elim h [ ]
split-AllNamed true c (d ∷ s) (inl (here, _, h)) =
    rw here (tt, AllNamed-All _ (split-AllNamed false d s h))
split-AllNamed false c (d ∷ s) (inl (here, began, h)) = cc
split-AllNamed inside c (d ∷ s) (inr (other, h)) = elim (slash-cases c) [
  | inl (slashed, _) ↦ absurd (other slashed)
  | inr (_, e) ↦ rw e (
      cons_to_first-AllNamed inside c (split b'/' (drop_end_slash (d ∷ s))) other
        (split-AllNamed true d s h))
]

pub segments-All : (path : Text) → Segments false path → All Named (segments path)
unfolding segments
segments-All [] h = tt
segments-All (c ∷ s) h =
    AllNamed-All (split b'/' (drop_end_slash (c ∷ s))) (split-AllNamed false c s h)

abbrev slash : Text
slash = b'/' ∷ []

join-Segments :
    (name : Text) (names : List Text)
    → Named name
    → All Named names
    → Segments false (join slash (name ∷ names) ++ slash)
unfolding join
join-Segments name [] (full, h) k = Segments-named name full h
join-Segments name (next ∷ names) (full, h) (first, k) =
    subst (Segments false) (sym (append_assoc (name ++ slash) (join slash (next ∷ names)) slash)) (
      Segments-append false (name ++ slash) (join slash (next ∷ names) ++ slash)
        (Segments-named name full h) (join-Segments next names first k))

All-join-Segments :
    (names : List Text) → names ≢ [] → All Named names → Segments false (join slash names ++ slash)
All-join-Segments [] full h = absurd (full refl)
All-join-Segments (name ∷ names) full (first, h) = join-Segments name names first h

-- A crumb that leads to a folder.
abbrev pub ToFolder : Crumb → Type 0
ToFolder c = Segments false c.target

append-one : {A : Type 0} (xs : List A) (x : A) → (xs ++ x ∷ []) ≢ []
append-one [] x e = cc
append-one (_ ∷ xs) x e = cc

pub crumbs_from-All :
    (shown names : List Text)
    → All Named shown
    → All Named names
    → All ToFolder (crumbs_from shown names)
unfolding crumbs_from
crumbs_from-All shown [] h k = tt
crumbs_from-All shown (name ∷ names) h (first, k) =
    let here = All-append Named shown (name ∷ []) h (first, tt) in
    (
      All-join-Segments (shown ++ name ∷ []) (append-one shown name) here,
      crumbs_from-All (shown ++ name ∷ []) names here k,
    )

-- Each breadcrumb of a folder leads to a folder.
pub crumbs-All : (path : Text) → Segments false path → All ToFolder (crumbs path)
unfolding crumbs
crumbs-All path h = crumbs_from-All [] (segments path) tt (segments-All path h)
