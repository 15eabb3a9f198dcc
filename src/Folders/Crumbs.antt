-- ===== src/Folders/Crumbs.antt =====
-- Where the last breadcrumb leads, and how a key falls into a folder and a name.
use file_indexer.Prelude.{
  ℕ, ◌≡◌, ◌≢◌, refl, sym, ◌∙◌, ap, ◌⊎◌, inl, inr, Bool, true, false, List, [], ◌∷◌, ◌++◌,
  append_assoc, All, Text,
}
use file_indexer.Js.Join.{join, split}
use file_indexer.Paths.Normal.{Segments, slash-cases}
use file_indexer.Folders.{
  Crumb, drop_end_slash, segments, crumbs_from, crumbs, cons_key, split_key, file_name,
  current_folder,
}

abbrev slash : Text
slash = b'/' ∷ []

split-cons : (s : Text) → (part : Text) × (parts : List Text) × (split b'/' s ≡ part ∷ parts)
unfolding split
split-cons [] = ([], [], refl)
split-cons (c ∷ s) =
    let (part, parts, e) = split-cons s in
    elim (slash-cases c) [
      | inl (_, here) ↦ ([], part ∷ parts, rw (here, e) refl)
      | inr (_, other) ↦ (c ∷ part, parts, rw (other, e) refl)
    ]

join-cons_to_first :
    (c : ℕ) (part : Text) (parts : List Text)
    → join slash ((c ∷ part) ∷ parts) ≡ c ∷ join slash (part ∷ parts)
unfolding join
join-cons_to_first c part [] = refl
join-cons_to_first c part (next ∷ parts) = refl

pub join-split : (s : Text) → join slash (split b'/' s) ≡ s
unfolding join split
join-split [] = refl
join-split (c ∷ s) =
    let (part, parts, e) = split-cons s in
    let whole = sym (ap (join slash) e) ∙ join-split s in
    elim (slash-cases c) [
      | inl (slashed, here) ↦
          rw (here, e) (ap (λ t. b'/' ∷ t) whole ∙ ap (λ d. d ∷ s) (sym slashed))
      | inr (_, other) ↦ rw (other, e) (join-cons_to_first c part parts ∙ ap (λ t. c ∷ t) whole)
    ]

drop_end_slash-Segments :
    (inside : Bool) (c : ℕ) (s : Text)
    → Segments inside (c ∷ s)
    → drop_end_slash (c ∷ s) ++ slash ≡ c ∷ s
unfolding drop_end_slash
drop_end_slash-Segments inside c [] (inl (here, _, _)) = rw here refl
drop_end_slash-Segments inside c [] (inr (_, h)) = elim h [ ]
drop_end_slash-Segments inside c (d ∷ s) (inl (_, _, h)) =
    ap (λ t. c ∷ t) (drop_end_slash-Segments false d s h)
drop_end_slash-Segments inside c (d ∷ s) (inr (_, h)) =
    ap (λ t. c ∷ t) (drop_end_slash-Segments true d s h)

crumbs_from-last :
    (shown : List Text) (name : Text) (names : List Text)
    → (front : List Crumb) × (last : Text) × (crumbs_from shown (name ∷ names)
        ≡ front
          ++ record { name = last; target = join slash (shown ++ name ∷ names) ++ slash } ∷ [])
unfolding crumbs_from
crumbs_from-last shown name [] = ([], name, refl)
crumbs_from-last shown name (next ∷ names) =
    let (front, last, e) = crumbs_from-last (shown ++ name ∷ []) next names in
    (
      record { name = name; target = join slash (shown ++ name ∷ []) ++ slash } ∷ front,
      last,
      ap (λ rest. record { name = name; target = join slash (shown ++ name ∷ []) ++ slash } ∷ rest)
          (e
            ∙ ap (λ here. front ++ record { name = last; target = join slash here ++ slash } ∷ [])
                (append_assoc shown (name ∷ []) (next ∷ names))),
    )

-- In a folder, the last breadcrumb leads to the folder itself.
pub crumbs-last :
    (path : Text)
    → path ≢ []
    → Segments false path
    → (front : List Crumb) × (last : Text) × (crumbs path
        ≡ front ++ record { name = last; target = path } ∷ [])
unfolding crumbs segments
crumbs-last [] full h = absurd (full refl)
crumbs-last (c ∷ s) full h =
    let (part, parts, e) = split-cons (drop_end_slash (c ∷ s)) in
    let (front, last, found) = crumbs_from-last [] part parts in
    let whole = sym (ap (join slash) e) ∙ join-split (drop_end_slash (c ∷ s)) in
    (
      front,
      last,
      ap (crumbs_from []) e
          ∙ found
          ∙ ap (λ target. front ++ record { name = last; target = target } ∷ [])
              (ap (λ t. t ++ slash) whole ∙ drop_end_slash-Segments false c s h),
    )

abbrev pub NotSlash : ℕ → Type 0
NotSlash c = c ≢ b'/'

-- Empty, or closed by a slash.
abbrev pub EndsInSlash : Text → Type 0
EndsInSlash s = (s ≡ []) ⊎ ((front : Text) × (s ≡ front ++ slash))

-- What a key is split into.
abbrev IsSplit : Text → Text × Text → Type 0
IsSplit key (folder, name) = (folder ++ name ≡ key) × All NotSlash name × EndsInSlash folder

cons_key-IsSplit :
    (c : ℕ) (s : Text) (parts : Text × Text) → IsSplit s parts → IsSplit (c ∷ s) (cons_key c parts)
cons_key-IsSplit c s ([], name) (whole, plain, _) = elim (slash-cases c) [
  | inl (here, e) ↦ rw e (ap (λ t. c ∷ t) whole, plain, inr ([], ap (λ d. d ∷ []) here))
  | inr (other, e) ↦ rw e (ap (λ t. c ∷ t) whole, (other, plain), inl refl)
]
cons_key-IsSplit c s (d ∷ folder, name) (whole, plain, inl empty) = cc
cons_key-IsSplit c s (d ∷ folder, name) (whole, plain, inr (front, e)) =
    (ap (λ t. c ∷ t) whole, plain, inr (c ∷ front, ap (λ t. c ∷ t) e))

split_key-IsSplit : (key : Text) → IsSplit key (split_key key)
unfolding split_key
split_key-IsSplit [] = (refl, tt, inl refl)
split_key-IsSplit (c ∷ s) = cons_key-IsSplit c s (split_key s) (split_key-IsSplit s)

-- The move dialog shows a file's key as its folder, which is empty or ends in a slash, and its name,
-- which has no slash; put together they are the key.
pub split_key-parts :
    (key : Text)
    → (current_folder key ++ file_name key ≡ key)
      × All NotSlash (file_name key)
      × EndsInSlash (current_folder key)
split_key-parts key = split_key-IsSplit key
