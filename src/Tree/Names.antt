-- ===== src/Tree/Names.antt =====
-- The names that folders and files are shown under.
use file_indexer.Prelude.{
  ℕ, ◌≡◌, refl, ap, ◌⊎◌, inl, inr, false, some, List, [], ◌∷◌, ◌++◌, Text, ◌==◌, map,
}
use file_indexer.Js.Join.{cons_to_first, split}
use file_indexer.Folders.{
  cons_key, split_key, file_name, drop_end_slash, segments, Crumb, crumbs_from, crumbs,
}
use file_indexer.Paths.Normal.{slash-cases}
use file_indexer.Tree.{pop, folder_name}

-- The parts of a text, and where its last slash splits it.
abbrev IsSplit : List Text → Text × Text → Type 0
IsSplit parts (folder, name) =
    ((parts ≡ name ∷ []) × (folder ≡ []))
    ⊎ ((part : Text) × (next : Text) × (others : List Text) × (c : ℕ) × (rest : Text) × (parts
          ≡ part ∷ next ∷ others)
        × (pop (next ∷ others) ≡ some name)
        × (folder ≡ c ∷ rest))

slash-IsSplit :
    (parts : List Text) (k : Text × Text) → IsSplit parts k → IsSplit ([] ∷ parts) (cons_key b'/' k)
unfolding pop
slash-IsSplit parts (folder, name) (inl (e, none_in)) =
    rw e (rw none_in (inr ([], name, [], b'/', [], refl, refl, refl)))
slash-IsSplit parts (folder, name) (inr (part, next, others, c, rest, e, last, some_in)) =
    rw e (rw some_in (inr ([], part, next ∷ others, b'/', c ∷ rest, refl, last, refl)))

other-IsSplit :
    (d : ℕ) (parts : List Text) (k : Text × Text)
    → (d == b'/') ≡ false
    → IsSplit parts k
    → IsSplit (cons_to_first d parts) (cons_key d k)
unfolding pop
other-IsSplit d parts (folder, name) h (inl (e, none_in)) =
    rw e (rw none_in (rw h (inl (refl, refl))))
other-IsSplit d parts (folder, name) h (inr (part, next, others, c, rest, e, last, some_in)) =
    rw e (rw some_in (inr (d ∷ part, next, others, d, c ∷ rest, refl, last, refl)))

split-IsSplit : (s : Text) → IsSplit (split b'/' s) (split_key s)
unfolding split split_key
split-IsSplit [] = inl (refl, refl)
split-IsSplit (c ∷ s) = elim (slash-cases c) [
  | inl (slashed, here) ↦ rw slashed (slash-IsSplit (split b'/' s) (split_key s) (split-IsSplit s))
  | inr (_, other) ↦ rw other (other-IsSplit c (split b'/' s) (split_key s) other (split-IsSplit s))
]

IsSplit-pop : (parts : List Text) (k : Text × Text) → IsSplit parts k → pop parts ≡ some (k.1)
unfolding pop
IsSplit-pop parts k (inl (e, _)) = rw e refl
IsSplit-pop parts k (inr (part, next, others, c, rest, e, last, _)) = rw e last

pub drop_end_slash-append : (s : Text) → drop_end_slash (s ++ b'/' ∷ []) ≡ s
unfolding drop_end_slash
drop_end_slash-append [] = refl
drop_end_slash-append (c ∷ []) = refl
drop_end_slash-append (c ∷ d ∷ s) = ap (λ t. c ∷ t) (drop_end_slash-append (d ∷ s))

crumbs_from-names :
    (shown names : List Text) → map (λ (c : Crumb). c.name) (crumbs_from shown names) ≡ names
unfolding crumbs_from
crumbs_from-names shown [] = refl
crumbs_from-names shown (name ∷ names) =
    ap (λ ns. name ∷ ns) (crumbs_from-names (shown ++ name ∷ []) names)

segments-append : (s : Text) → segments (s ++ b'/' ∷ []) ≡ split b'/' s
unfolding segments
segments-append [] = ap (split b'/') (drop_end_slash-append [])
segments-append (c ∷ s) = ap (split b'/') (drop_end_slash-append (c ∷ s))

-- A file's page shows it under the name that a move keeps, which is what is behind the last slash of
-- its key. A folder is shown under the same part of its path, less the slash that closes it, in the
-- tree and as the last of its breadcrumbs.
pub pop-split :
    (s : Text)
    → (pop (split b'/' s) ≡ some (file_name s))
      × (folder_name (s ++ b'/' ∷ []) ≡ some (file_name s))
      × (pop (map (λ (c : Crumb). c.name) (crumbs (s ++ b'/' ∷ []))) ≡ some (file_name s))
unfolding folder_name crumbs
pop-split s =
    let last = IsSplit-pop (split b'/' s) (split_key s) (split-IsSplit s) in
    (
      last,
      rw (drop_end_slash-append s) last,
      rw (crumbs_from-names [] (segments (s ++ b'/' ∷ []))) (rw (segments-append s) last),
    )
