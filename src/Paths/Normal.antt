-- ===== src/Paths/Normal.antt =====
-- What a normalized upload path looks like.
use file_indexer.Prelude.{
  ℕ, ◌≡◌, ◌≢◌, refl, ◌⊎◌, inl, inr, ap, sym, ◌∙◌, subst, Bool, true, false, [], ◌∷◌, Text, ◌==◌,
  Bool-cases, ==_iff,
}
use file_indexer.Js.Space.{trim}
use file_indexer.Paths.{
  drop_slashes, cons_slash, collapse, end_in_slash, or_root, normalize_upload_path,
}

-- A folder's key: segments that are not empty, each closed by a slash. The flag says whether a
-- segment has begun.
abbrev pub Segments : Bool → Text → Type 0
Segments true [] = ⊥
Segments false [] = Unit
Segments inside (c ∷ s) =
    ((c ≡ b'/') × (inside ≡ true) × Segments false s) ⊎ ((c ≢ b'/') × Segments true s)

pub slash-cases :
    (c : ℕ) → ((c ≡ b'/') × ((c == b'/') ≡ true)) ⊎ ((c ≢ b'/') × ((c == b'/') ≡ false))
slash-cases c = elim (Bool-cases (c == b'/')) [
  | inl slash ↦ inl ((==_iff c b'/').0 slash, slash)
  | inr other ↦ inr ((λ e. let t = (==_iff c b'/').1 e in cc), other)
]

end_in_slash-cons : (c : ℕ) (s : Text) → c ≢ b'/' → end_in_slash (c ∷ s) ≡ c ∷ end_in_slash s
unfolding end_in_slash
end_in_slash-cons c [] other = elim (slash-cases c) [
  | inl (slash, _) ↦ absurd (other slash)
  | inr (_, e) ↦ rw e
]
end_in_slash-cons c (d ∷ s) other = refl

Segments-start : (c : ℕ) (s : Text) → c ≢ b'/' → Segments true (c ∷ s) → Segments false (c ∷ s)
Segments-start c s other (inl (slash, _, _)) = absurd (other slash)
Segments-start c s other (inr began) = inr began

-- A slash in front of collapsed text opens a segment after it.
end_in_slash-cons_slash :
    (s : Text) → Segments true (end_in_slash s) → Segments true (end_in_slash (cons_slash s))
unfolding end_in_slash
end_in_slash-cons_slash [] h = inl (refl, refl, tt)
end_in_slash-cons_slash (c ∷ s) h = elim (slash-cases c) [
  | inl (_, e) ↦ rw e h
  | inr (other, e) ↦ rw e (
      inl (
        refl,
        refl,
        subst (Segments false) (sym (end_in_slash-cons c s other)) (
            Segments-start c (end_in_slash s) other
              (subst (Segments true) (end_in_slash-cons c s other) h)),
      ))
]

end_in_slash-collapse : (s : Text) → Segments true (end_in_slash (collapse s))
unfolding collapse end_in_slash
end_in_slash-collapse [] = inl (refl, refl, tt)
end_in_slash-collapse (c ∷ s) = elim (slash-cases c) [
  | inl (_, e) ↦ rw e (end_in_slash-cons_slash (collapse s) (end_in_slash-collapse s))
  | inr (other, e) ↦ rw e (
      subst (Segments true) (sym (end_in_slash-cons c (collapse s) other))
        (inr (other, end_in_slash-collapse s)))
]

or_root-Segments : (c : ℕ) (s : Text) → c ≢ b'/' → Segments false (or_root (c ∷ s))
unfolding collapse
or_root-Segments c s other = elim (slash-cases c) [
  | inl (slash, _) ↦ absurd (other slash)
  | inr (_, e) ↦ rw e (
      subst (Segments false) (sym (end_in_slash-cons c (collapse s) other))
        (inr (other, end_in_slash-collapse s)))
]

or_root-drop_slashes : (s : Text) → Segments false (or_root (drop_slashes s))
unfolding drop_slashes
or_root-drop_slashes [] = tt
or_root-drop_slashes (c ∷ s) = elim (slash-cases c) [
  | inl (_, e) ↦ rw e (or_root-drop_slashes s)
  | inr (other, e) ↦ rw e (or_root-Segments c s other)
]

-- Whatever is typed, `normalizeUploadPath` returns the empty text or segments that are not empty,
-- each closed by one slash: no slash leads, no two stand together, and the last character is one.
pub normalize_upload_path-Segments : (path : Text) → Segments false (normalize_upload_path path)
unfolding normalize_upload_path
normalize_upload_path-Segments path = or_root-drop_slashes (trim path)

drop_slashes-Segments : (s : Text) → Segments false s → drop_slashes s ≡ s
unfolding drop_slashes
drop_slashes-Segments [] h = refl
drop_slashes-Segments (c ∷ s) (inl (_, started, _)) = cc
drop_slashes-Segments (c ∷ s) (inr (other, _)) = elim (slash-cases c) [
  | inl (slash, _) ↦ absurd (other slash)
  | inr (_, e) ↦ rw e
]

cons_slash-Segments : (s : Text) → Segments false s → cons_slash s ≡ b'/' ∷ s
cons_slash-Segments [] h = refl
cons_slash-Segments (c ∷ s) (inl (_, started, _)) = cc
cons_slash-Segments (c ∷ s) (inr (other, _)) = elim (slash-cases c) [
  | inl (slash, _) ↦ absurd (other slash)
  | inr (_, e) ↦ rw e
]

collapse-Segments : (inside : Bool) (s : Text) → Segments inside s → collapse s ≡ s
unfolding collapse
collapse-Segments inside [] h = refl
collapse-Segments inside (c ∷ s) (inl (slash, _, h)) =
    rw (slash, collapse-Segments false s h) (cons_slash-Segments s h)
collapse-Segments inside (c ∷ s) (inr (other, h)) = elim (slash-cases c) [
  | inl (slash, _) ↦ absurd (other slash)
  | inr (_, e) ↦ rw e (ap (λ t. c ∷ t) (collapse-Segments true s h))
]

end_in_slash-Segments :
    (inside : Bool) (c : ℕ) (s : Text) → Segments inside (c ∷ s) → end_in_slash (c ∷ s) ≡ c ∷ s
unfolding end_in_slash
end_in_slash-Segments inside c [] (inl (slash, _, _)) = rw slash
end_in_slash-Segments inside c [] (inr (_, h)) = elim h [ ]
end_in_slash-Segments inside c (d ∷ s) (inl (_, _, h)) =
    ap (λ t. c ∷ t) (end_in_slash-Segments false d s h)
end_in_slash-Segments inside c (d ∷ s) (inr (_, h)) =
    ap (λ t. c ∷ t) (end_in_slash-Segments true d s h)

or_root-same : (s : Text) → Segments false s → or_root s ≡ s
or_root-same [] h = refl
or_root-same (c ∷ s) h =
    ap end_in_slash (collapse-Segments false (c ∷ s) h) ∙ end_in_slash-Segments false c s h

-- The key of a folder with no white space at either end is left as it is.
pub normalize_upload_path-same :
    (path : Text) → trim path ≡ path → Segments false path → normalize_upload_path path ≡ path
unfolding normalize_upload_path
normalize_upload_path-same path plain h =
    ap (λ s. or_root (drop_slashes s)) plain
    ∙ ap or_root (drop_slashes-Segments path h)
    ∙ or_root-same path h
