-- ===== src/Server/Functions/Urls.antt =====
-- What the server functions for the URLs of a file give back, on every input.
use file_indexer.Prelude.{
  ℕ, suc, ℤ, pos, negsuc, ◌≡◌, ◌≢◌, refl, sym, ◌∙◌, ap, ◌⊎◌, inl, inr, Bool, true, false, none,
  some, List, [], ◌∷◌, ◌++◌, All, Text, codes, ◌===◌, ===_iff, find, Result, ok, err, error,
  Failure, Result-cases, Bool-cases, Outcome, Outcome-cases, Eff, done, failed, pure, ok-injective,
  arith,
}
use file_indexer.Prelude.Effects.{◌>>=◌}
use file_indexer.Js.Value.{Value, str, get}
use file_indexer.Js.Decimal.{decimal, to_string, is_numeric}
use file_indexer.Js.Decimal.Laws.{is_numeric-cons}
use file_indexer.Js.BigInt.{big_int}
use file_indexer.Js.BigInt.Laws.{big_int-decimal, big_int-is_numeric}
use file_indexer.Server.Types.{Timestamp}
use file_indexer.Server.Services.{SearchClient, FilesClient, UrlSpec}
use file_indexer.Server.Validate.{validate_id_input}
use file_indexer.Server.Validate.Ids.{require_numeric_sound}
use file_indexer.Server.Calls.{find_url, or_throw, get_download_url_impl, get_open_url_impl}
use file_indexer.Server.Functions.{get_download_url, get_open_url}

find-cases :
    {A : Type 0} (p : A → Bool) (xs : List A)
    → ((before : List A) × (x : A) × (after : List A) × (xs ≡ before ++ x ∷ after)
        × All (λ y. p y ≡ false) before
        × (p x ≡ true)
        × (find p xs ≡ some x))
      ⊎ (All (λ y. p y ≡ false) xs × (find p xs ≡ none))
find-cases p [] = inr (tt, refl)
find-cases p (x ∷ xs) = elim (Bool-cases (p x)) [
  | inl here ↦ inl ([], x, xs, refl, tt, here, rw here refl)
  | inr other ↦ elim (find-cases p xs) [
    | inl (before, y, after, split, none_yet, this, found) ↦ inl (
      x ∷ before,
      y,
      after,
      ap (λ ys. x ∷ ys) split,
      (other, none_yet),
      this,
      rw (other, found) refl,
    )
    | inr (nowhere, missing) ↦ inr ((other, nowhere), rw (other, missing) refl)
  ]
]

-- A text of digits that prints an integer is the numeral of the number that is read from it.
to_string-is_numeric :
    (a : ℤ) (id : Text) (n : ℕ)
    → is_numeric id ≡ true
    → big_int id ≡ ok (pos n)
    → to_string a ≡ id
    → (a ≡ pos n) × (id ≡ decimal n)
unfolding to_string is_numeric
to_string-is_numeric (pos m) id n numeric read e =
    let same : pos m ≡ pos n = ok-injective (sym (big_int-decimal m) ∙ ap big_int e ∙ read) in
    let equal : m ≡ n = cc in (same, sym e ∙ ap decimal equal)
to_string-is_numeric (negsuc m) id n numeric read e =
    let (c, t, shape, ((low, _), _)) = is_numeric-cons id numeric in
    let dash : b'-' ∷ decimal (suc m) ≡ c ∷ t = e ∙ shape in
    let same : b'-' ≡ c = cc in absurd (omega arith)

validate_id_input-is_numeric :
    (input : Value) (id : Text)
    → validate_id_input input ≡ ok id
    → (get input (codes "id") ≡ str id) × (is_numeric id ≡ true)
unfolding validate_id_input
validate_id_input-is_numeric input id h = require_numeric_sound (get input (codes "id")) id h

others-ne :
    (specs : List UrlSpec) (id : Text) (n : ℕ)
    → id ≡ decimal n
    → All (λ u. (to_string u.id === id) ≡ false) specs
    → All (λ u. u.id ≢ pos n) specs
unfolding to_string
others-ne [] id n e h = tt
others-ne (u ∷ specs) id n e (other, h) = (
  λ same.
      let printed : to_string u.id ≡ id = ap to_string same ∙ sym e in
      let equal = (===_iff (to_string u.id) id).1 printed in cc,
  others-ne specs id n e h,
)

-- The call of the service failed; or an entry of its answer is the first with the number for an id, the
-- text is the numeral of the number, and its URL is given; or there is no such entry, or the text is no
-- such numeral, and an error with the message and the text is thrown.
abbrev pub UrlEnds :
    {S : Type 0} → (List ℤ → Eff S (List UrlSpec)) → Text → Text → ℕ → S → Outcome S Text → Type 0
UrlEnds {S} service message id n s outcome =
    ((e : Failure) × (t : S) × (service (pos n ∷ []) s ≡ failed e t) × (outcome ≡ failed e t))
    ⊎ ((specs : List UrlSpec) × (t : S) × (service (pos n ∷ []) s ≡ done specs t)
        × (((before : List UrlSpec) × (spec : UrlSpec) × (after : List UrlSpec) × (specs
                ≡ before ++ spec ∷ after)
              × All (λ u. u.id ≢ pos n) before
              × (spec.id ≡ pos n)
              × (id ≡ decimal n)
              × (outcome ≡ done spec.url t))
            ⊎ ((All (λ u. u.id ≢ pos n) specs ⊎ (id ≢ decimal n))
                × (outcome ≡ failed (error (message ++ id)) t))))

abbrev url_of : {S : Type 0} → (List ℤ → Eff S (List UrlSpec)) → Text → Text → ℕ → Eff S Text
url_of service message id n = do
  specs ← service (pos n ∷ [])
  spec ← or_throw (message ++ id) (find_url id specs)
  pure spec.url

url_of-UrlEnds :
    {S : Type 0} (service : List ℤ → Eff S (List UrlSpec)) (message id : Text) (n : ℕ) (s : S)
    → is_numeric id ≡ true
    → big_int id ≡ ok (pos n)
    → UrlEnds service message id n s (url_of service message id n s)
unfolding find_url
url_of-UrlEnds service message id n s numeric read = elim (Outcome-cases (service (pos n ∷ []) s)) [
  | inr (e, t, lost) ↦ inl (e, t, lost, rw lost refl)
  | inl (specs, t, told) ↦ elim (find-cases (λ (u : UrlSpec). to_string u.id === id) specs) [
    | inl (before, spec, after, split, none_yet, this, found) ↦
        let (same, numeral) =
          to_string-is_numeric spec.id id n numeric read ((===_iff _ _).0 this) in
        inr (
          specs,
          t,
          told,
          inl (
            before,
            spec,
            after,
            split,
            others-ne before id n numeral none_yet,
            same,
            numeral,
            rw (told, found) refl,
          ),
        )
    | inr (nowhere, missing) ↦
        let why : All (λ (u : UrlSpec). u.id ≢ pos n) specs ⊎ (id ≢ decimal n) =
          elim (Bool-cases (id === decimal n)) [
            | inl numeral ↦ inl (others-ne specs id n ((===_iff _ _).0 numeral) nowhere)
            | inr other ↦ inr (λ e. let equal = (===_iff id (decimal n)).1 e in cc)
          ] in
        inr (specs, t, told, inr (why, rw (told, missing) refl))
  ]
]

module _ {S : Type 0} (search : SearchClient S) (files : FilesClient S)
    (to_iso_string : Timestamp → Result Text) where
  -- `getDownloadUrl` and `getOpenUrl` either reject their input and leave the services as they were, or
  -- ask the service for the URLs of the one integer that the input's `id` denotes. They fail as that
  -- call does; they give the URL of the first entry of the answer with that id, if the id was written
  -- as the integer's numeral; and they throw an error that names the id if there is no such entry or
  -- the id was written otherwise.
  pub url_functions-cases :
      (input : Value) (s : S)
      → ((e : Failure) × (validate_id_input input ≡ err e)
          × (get_download_url search files to_iso_string input s ≡ failed e s)
          × (get_open_url search files to_iso_string input s ≡ failed e s))
        ⊎ ((id : Text) × (n : ℕ) × (get input (codes "id") ≡ str id)
            × (big_int id ≡ ok (pos n))
            × UrlEnds files.get_download_url
                (codes "no download URL returned for file ")
                id
                n
                s
                (get_download_url search files to_iso_string input s)
            × UrlEnds files.get_open_url
                (codes "no open URL returned for file ")
                id
                n
                s
                (get_open_url search files to_iso_string input s))
  unfolding get_download_url get_download_url_impl get_open_url get_open_url_impl
  url_functions-cases input s = elim (Result-cases (validate_id_input input)) [
    | inl (id, accepted) ↦
        let (e, numeric) = validate_id_input-is_numeric input id accepted in
        let (n, read) = big_int-is_numeric id numeric in
        inr (
          id,
          n,
          e,
          read,
          rw (accepted, read)
              (url_of-UrlEnds files.get_download_url (codes "no download URL returned for file ") id
                n s numeric read),
          rw (accepted, read)
              (url_of-UrlEnds files.get_open_url (codes "no open URL returned for file ") id n s
                numeric read),
        )
    | inr (e, refused) ↦ inl (e, refused, rw refused refl, rw refused refl)
  ]
