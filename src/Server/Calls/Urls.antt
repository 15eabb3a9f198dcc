-- ===== src/Server/Calls/Urls.antt =====
-- Finding a URL by the text of an id.
use file_indexer.Prelude.{
  ℕ, zero, suc, ℤ, pos, negsuc, ◌≡◌, refl, ◌≢◌, ◌∙◌, sym, fun_ext, none, List, [], ◌∷◌, Text, ◌===◌,
  ===_iff, ===_refl, int_eq, int_eq_iff, Bool-cases, inl, inr, arith, Outcome, Failure, and_then,
  Result-cases, done, failed, throw,
}
use file_indexer.Js.Decimal.{to_string}
use file_indexer.Js.Decimal.Laws.{to_string-injective, decimal-head, decimal-small}
use file_indexer.Js.BigInt.{big_int}
use file_indexer.Server.Services.{FilesClient, UrlSpec}
use file_indexer.Server.Calls.{find_url, get_download_url_impl}

-- Comparing the texts of two ids is comparing the ids.
pub to_string-=== : (a b : ℤ) → (to_string a === to_string b) ≡ int_eq a b
to_string-=== a b = elim (Bool-cases (int_eq a b)) [
  | inl same ↦ rw ((int_eq_iff a b).0 same) (===_refl (to_string b) ∙ sym ((int_eq_iff b b).1 refl))
  | inr other ↦ elim (Bool-cases (to_string a === to_string b)) [
    | inl equal ↦
        let e = to_string-injective a b ((===_iff _ _).0 equal) in
        let c = (int_eq_iff a b).1 e in cc
    | inr unequal ↦ unequal ∙ sym other
  ]
]

-- No integer prints with a zero in front of another digit.
to_string-ne-leading_zero : (a : ℤ) (c : ℕ) (t : Text) → to_string a ≢ b'0' ∷ c ∷ t
unfolding to_string
to_string-ne-leading_zero (pos zero) c t e = let z = sym (decimal-small 0 (omega arith)) ∙ e in cc
to_string-ne-leading_zero (pos (suc n)) c t e =
    let (d, s, same, ne) = decimal-head (suc n) (omega arith) in let z : d ≡ b'0' = cc in ne z
to_string-ne-leading_zero (negsuc n) c t e = ground arith

find_url-leading_zero :
    (c : ℕ) (t : Text) (specs : List UrlSpec) → find_url (b'0' ∷ c ∷ t) specs ≡ none
unfolding find_url
find_url-leading_zero c t [] = refl
find_url-leading_zero c t (u ∷ specs) = elim (Bool-cases (to_string u.id === (b'0' ∷ c ∷ t))) [
  | inl same ↦ absurd (to_string-ne-leading_zero u.id c t ((===_iff _ _).0 same))
  | inr other ↦ rw other (find_url-leading_zero c t specs)
]

throw-ne-done {ℓ κ μ} :
    {S : Type ℓ} {A : Type κ} {B : Type μ} (m : Outcome S A) (e : Failure) {b : B} {s : S}
    → and_then m (λ _. throw e) ≢ done b s
throw-ne-done (done a s) e h = cc
throw-ne-done (failed f s) e h = cc

module _ {S : Type 0} (files : FilesClient S) where
  -- A numeric id with a needless zero in front passes the validator, but `getDownloadUrlImpl` never
  -- returns a URL for it, whatever the service answers.
  pub get_download_url_impl-leading_zero :
      (c : ℕ) (t : Text) (s : S) {url : Text} {s' : S}
      → get_download_url_impl files (b'0' ∷ c ∷ t) s ≢ done url s'
  unfolding get_download_url_impl
  get_download_url_impl-leading_zero c t s h = elim (Result-cases (big_int (b'0' ∷ c ∷ t))) [
    | inl (n, e) ↦
        throw-ne-done (files.get_download_url (n ∷ []) s) _
          (rw (e, fun_ext (find_url-leading_zero c t)) at h)
    | inr (_, e) ↦ let failed_first = rw e at h in cc
  ]
