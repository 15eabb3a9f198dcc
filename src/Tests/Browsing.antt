-- ===== src/Tests/Browsing.antt =====
-- URL parameters, upload paths and the poller at concrete inputs.
use file_indexer.Prelude.{
  ◌≡◌, refl, ap, ◌∙◌, inl, inr, Bool, true, arith, ◌===◌, ===_iff, Bool-cases, if◌then◌else◌, [],
  Text, codes, false,
}
use file_indexer.Js.Space.{trim}
use file_indexer.Js.Value.{
  Value, undefined, null, bool, int, other_number, str, arr, obj, Fields, end, field, get,
  get_field,
}
use file_indexer.Server.Inputs.{SortFieldInput, SortOrderInput, sort_field_text, sort_order_text}
use file_indexer.Paths.{normalize_upload_path}
use file_indexer.Paths.Normal.{Segments, normalize_upload_path-Segments}
use file_indexer.Filters.{
  BrowseFilters, SearchFilters, ListFilters, normalize_browse_filters, normalize_search_filters,
  normalize_list_filters, default_browse_filters, default_search_filters, default_list_filters,
}
use file_indexer.Filters.Laws.{browse_params, search_params, list_params}
use file_indexer.Filters.Stripped.{IsStripped, stripped_roundtrip}
use file_indexer.Routes.{change_browse}

doubled_slashes : normalize_upload_path (codes " //docs//a ") ≡ codes "docs/a/"
unfolding normalize_upload_path trim
doubled_slashes = refl

the_root : normalize_upload_path (codes " / ") ≡ []
unfolding normalize_upload_path trim
the_root = refl

-- A folder whose name begins with a blank is not the folder that its upload goes to.
blank_in_front : normalize_upload_path (codes " a/") ≡ codes "a/"
unfolding normalize_upload_path trim
blank_in_front = refl

normalize_upload_path-Segments_example :
    Segments false (normalize_upload_path (codes " //docs//a "))
normalize_upload_path-Segments_example = normalize_upload_path-Segments (codes " //docs//a ")

a_b_is_folder : Segments false (codes "a/b/")
a_b_is_folder = inr (omega arith, inl (refl, refl, inr (omega arith, inl (refl, refl, tt))))

abbrev browsing : BrowseFilters
browsing = record { path = codes "docs/"; sort = SortFieldInput.size; order = SortOrderInput.desc }

abbrev searching : SearchFilters
searching = record {
  query = codes "cat";
  type = codes "image/";
  sort = SortFieldInput.taken_at;
  order = SortOrderInput.asc;
}

abbrev recent : ListFilters
recent = record { sort = SortFieldInput.last_modified; order = SortOrderInput.desc }

-- A router that reads a parameter with its default value as nothing.
abbrev same_text : Value → Value → Bool
same_text (str s) (str t) = s === t
same_text _ _ = false

same_text-eq : (v w : Value) → same_text v w ≡ true → v ≡ w
same_text-eq (str s) (str t) h = ap str ((===_iff s t).0 h)
same_text-eq (str s) undefined h = cc
same_text-eq (str s) null h = cc
same_text-eq (str s) (bool b) h = cc
same_text-eq (str s) (int n) h = cc
same_text-eq (str s) (other_number d) h = cc
same_text-eq (str s) (arr vs) h = cc
same_text-eq (str s) (obj fs) h = cc
same_text-eq undefined w h = cc
same_text-eq null w h = cc
same_text-eq (bool b) w h = cc
same_text-eq (int n) w h = cc
same_text-eq (other_number d) w h = cc
same_text-eq (arr vs) w h = cc
same_text-eq (obj fs) w h = cc

abbrev strip_fields : Value → Fields → Fields
strip_fields defaults end = end
strip_fields defaults (field k v rest) =
    field k (if same_text v (get defaults k) then undefined else v) (strip_fields defaults rest)

abbrev strip_search : Value → Value → Value
strip_search defaults (obj fs) = obj (strip_fields defaults fs)
strip_search defaults v = v

strip_fields-IsStripped :
    (defaults : Value) (fs : Fields) (k : Text)
    → IsStripped (get defaults k) (get_field fs k) (get_field (strip_fields defaults fs) k)
unfolding get_field
strip_fields-IsStripped defaults end k = inl refl
strip_fields-IsStripped defaults (field j v rest) k = elim (Bool-cases (j === k)) [
  | inl here ↦ rw here (
      let e : j ≡ k = (===_iff j k).0 here in
      elim (Bool-cases (same_text v (get defaults j))) [
        | inl same ↦
            rw same (inr (same_text-eq v (get defaults j) same ∙ ap (get defaults) e, refl))
        | inr other ↦ rw other (inl refl)
      ])
  | inr other ↦ rw other (strip_fields-IsStripped defaults rest k)
]

strip_search-IsStripped :
    (defaults search : Value) (k : Text)
    → IsStripped (get defaults k) (get search k) (get (strip_search defaults search) k)
unfolding get
strip_search-IsStripped defaults (obj fs) k = strip_fields-IsStripped defaults fs k
strip_search-IsStripped defaults undefined k = inl refl
strip_search-IsStripped defaults null k = inl refl
strip_search-IsStripped defaults (bool b) k = inl refl
strip_search-IsStripped defaults (int n) k = inl refl
strip_search-IsStripped defaults (other_number d) k = inl refl
strip_search-IsStripped defaults (str s) k = inl refl
strip_search-IsStripped defaults (arr vs) k = inl refl

stripped_roundtrip_example :
    (normalize_browse_filters
        (strip_search (browse_params default_browse_filters) (browse_params browsing))
      ≡ browsing)
    × (normalize_search_filters
          (strip_search (search_params default_search_filters) (search_params searching))
        ≡ searching)
    × (normalize_list_filters (strip_search (list_params default_list_filters) (list_params recent))
        ≡ recent)
stripped_roundtrip_example =
    stripped_roundtrip strip_search strip_search-IsStripped browsing searching recent

-- Only the folder and the order are left of the parameters, and nothing of those of recent files.
recent_stripped :
    get (strip_search (list_params default_list_filters) (list_params recent)) (codes "sort")
    ≡ undefined
unfolding get ◌===◌ sort_field_text sort_order_text
recent_stripped = refl

-- Another order replaces the entry of the page, and another folder gets an entry of its own.
reordered : (change_browse browsing (record browsing { order = SortOrderInput.asc })).replace ≡ true
unfolding change_browse ◌===◌
reordered = refl

deeper : (change_browse browsing (record browsing { path = codes "docs/a/" })).replace ≡ false
unfolding change_browse ◌===◌
deeper = refl
