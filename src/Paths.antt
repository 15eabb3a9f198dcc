-- ===== src/Paths.antt =====
-- web/src/lib/uploadPath.ts: the folder part of an upload's key.
pub mod Normal
use file_indexer.Prelude.{ℕ, List, [], ◌∷◌, ◌++◌, Text, ◌==◌, if◌then◌else◌}
use file_indexer.Js.Space.{trim}

-- `s.replace(/^\/+/, '')`
unfoldable pub drop_slashes : Text → Text
drop_slashes [] = []
drop_slashes (c ∷ s) = if c == b'/' then drop_slashes s else c ∷ s

-- A slash in front of a text that may begin with one already.
abbrev pub cons_slash : Text → Text
cons_slash [] = b'/' ∷ []
cons_slash (c ∷ s) = if c == b'/' then c ∷ s else b'/' ∷ c ∷ s

-- `s.replace(/\/+/g, '/')`
unfoldable pub collapse : Text → Text
collapse [] = []
collapse (c ∷ s) = if c == b'/' then cons_slash (collapse s) else c ∷ collapse s

-- `s.endsWith('/') ? s : `${s}/``
unfoldable pub end_in_slash : Text → Text
end_in_slash [] = b'/' ∷ []
end_in_slash (c ∷ []) = if c == b'/' then c ∷ [] else c ∷ b'/' ∷ []
end_in_slash (c ∷ d ∷ s) = c ∷ end_in_slash (d ∷ s)

abbrev pub or_root : Text → Text
or_root [] = []
or_root (c ∷ s) = end_in_slash (collapse (c ∷ s))

unfoldable pub normalize_upload_path : Text → Text
unfolding drop_slashes collapse end_in_slash
normalize_upload_path path = or_root (drop_slashes (trim path))
