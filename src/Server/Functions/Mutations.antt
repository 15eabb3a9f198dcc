-- ===== src/Server/Functions/Mutations.antt =====
-- What the server functions that change files ask of the service, on every input.
use file_indexer.Prelude.{
  ℕ, pos, ◌≡◌, ◌⊎◌, inl, inr, ◌≢◌, [], Text, codes, Result, ok, err, Failure, Result-cases, failed,
  pure,
}
use file_indexer.Js.Value.{Value, str, get}
use file_indexer.Js.BigInt.{big_int}
use file_indexer.Server.Types.{Timestamp}
use file_indexer.Server.Services.{SearchClient, FilesClient}
use file_indexer.Server.Validate.{
  validate_id_input, validate_path_input, require_text, validate_move_file_input,
}
use file_indexer.Server.Validate.Ids.{
  validate_id_input-big_int, require_text_sound, validate_move_file_input-parts,
}
use file_indexer.Js.Number.{to_number}
use file_indexer.Prelude.Effects.{◌>>=◌}
use file_indexer.Server.Calls.{delete_file_impl, move_file_impl, delete_directory_impl}
use file_indexer.Server.Functions.{delete_file, move_file, delete_directory}

module _ {S : Type 0} (search : SearchClient S) (files : FilesClient S)
    (to_iso_string : Timestamp → Result Text) where
  -- `deleteFile` either rejects its input and leaves the services as they were, or asks for the
  -- deletion of the one integer that the input's `id` denotes, and ends as that call does.
  pub delete_file-cases :
      (input : Value) (s : S)
      → ((e : Failure) × (validate_id_input input ≡ err e)
          × (delete_file search files to_iso_string input s ≡ failed e s))
        ⊎ ((id : Text) × (n : ℕ) × (get input (codes "id") ≡ str id)
            × (big_int id ≡ ok (pos n))
            × (delete_file search files to_iso_string input s ≡ files.delete_file (pos n) s))
  unfolding delete_file delete_file_impl
  delete_file-cases input s = elim (Result-cases (validate_id_input input)) [
    | inl (id, accepted) ↦
        let (e, (n, read)) = validate_id_input-big_int input id accepted in
        inr (id, n, e, read, rw (accepted, read))
    | inr (e, refused) ↦ inl (e, refused, rw refused)
  ]

  -- `moveFile` either rejects its input and leaves the services as they were, or asks to move the one
  -- file that the input's `id` denotes to the input's `destinationKey`, which is not empty.
  pub move_file-cases :
      (input : Value) (s : S)
      → ((e : Failure) × (validate_move_file_input input ≡ err e)
          × (move_file search files to_iso_string input s ≡ failed e s))
        ⊎ ((id : Text) × (n : ℕ) × (destination : Text) × (get input (codes "id") ≡ str id)
            × (big_int id ≡ ok (pos n))
            × (get input (codes "destinationKey") ≡ str destination)
            × (destination ≢ [])
            × (move_file search files to_iso_string input s
                ≡ (files.move_file (pos n) destination >>= λ _. pure tt) s))
  unfolding move_file move_file_impl
  move_file-cases input s = elim (Result-cases (validate_move_file_input input)) [
    | inl (out, accepted) ↦
        let (n, named, read, target, full) = validate_move_file_input-parts input out accepted in
        inr (out.id, n, out.destination_key, named, read, target, full, rw (accepted, read))
    | inr (e, refused) ↦ inl (e, refused, rw refused)
  ]

  -- `deleteDirectory` either rejects its input and leaves the services as they were, or asks for the
  -- deletion of the input's `path`, which is not empty: the bucket's root is never asked for.
  pub delete_directory-cases :
      (input : Value) (s : S)
      → ((e : Failure) × (validate_path_input input ≡ err e)
          × (delete_directory search files to_iso_string input s ≡ failed e s))
        ⊎ ((path : Text) × (get input (codes "path") ≡ str path)
            × (path ≢ [])
            × (delete_directory search files to_iso_string input s
                ≡ (files.delete_directory path >>= λ n. pure (to_number n)) s))
  unfolding delete_directory delete_directory_impl validate_path_input
  delete_directory-cases input s =
      elim (Result-cases (require_text (codes "path") (get input (codes "path")))) [
        | inl (path, accepted) ↦
            let (named, full) =
              require_text_sound (codes "path") (get input (codes "path")) path accepted in
            inr (path, named, full, rw accepted)
        | inr (e, refused) ↦ inl (e, refused, rw refused)
      ]
