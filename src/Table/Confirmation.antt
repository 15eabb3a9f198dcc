-- ===== src/Table/Confirmation.antt =====
-- The dialog of web/src/components/DeleteFileConfirmation.tsx.
use file_indexer.Prelude.{Bool, Option, none, some, Text, codes, ◌===◌, if◌then◌else◌}

-- What is pressed while the dialog is on show: the backdrop itself or something inside, a key, or one of
-- its buttons.
pub data Press : Type 0 where
  backdrop inside confirm_button cancel_button : Press
  dialog_key : Text → Press

pub data Answer : Type 0 where
  on_confirm on_cancel : Answer

-- What the dialog calls. The button is disabled while a deletion is in flight.
unfoldable pub answer_of : Bool → Press → Option Answer
answer_of pending backdrop = some on_cancel
answer_of pending inside = none
answer_of pending confirm_button = if pending then none else some on_confirm
answer_of pending cancel_button = some on_cancel
answer_of pending (dialog_key key) = if key === codes "Escape" then some on_cancel else none
