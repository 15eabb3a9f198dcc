-- ===== src/Upload/Plan.antt =====
-- `planParts`: the byte ranges of a file's parts.
pub mod Tiling
pub mod Content
use file_indexer.Prelude.{ℕ, zero, suc, ◌+◌, ◌*◌, min, List, [], ◌∷◌, Text, ltb, if◌then◌else◌}

abbrev pub part_size_bytes : ℕ
part_size_bytes = 16 * 1024 * 1024

abbrev pub multipart_threshold_bytes : ℕ
multipart_threshold_bytes = 2 * part_size_bytes

pub record PartPlan : Type 0 where
  pub part_number : ℕ
  pub start : ℕ
  pub end : ℕ

-- The loop, with the part number and the start of its next round. Sizes and offsets are integers
-- below 2^53, where a JavaScript number adds exactly.
unfoldable pub plan_from : ℕ → ℕ → ℕ → ℕ → ℕ → List PartPlan
plan_from zero file_size part_size part_number start = []
plan_from (suc fuel) file_size part_size part_number start =
    let part : PartPlan = record {
      part_number = part_number;
      start = start;
      end = min (start + part_size) file_size;
    } in
    let rest = part ∷ plan_from fuel file_size part_size (part_number + 1) (start + part_size) in
    if ltb start file_size then rest else []

-- With parts of a byte at least, the loop makes no more rounds than the file has bytes.
unfoldable pub plan_parts : ℕ → ℕ → List PartPlan
unfolding plan_from
plan_parts file_size part_size = plan_from file_size file_size part_size 1 0
