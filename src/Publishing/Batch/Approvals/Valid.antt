-- ===== src/Publishing/Batch/Approvals/Valid.antt =====
-- Which approvals `_validate_queue_approvals` of src/cadplot_mcp/batch.py takes as they are.
use cadplot_mcp.Prelude.{
  ℕ, zero, suc, ◌≡◌, ◌≤◌, refl, ap, true, false, List, [], ◌∷◌, map, All, length, drop, arith,
}
use cadplot_mcp.Prelude.Classes.{string_eq, is_distinct}
use cadplot_mcp.Prelude.Results.{ok}
use cadplot_mcp.Publishing.Value.{
  Value, elements-items, fields, dict, list, is_identifier, is_digest, as_list,
}
use cadplot_mcp.Publishing.Runtime.{Runtime}
use cadplot_mcp.Publishing.Batch.Approvals.{
  QueueApproval, queue_approval_fields, is_blank, path_key, read_all, read_queue_approval, in_batch,
  validate_queue_approvals,
}

module _ (R : Runtime) where
  open R use {Real}

  abbrev pub IsRow : QueueApproval → Type 0
  IsRow a =
      (is_blank R a.manifest_path ≡ false)
      × (is_identifier a.plan_id ≡ true)
      × (is_digest a.manifest_sha256 ≡ true)

  -- At most 20 approvals with paths, plan identifiers and digests that are each distinct.
  abbrev pub IsBatch : List QueueApproval → Type 0
  IsBatch todo =
      (length todo ≤ 20)
      × All IsRow todo
      × (is_distinct (map (λ (a : QueueApproval). path_key R a.manifest_path) todo) ≡ true)
      × (is_distinct (map (λ (a : QueueApproval). a.plan_id) todo) ≡ true)
      × (is_distinct (map (λ (a : QueueApproval). a.manifest_sha256) todo) ≡ true)

  abbrev pub row : QueueApproval → Value Real
  row a = dict (queue_approval_fields R a)

  read_row : (a : QueueApproval) → IsRow a → read_queue_approval R (row a) ≡ ok a
  unfolding read_queue_approval queue_approval_fields fields
  read_row a h = ground (arith, h.0, h.1, h.2)

  read_rows :
      (todo : List QueueApproval)
      → All IsRow todo
      → read_all (read_queue_approval R) (map row todo) ≡ ok todo
  unfolding read_all
  read_rows [] h = refl
  read_rows (a ∷ todo) h = ground (arith, read_row a h.0, read_rows todo h.1)

  length-map : (todo : List QueueApproval) → length (map row todo) ≡ length todo
  length-map [] = refl
  length-map (a ∷ todo) = ap suc (length-map todo)

  pub validate-IsBatch :
      (a : QueueApproval) (todo : List QueueApproval)
      → IsBatch (a ∷ todo)
      → validate_queue_approvals R (list (map row (a ∷ todo))) ≡ ok (a ∷ todo)
  unfolding validate_queue_approvals as_list in_batch
  validate-IsBatch a todo h = ground (
    arith,
    elements-items (map row (a ∷ todo)),
    length-map todo,
    read_rows (a ∷ todo) h.1,
    h.2,
    h.3,
    h.4,
  )

  pub IsBatch-drop : (k : ℕ) (todo : List QueueApproval) → IsBatch todo → IsBatch (drop k todo)
  unfolding is_distinct
  IsBatch-drop zero todo h = h
  IsBatch-drop (suc k) [] h = h
  IsBatch-drop (suc k) (a ∷ todo) h =
      IsBatch-drop k todo (omega arith, h.1.1, ground arith, ground arith, ground arith)
