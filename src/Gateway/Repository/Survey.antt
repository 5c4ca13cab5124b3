-- ===== src/Gateway/Repository/Survey.antt =====
-- The loop of `lease_next_operation`, and a description of it without the store.
use mathlib.Core.List.{append_assoc}
use cadplot_mcp.Prelude.{
  ◌≡◌, refl, inl, inr, none, some, [], ◌∷◌, ◌++◌, arith, All, Bool-cases, if◌then◌else◌,
}
use cadplot_mcp.Prelude.Classes.{nat_eq}
use cadplot_mcp.Prelude.Results.{ok}
use cadplot_mcp.Prelude.Dicts.{
  Dict, lookup, insert, Distinct, Distinct-append_left, Distinct-append_middle,
  insert-append_middle,
}
use cadplot_mcp.Gateway.Models.{
  TenantId, SubjectId, WorkstationId, OperationId, Instant, OperationRecord,
}
use cadplot_mcp.Gateway.Operation.Shape.{IsShaped, refreshed, refresh_due-shaped}
use cadplot_mcp.Gateway.Repository.{Repository, set_operation}
use cadplot_mcp.Gateway.Repository.Operations.{Survey, on_device, note_record, survey}

abbrev pub ShapedAt : OperationId → OperationRecord → Type 0
ShapedAt id r = (r.operation_id ≡ id) × IsShaped r

-- Every operation stands under its own identifier, and the validator accepts it.
abbrev pub AllShaped : Dict OperationId OperationRecord → Type 0
AllShaped = All λ (entry : OperationId × OperationRecord). ShapedAt entry.0 entry.1

module _ (tenant : TenantId) (workstation : WorkstationId) (now : Instant) where
  unfoldable pub settled : OperationRecord → OperationRecord
  settled r = if on_device tenant workstation r then refreshed r now else r

  unfoldable pub settled_all : Dict OperationId OperationRecord → Dict OperationId OperationRecord
  settled_all [] = []
  settled_all ((id, r) ∷ rest) = (id, settled r) ∷ settled_all rest

  -- The notes of one round, on an operation refreshed if it is of the device.
  unfoldable pub note : SubjectId → OperationRecord → Survey → Survey
  note owner r v =
      if on_device tenant workstation r then note_record owner (refreshed r now) v else v

  -- The notes of the loop.
  unfoldable pub noted : SubjectId → Dict OperationId OperationRecord → Survey → Survey
  noted owner [] v = v
  noted owner ((id, r) ∷ rest) v = noted owner rest (note owner r v)

  pub lookup-settled_all :
      (id : OperationId) (d : Dict OperationId OperationRecord)
      → lookup id (settled_all d) ≡ elim (lookup id d) [ none ↦ none | some r ↦ some (settled r) ]
  unfolding lookup settled_all
  lookup-settled_all id [] = refl
  lookup-settled_all id ((j, r) ∷ d) = ground (arith, lookup-settled_all id d)

  written :
      (done : Dict OperationId OperationRecord) (id : OperationId) (r : OperationRecord)
      (rest : Dict OperationId OperationRecord) (s : Repository)
      → s.operations ≡ done ++ (id, r) ∷ rest
      → Distinct (done ++ (id, r) ∷ rest)
      → insert id (refreshed r now) s.operations ≡ (done ++ (id, refreshed r now) ∷ []) ++ rest
  written done id r rest s e d =
      rw (e, append_assoc)
        (insert-append_middle done id r (refreshed r now) rest
          (Distinct-append_left done id r rest d))

  -- Over the rest of a store whose identifiers stand once and whose records there pass the validator,
  -- the loop returns what one pass over the refreshed records notes, and leaves the store with each
  -- operation of the device in that rest refreshed and all others as they were.
  pub survey_lem :
      (owner : SubjectId) (done rest : Dict OperationId OperationRecord) (v : Survey)
      (s : Repository)
      → s.operations ≡ done ++ rest
      → Distinct (done ++ rest)
      → AllShaped rest
      → survey tenant workstation owner now rest v s
        ≡ (ok (noted owner rest v), record s { operations = done ++ settled_all rest })
  unfolding survey noted note settled_all settled
  survey_lem owner done [] v s e d a = ground (arith, e)
  survey_lem owner done ((id, r) ∷ rest) v s e d a =
      elim (Bool-cases (on_device tenant workstation r)) [
        | inr other ↦ ground (
          arith,
          survey_lem owner (done ++ (id, r) ∷ []) rest v s (rw append_assoc e) (rw append_assoc d)
              a.1,
          append_assoc done ((id, r) ∷ []) (settled_all rest),
        )
        | inl mine ↦ ground (
          arith,
          refresh_due-shaped r now a.0.1,
          survey_lem owner (done ++ (id, refreshed r now) ∷ []) rest
              (note_record owner (refreshed r now) v) (set_operation id (refreshed r now) s)
              (written done id r rest s e d)
              (rw append_assoc (Distinct-append_middle done id r (refreshed r now) rest d)) a.1,
          append_assoc done ((id, refreshed r now) ∷ []) (settled_all rest),
        )
      ]
