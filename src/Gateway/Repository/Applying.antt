-- ===== src/Gateway/Repository/Applying.antt =====
-- `apply_worker_success` and the operations' invariant.
use cadplot_mcp.Prelude.{◌≡◌, refl, true, inl, inr, none, some, List, Bool-cases}
use cadplot_mcp.Prelude.Classes.{nat_eq}
use cadplot_mcp.Prelude.Results.{Result-cases}
use cadplot_mcp.Prelude.Dicts.{lookup}
use cadplot_mcp.Gateway.Models.{
  TenantId, WorkstationId, OperationId, Instant, OperationState, TaskResult, ProjectRecord,
  DrawingRecord, OperationRecord,
}
use cadplot_mcp.Gateway.Operation.{is_running, is_succeeded}
use cadplot_mcp.Gateway.Repository.{Repository}
use cadplot_mcp.Gateway.Repository.Application.{
  apply_running, apply_refreshed, apply_worker_success, validate_application, write_catalog,
}
use cadplot_mcp.Gateway.Repository.Workers.{complete}
use cadplot_mcp.Gateway.Repository.Invariant.{IsValid, Sound, Sound-refl}
use cadplot_mcp.Gateway.Repository.Transitions.{complete-Sound, after_refresh-Sound, owned-cases}

module _ (result : TaskResult) (projects : List ProjectRecord) (drawings : List DrawingRecord) where
  module _ (s : Repository) (v : IsValid s) (id : OperationId) (now : Instant) where
    write_catalog-Sound : Sound s (write_catalog projects drawings s)
    write_catalog-Sound = record {
      valid = record {
        distinct = v.distinct;
        shaped = v.shaped;
        exclusive = v.exclusive;
        indexed = v.indexed;
      };
      evolves = (Sound-refl v).evolves;
      remembers = λ k i p. p;
    }

    module _ (r : OperationRecord) (found : lookup id s.operations ≡ some r) where
      completed-Sound :
          is_running r.state ≡ true
          → Sound
              (write_catalog projects drawings s)
              (complete id now OperationState.succeeded
                (some result)
                none
                r
                (write_catalog projects drawings s)).1
      completed-Sound running =
          complete-Sound (write_catalog projects drawings s) write_catalog-Sound.valid id r found
            now OperationState.succeeded (some result) none running refl

      apply_running-Sound :
          is_running r.state ≡ true → Sound s (apply_running id now result projects drawings r s).1
      apply_running-Sound running =
          elim (Result-cases (validate_application s r result projects drawings)) [
            | inr (e, refused) ↦ rw refused (Sound-refl v)
            | inl (u, accepted) ↦ rw accepted (record {
              valid = (completed-Sound running).valid;
              evolves = (completed-Sound running).evolves;
              remembers = (completed-Sound running).remembers;
            })
          ]

      apply_refreshed-Sound : Sound s (apply_refreshed id now result projects drawings r s).1
      apply_refreshed-Sound = elim (Bool-cases (is_succeeded r.state)) [
        | inl done ↦ rw done (Sound-refl v)
        | inr open_state ↦ elim (Bool-cases (is_running r.state)) [
          | inr idle ↦ rw (open_state, idle) (Sound-refl v)
          | inl running ↦ rw (open_state, running) (apply_running-Sound running)
        ]
      ]

    module _ (tenant : TenantId) (workstation : WorkstationId) where
      -- Whatever its outcome, also where it raises, the call keeps the operations' invariant and moves
      -- each operation by one step at most.
      pub apply_worker_success-Sound :
          Sound s (apply_worker_success id tenant workstation now result projects drawings s).1
      unfolding apply_worker_success
      apply_worker_success-Sound = elim (owned-cases (lookup id s.operations) tenant workstation) [
        | inl foreign ↦ rw foreign (Sound-refl v)
        | inr (r, found, owned, _) ↦ rw owned (
            after_refresh-Sound s v id r found now (apply_refreshed id now result projects drawings)
              (apply_refreshed-Sound r found) (λ q t idle open_state. rw (open_state, idle)))
      ]
