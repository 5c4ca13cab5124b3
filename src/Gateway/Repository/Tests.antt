-- ===== src/Gateway/Repository/Tests.antt =====
-- Each theorem on the repository at a small store.
use cadplot_mcp.Prelude.{
  ℕ, ◌≤◌, true, false, none, some, [], ◌∷◌, ◌≡◌, ◌≢◌, inl, refl, sym, subst, arith, any, keep, List,
}
use cadplot_mcp.Prelude.Classes.{nat_eq, is_distinct, list_beq, contains}
use cadplot_mcp.Prelude.Results.{ok, err}
use cadplot_mcp.Prelude.Dicts.{lookup, insert, Distinct}
use cadplot_mcp.Gateway.Errors.{ValueCode, value_error}
use cadplot_mcp.Gateway.Models.Bounds.{is_safe_code}
use cadplot_mcp.Gateway.Models.{OperationState, OperationRecord, WorkstationRecord, ProjectRecord}
use cadplot_mcp.Gateway.Operation.{refresh_due}
use cadplot_mcp.Gateway.Operation.Shape.{refreshed, refresh_due-shaped}
use cadplot_mcp.Gateway.Ports.{CreateStatus, TransitionStatus}
use cadplot_mcp.Gateway.Repository.{
  empty, request_key, request_key_eq, set_operation, Repository, list_workstations, list_projects,
}
use cadplot_mcp.Gateway.Repository.Operations.{
  create_or_get_operation, lease_next_operation, is_active,
}
use cadplot_mcp.Gateway.Repository.Workers.{
  start_operation, finish_operation, not_found, outcome, completed_record,
}
use cadplot_mcp.Gateway.Repository.Application.{
  bad_payload, project_mismatch, drawing_mismatch, put_projects, validate_application,
  write_catalog, apply_worker_success,
}
use cadplot_mcp.Gateway.Repository.Leasing.{settled_store, Waits}
use cadplot_mcp.Gateway.Repository.Invariant.{IsValid, Sound}
use cadplot_mcp.Gateway.Repository.Granting.{leased_record, lease_next_operation-Sound}
use cadplot_mcp.Gateway.Repository.Fairness.{
  NoneActive, IsFirst, lease_next_busy, lease_next_grants, lease_next_late,
}
use cadplot_mcp.Gateway.Repository.Requests.{IsNew}
use cadplot_mcp.Gateway.Repository.Ownership.{Kept}
use cadplot_mcp.Gateway.Repository.Registering.{CatalogCall, register, Registers, Registers-Kept}
use cadplot_mcp.Gateway.Repository.History.{
  Call, step, here, next, Later, Reaches-IsValid, Reaches-Later, Reaches-final,
}
use cadplot_mcp.Gateway.Repository.Once.{created_once}
use cadplot_mcp.Gateway.Repository.Outcomes.{
  running_record, payload_fits, IsForeign, foreign_worker, start_outcome, finish_outcome,
  apply_outcome, apply_torn,
}
use cadplot_mcp.Gateway.Repository.Listing.{Lists, ShowsWorkstation, ShowsProject, listings_exact}
use cadplot_mcp.Gateway.Repository.Samples.{
  project, drawing, waiting, leased, running, answer, succeeded, store_of, store_of-IsValid,
  waiting-IsShaped, leased-IsShaped, running-IsShaped, succeeded-IsShaped, store_of-IsOwned,
}

-- The only operation of a store with one.
found_of : (r : OperationRecord) → lookup r.operation_id (store_of r).operations ≡ some r
unfolding lookup
found_of r = ground arith

only_of :
    (r : OperationRecord) (id : ℕ) (q : OperationRecord)
    → lookup id (store_of r).operations ≡ some q
    → q ≡ r
unfolding lookup
only_of r id q e = ground arith

Reaches-IsValid_example : IsValid (step (store_of waiting) (Call.lease 1 1 1 200 300))
Reaches-IsValid_example =
    Reaches-IsValid (store_of-IsValid waiting waiting-IsShaped)
      (next here (Call.lease 1 1 1 200 300) tt refl)

Reaches-Later_example :
    (q : OperationRecord) × (lookup 1
        (step (store_of waiting) (Call.lease 1 1 1 200 300)).operations
      ≡ some q)
    × Later waiting q
Reaches-Later_example =
    Reaches-Later (store_of-IsValid waiting waiting-IsShaped) 1 waiting
      (next here (Call.lease 1 1 1 200 300) tt refl) (found_of waiting)

-- A late failure of an operation that has succeeded.
abbrev late_failure : Call
late_failure = Call.finish 1 1 1 400 OperationState.failed none (some "worker_failure")

Reaches-final_example :
    lookup 1 (step (store_of succeeded) late_failure).operations ≡ some succeeded
Reaches-final_example =
    Reaches-final (store_of-IsValid succeeded succeeded-IsShaped) 1 succeeded
      (next here late_failure tt refl) (found_of succeeded) refl

empty-IsValid : IsValid empty
unfolding lookup
empty-IsValid = record {
  distinct = tt;
  shaped = tt;
  exclusive = λ i j r q e f rivals. cc;
  indexed = λ k id e. absurd cc;
}

waiting-IsNew : IsNew empty waiting
unfolding lookup
waiting-IsNew = record { unused = refl; shaped = waiting-IsShaped; created = refl }

nothing_known : lookup (request_key waiting) empty.idempotency ≡ none
unfolding lookup
nothing_known = refl

-- The same request, sent again under a new identifier.
abbrev again : OperationRecord
again = record waiting { operation_id = 2; created_at = 150 }

created_once_example :
    (q : OperationRecord) × (lookup 1
        (step (create_or_get_operation waiting empty).1 (Call.lease 1 1 1 200 300)).operations
      ≡ some q)
    × Later waiting q
    × (create_or_get_operation again
          (step (create_or_get_operation waiting empty).1 (Call.lease 1 1 1 200 300))
        ≡ (
          ok (record { status = CreateStatus.existing; operation = q }),
          step (create_or_get_operation waiting empty).1 (Call.lease 1 1 1 200 300),
        ))
created_once_example =
    created_once empty empty-IsValid waiting waiting-IsNew nothing_known
      (next here (Call.lease 1 1 1 200 300) tt refl) again refl

abbrev Queued : OperationRecord → Type 0
Queued = Waits 1 1 200 1 (store_of waiting).operations

waits : Queued waiting
waits = record { found = found_of waiting; device = refl; eligible = refl; early = refl }

idle : NoneActive 1 1 1 200 (store_of waiting)
unfolding refreshed
idle id r e mine =
    subst (λ x. is_active (refreshed x 200) ≡ false) (sym (only_of waiting id r e)) refl

past : (y : OperationRecord) → Queued y → y.created_at ≤ 200
past y w =
    let same : y ≡ waiting = only_of waiting y.operation_id y w.found in
    subst (λ x. x.created_at ≤ 200) (sym same) (omega arith)

lease_next_grants_example :
    (r : OperationRecord) × Queued r
    × IsFirst 1 1 1 200 (store_of waiting) r
    × (lease_next_operation 1 1 1 200 300 (store_of waiting) ≡ (
      ok (some (leased_record r 300)),
      set_operation r.operation_id (leased_record r 300) (settled_store 1 1 200 (store_of waiting)),
    ))
lease_next_grants_example =
    lease_next_grants 1 1 1 200 (store_of waiting) (store_of-IsValid waiting waiting-IsShaped) 300
      idle waiting waits past (omega arith)

lease_next_late_example :
    (code : ValueCode) × (lease_next_operation 1 1 1 200 150 (store_of waiting)
      ≡ (err (value_error code), settled_store 1 1 200 (store_of waiting)))
lease_next_late_example =
    lease_next_late 1 1 1 200 (store_of waiting) (store_of-IsValid waiting waiting-IsShaped) 150
      idle waiting waits (omega arith)

still_running : is_active (refreshed running 220) ≡ true
unfolding refreshed
still_running = refl

lease_next_busy_example :
    lease_next_operation 1 1 1 220 300 (store_of running)
    ≡ (ok none, settled_store 1 1 220 (store_of running))
lease_next_busy_example =
    lease_next_busy 1 1 1 220 (store_of running) (store_of-IsValid running running-IsShaped) 300 1
      running (found_of running) refl still_running

lease_next_operation-Sound_example :
    Sound (store_of waiting) (lease_next_operation 1 1 1 200 300 (store_of waiting)).1
lease_next_operation-Sound_example =
    lease_next_operation-Sound 1 1 1 200 (store_of waiting)
      (store_of-IsValid waiting waiting-IsShaped) 300

start_outcome_example : start_operation 1 1 1 200 (store_of leased) ≡ (
  ok (outcome TransitionStatus.updated (running_record leased 200)),
  set_operation 1 (running_record leased 200) (store_of leased),
)
start_outcome_example =
    start_outcome (store_of leased) 1 1 1 200 (store_of-IsValid leased leased-IsShaped) leased
      (found_of leased) refl (omega arith)

failure_fits : payload_fits running OperationState.failed none (some "plan_blocked") ≡ true
unfolding payload_fits
failure_fits = refl

finish_outcome_example :
    finish_operation 1 1 1 250 OperationState.failed none (some "plan_blocked") (store_of running)
    ≡ (
      ok (
          outcome TransitionStatus.updated
            (completed_record running OperationState.failed 250 none (some "plan_blocked"))),
      set_operation 1
          (completed_record running OperationState.failed 250 none (some "plan_blocked"))
          (store_of running),
    )
unfolding is_safe_code
finish_outcome_example =
    finish_outcome (store_of running) 1 1 1 250 (store_of-IsValid running running-IsShaped) running
      (found_of running) refl OperationState.failed none (some "plan_blocked") failure_fits
      (omega arith)

project_fits : validate_application (store_of running) running answer (project ∷ []) [] ≡ ok tt
unfolding validate_application bad_payload project_mismatch drawing_mismatch put_projects lookup any
    keep is_distinct list_beq contains insert
project_fits = refl

abbrev finished : OperationRecord
finished = completed_record running OperationState.succeeded 250 (some answer) none

apply_outcome_example :
    apply_worker_success 1 1 1 250 answer (project ∷ []) [] (store_of running)
    ≡ elim (validate_application (store_of running) running answer (project ∷ []) []) [
      | err e ↦ (err e, store_of running)
      | ok _ ↦ (
        ok (outcome TransitionStatus.updated finished),
        set_operation 1 finished (write_catalog (project ∷ []) [] (store_of running)),
      )
    ]
apply_outcome_example =
    apply_outcome (store_of running) 1 1 1 250 (store_of-IsValid running running-IsShaped) running
      (found_of running) refl answer (project ∷ []) [] (omega arith)

apply_torn_example :
    (code : ValueCode) × (apply_worker_success 1 1 1 150 answer (project ∷ []) [] (store_of running)
      ≡ (err (value_error code), write_catalog (project ∷ []) [] (store_of running)))
apply_torn_example =
    apply_torn (store_of running) 1 1 1 150 (store_of-IsValid running running-IsShaped) running
      (found_of running) refl answer (project ∷ []) [] 200 refl refl (omega arith) project_fits

not_mine : IsForeign (store_of leased) 1 2 1
unfolding lookup
not_mine r found =
    let same : r ≡ leased = ground arith in
    inl (subst (λ x. x.tenant_id ≢ 2) (sym same) (λ e. absurd (omega (arith, e))))

foreign_worker_example :
    (start_operation 1 2 1 200 (store_of leased) ≡ (ok not_found, store_of leased))
    × (finish_operation 1 2 1 200 OperationState.failed none (some "plan_blocked") (store_of leased)
        ≡ (ok not_found, store_of leased))
    × (apply_worker_success 1 2 1 200 answer (project ∷ []) [] (store_of leased)
        ≡ (ok not_found, store_of leased))
foreign_worker_example =
    foreign_worker (store_of leased) 1 2 1 200 not_mine OperationState.failed none
      (some "plan_blocked") answer (project ∷ []) [] refl

-- A worker's scan is applied, and then the application puts a drawing.
abbrev scan_applied : CatalogCall
scan_applied = CatalogCall.applies 1 1 1 250 answer (project ∷ []) []

Registers-Kept_example :
    Kept
      (store_of running)
      (register (register (store_of running) scan_applied) (CatalogCall.upserts_drawing drawing))
Registers-Kept_example = Registers-Kept (store_of-IsOwned running) (
    Registers.next (Registers.next Registers.here scan_applied refl)
      (CatalogCall.upserts_drawing drawing) refl)

refresh_due-shaped_example : refresh_due leased 400 ≡ ok (refreshed leased 400)
refresh_due-shaped_example = refresh_due-shaped leased 400 leased-IsShaped

abbrev catalogued : Repository
catalogued = record (store_of waiting) { projects = (5, project) ∷ [] }

one_workstation : Distinct catalogued.workstations
unfolding lookup
one_workstation = (refl, tt)

one_project : Distinct catalogued.projects
unfolding lookup
one_project = (refl, tt)

listings_exact_example :
    ((ws : List WorkstationRecord) × (list_workstations 1 1 catalogued ≡ (ok ws, catalogued))
      × Lists (λ w. w.workstation_id) (ShowsWorkstation 1 1) catalogued.workstations ws)
    × ((ps : List ProjectRecord) × (list_projects 1 1 (some 1) catalogued ≡ (ok ps, catalogued))
        × Lists (λ p. p.project_id) (ShowsProject 1 1 (some 1)) catalogued.projects ps)
listings_exact_example = listings_exact catalogued 1 1 (some 1) one_workstation one_project
