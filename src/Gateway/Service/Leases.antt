-- ===== src/Gateway/Service/Leases.antt =====
-- `worker_lease` over the in-memory repository.
use cadplot_mcp.Prelude.{
  ℕ, ◌≡◌, ◌<◌, ◌≤◌, ◌+◌, refl, ◌==◌, true, false, Option, none, some, List, [], ◌∷◌, arith, All,
  min, Bool-cases, inl, inr,
}
use cadplot_mcp.Prelude.Classes.{nat_eq}
use cadplot_mcp.Prelude.Results.{ok}
use cadplot_mcp.Prelude.Dicts.{lookup}
use cadplot_mcp.Gateway.Models.{
  TenantId, SubjectId, WorkstationId, OperationId, Instant, WorkerContext, WorkstationRecord,
  OperationRecord, WorkerLease,
}
use cadplot_mcp.Gateway.Repository.{Repository, set_operation, get_workstation}
use cadplot_mcp.Gateway.Repository.Operations.{earliest, lease_next_operation}
use cadplot_mcp.Gateway.Repository.Notes.{earliest_All}
use cadplot_mcp.Gateway.Repository.Invariant.{IsValid}
use cadplot_mcp.Gateway.Repository.Leasing.{settled_store, Waits, all_noted, noted-Waits}
use cadplot_mcp.Gateway.Repository.Granting.{leased_record, lease_next_lem, grant-open}
use cadplot_mcp.Gateway.Service.{Digests, seconds, require_worker_workstation}
use cadplot_mcp.Gateway.Service.InMemory.{in_memory}
use cadplot_mcp.Gateway.Service.Worker.{worker_lease}

module _ (tenant : TenantId) (workstation : WorkstationId) (owner : SubjectId) (now : Instant)
    (s : Repository) (v : IsValid s) (lease_expires_at : Instant) where
  -- No lease, or the lease of an operation that waited.
  data Offer : Option OperationRecord → Type 0 where
    nothing : Offer none
    offer :
        (r : OperationRecord)
        → Waits tenant workstation now owner s.operations r
        → Offer (some (leased_record r lease_expires_at))

  lease_next_open :
      ((id : OperationId) (r : OperationRecord)
        → lookup id s.operations ≡ some r
        → r.created_at ≤ now)
      → now < lease_expires_at
      → (o : Option OperationRecord) × (t : Repository) × (lease_next_operation tenant workstation
            owner now lease_expires_at s
          ≡ (ok o, t))
        × Offer o
  lease_next_open past open_lease =
      elim (Bool-cases (all_noted tenant workstation now owner s).active) [
        | inl busy ↦ (
          none,
          settled_store tenant workstation now s,
          rw (lease_next_lem tenant workstation owner now s v lease_expires_at, busy) refl,
          nothing,
        )
        | inr idle ↦ of_list idle _ refl
      ]
    where
      of_list :
          (all_noted tenant workstation now owner s).active ≡ false
          → (xs : List OperationRecord) → (all_noted tenant workstation now owner s).eligible ≡ xs
          → (o : Option OperationRecord) × (t : Repository) × (lease_next_operation tenant
                workstation owner now lease_expires_at s
              ≡ (ok o, t))
            × Offer o
      of_list idle [] e = (
        none,
        settled_store tenant workstation now s,
        rw (lease_next_lem tenant workstation owner now s v lease_expires_at, idle, e) refl,
        nothing,
      )
      of_list idle (r ∷ rest) e =
          let waiting : All (Waits tenant workstation now owner s.operations) (r ∷ rest) =
            rw e at (noted-Waits tenant workstation now owner s v) in
          let chosen : Waits tenant workstation now owner s.operations (earliest r rest) =
            earliest_All (Waits tenant workstation now owner s.operations) r rest waiting.0
              waiting.1 in
          (
            some (leased_record (earliest r rest) lease_expires_at),
            set_operation (earliest r rest).operation_id
                (leased_record (earliest r rest) lease_expires_at)
                (settled_store tenant workstation now s),
            rw (lease_next_lem tenant workstation owner now s v lease_expires_at, idle, e)
                (grant-open tenant workstation owner now s v lease_expires_at (earliest r rest)
                  (settled_store tenant workstation now s) chosen
                  (past (earliest r rest).operation_id (earliest r rest) chosen.found) open_lease),
            offer (earliest r rest) chosen,
          )

module _ (ttl : ℕ) (digests : Digests) (worker : WorkerContext) (owner : SubjectId) (n : ℕ)
    (now : Instant) (s : Repository) where
  -- The lease of an operation that waited on the worker's workstation for this owner: it holds from
  -- now on, and ends neither after the time that was asked for nor after the operation's deadline.
  pub record LeaseFor (l : WorkerLease) : Type 0 where
    pub waited : OperationRecord
    pub waits : Waits worker.tenant_id worker.workstation_id now owner s.operations waited
    pub operation : l.operation_id ≡ waited.operation_id
    pub task : l.task ≡ waited.task
    pub workstation : l.workstation_id ≡ worker.workstation_id
    pub holds : now < l.lease_expires_at
    pub asked : l.lease_expires_at ≤ now + seconds n
    pub deadline : l.lease_expires_at ≤ waited.expires_at

  -- No lease, or one of an operation that waited.
  abbrev pub Offered : Option WorkerLease → Type 0
  Offered none = Unit
  Offered (some l) = LeaseFor l

  -- The workstation of the worker is enabled, online and the owner's.
  pub record Ready (w : WorkstationRecord) : Type 0 where
    pub found : lookup worker.workstation_id s.workstations ≡ some w
    pub enabled : w.enabled ≡ true
    pub online : w.online ≡ true
    pub tenant : (w.tenant_id == worker.tenant_id) ≡ true
    pub owner_is : (w.owner_subject_id == owner) ≡ true

  abbrev lease : OperationRecord → WorkerLease
  lease r = record {
    operation_id = r.operation_id;
    workstation_id = r.workstation_id;
    idempotency_key = r.idempotency_key;
    task = r.task;
    lease_expires_at = min (now + seconds n) r.expires_at;
  }

  lease_for :
      (l : WorkerLease) (r : OperationRecord)
      → IsValid s
      → 5 ≤ n
      → Waits worker.tenant_id worker.workstation_id now owner s.operations r
      → l.operation_id ≡ r.operation_id
      → l.task ≡ r.task
      → l.workstation_id ≡ r.workstation_id
      → l.lease_expires_at ≡ min (now + seconds n) r.expires_at
      → LeaseFor l
  lease_for l r v long w same_id same_task same_place ends = record {
    waited = r;
    waits = w;
    operation = same_id;
    task = same_task;
    workstation = ground (arith, same_place, w.device);
    holds = ground (arith, ends, w.early, w.eligible);
    asked = ground (arith, ends);
    deadline = ground (arith, ends);
  }

  -- In a valid store, a worker of a ready workstation that asks for a lease of 5 to 300 seconds,
  -- with a clock that is not behind the creation of any stored operation, is never refused: it gets
  -- no lease, or one of an operation that waited for it.
  pub worker_lease_offers :
      (v : IsValid s) (w : WorkstationRecord)
      → Ready w
      → 5 ≤ n
      → n ≤ 300
      → ((id : OperationId) (r : OperationRecord)
          → lookup id s.operations ≡ some r
          → r.created_at ≤ now)
      → (o : Option WorkerLease) × (t : Repository) × (worker_lease
            (in_memory ttl digests)
            (some now)
            worker
            owner
            n
            s
          ≡ (ok o, t))
        × Offered o
  unfolding worker_lease require_worker_workstation get_workstation
  worker_lease_offers v w ready long short past =
      let (o, t, e, offered) =
        lease_next_open worker.tenant_id worker.workstation_id owner now s v (now + seconds n) past
          (omega arith) in
      of_offer o t e offered
    where
      of_offer :
          (o : Option OperationRecord) (t : Repository)
          → lease_next_operation worker.tenant_id worker.workstation_id owner now
              (now + seconds n)
              s
            ≡ (ok o, t)
          → Offer worker.tenant_id worker.workstation_id owner now s v (now + seconds n) o
          → (o : Option WorkerLease) × (t : Repository) × (worker_lease
                (in_memory ttl digests)
                (some now)
                worker
                owner
                n
                s
              ≡ (ok o, t))
            × Offered o
      of_offer none t e nothing = (
        none,
        t,
        ground (arith, e, ready.found, ready.enabled, ready.online, ready.tenant, ready.owner_is),
        tt,
      )
      of_offer (some q) t e (offer r waits) = (
        some (lease r),
        t,
        ground (arith, e, ready.found, ready.enabled, ready.online, ready.tenant, ready.owner_is),
        lease_for (lease r) r v long waits refl refl refl refl,
      )
