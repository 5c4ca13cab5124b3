-- ===== src/Publishing/Batch/Report/Accounts.antt =====
-- What a status report of src/cadplot_mcp/batch.py accounts for.
use cadplot_mcp.Prelude.{
  ◌+◌, ◌≤◌, ◌≡◌, inl, inr, subst, true, Option, none, some, List, [], ◌∷◌, map, String, All, length,
  arith, Option-cases,
}
use cadplot_mcp.Prelude.Classes.{string_eq}
use cadplot_mcp.Prelude.Dicts.{Dict, lookup}
use cadplot_mcp.Prelude.Results.{ok, Exec, pure, lift, ◌>>=◌, bind-ok, Result-cases}
use cadplot_mcp.Publishing.Value.{Value, as_dict}
use cadplot_mcp.Publishing.Runtime.{Runtime, Exception}
use cadplot_mcp.Publishing.Batch.Approvals.{validate_status_plan_ids}
use cadplot_mcp.Publishing.Batch.Status.{
  StatusItem, live_item, normalize_response, normalize_live_status, refused_item,
}
use cadplot_mcp.Publishing.Batch.Telemetry.{
  Telemetry, read_counts, counts, telemetry_values, normalize_queue_telemetry, is_inconsistent,
  check_telemetry,
}
use cadplot_mcp.Publishing.Batch.Report.{
  StatusReport, summarize, live_response, read_statuses, read_queue, with_id, status_of_jobs,
  build_publish_batch_status,
}
use cadplot_mcp.Publishing.Batch.Report.Counts.{is_normal, counted-length}

-- What the telemetry of a report satisfies, if it is there.
abbrev pub QueueIsConsistent : Option Telemetry → Type 0
QueueIsConsistent none = Unit
QueueIsConsistent (some q) =
    (1 ≤ q.capacity)
    × (q.capacity ≤ 1000)
    × (q.pending + q.available ≡ q.capacity)
    × (q.running ≤ 1)
    × (q.recovered_on_startup ≤ q.capacity)

module _ (R : Runtime) where
  open R use {Real}

  live_item-is_normal :
      (plan_id : String) (plugin : Dict String (Value Real)) (item : StatusItem)
      → live_item R plan_id plugin ≡ ok (some item)
      → (is_normal item ≡ true) × (item.plan_id ≡ plan_id)
  unfolding live_item
  live_item-is_normal plan_id plugin item h = ground arith

  normalize-is_normal :
      (plan_id : String) (response : Value Real) (item : StatusItem)
      → normalize_live_status R plan_id response ≡ ok item
      → (is_normal item ≡ true) × (item.plan_id ≡ plan_id)
  unfolding normalize_live_status normalize_response refused_item
  normalize-is_normal plan_id response item h = elim (Option-cases (as_dict (some response))) [
    | inl other ↦ ground arith
    | inr (d, e) ↦ elim (Option-cases (as_dict (lookup "plugin" d))) [
      | inl absent ↦ ground arith
      | inr (plugin, e') ↦ elim (Result-cases (live_item R plan_id plugin)) [
        | inr (x, e'') ↦ ground arith
        | inl (none, e'') ↦ ground arith
        | inl (some live, e'') ↦ ground (arith, live_item-is_normal plan_id plugin live e'')
      ]
    ]
  ]

telemetry-consistent :
    (R : Runtime) (response : Value R.Real) (q : Telemetry)
    → normalize_queue_telemetry R response ≡ ok q
    → QueueIsConsistent (some q)
unfolding normalize_queue_telemetry check_telemetry is_inconsistent
telemetry-consistent R response q h = elim (Option-cases (as_dict (some response))) [
  | inl other ↦ absurd (ground arith)
  | inr (d, e) ↦ elim (Option-cases (read_counts (counts (telemetry_values d)))) [
    | inl bad ↦ absurd (ground arith)
    | inr (t, e') ↦ ground arith
  ]
]

module _ (R : Runtime) {S : Type 0} (status_builder : String → Exec Exception S (Value R.Real))
    (plugin_status_builder : Exec Exception S (Value R.Real)) where
  open R use {Real}

  abbrev rest_of : String → List String → Value Real → Exec Exception S (List StatusItem)
  rest_of plan_id plan_ids response = lift (normalize_live_status R plan_id response) >>= λ item.
      read_statuses R status_builder plugin_status_builder plan_ids >>= λ rest. pure (item ∷ rest)

  -- Reading the statuses gives one normal item for each identifier, in order.
  read_statuses-normal :
      (plan_ids : List String) (s : S) (items : List StatusItem) (t : S)
      → read_statuses R status_builder plugin_status_builder plan_ids s ≡ (ok items, t)
      → All (λ i. is_normal i ≡ true) items × (map (λ (i : StatusItem). i.plan_id) items ≡ plan_ids)
  unfolding read_statuses
  read_statuses-normal [] s items t h = ground arith
  read_statuses-normal (plan_id ∷ plan_ids) s items t h =
      let (response, u, e, rest) =
        bind-ok (live_response R status_builder plugin_status_builder plan_id)
          (rest_of plan_id plan_ids) s items t h in
      let (item, v, shape, more) =
        bind-ok (lift (normalize_live_status R plan_id response))
          (λ item. read_statuses R status_builder plugin_status_builder plan_ids >>= λ rest.
            pure (item ∷ rest))
          u items t rest in
      let (others, w, read, last) =
        bind-ok (read_statuses R status_builder plugin_status_builder plan_ids)
          (λ rest. pure (item ∷ rest)) v items t more in
      let normal = normalize-is_normal R plan_id response item (cc) in
      let ih = read_statuses-normal plan_ids v others w read in
      let same : item ∷ others ≡ items = cc in
      subst
        (λ is.
          All (λ i. is_normal i ≡ true) is
          × (map (λ (i : StatusItem). i.plan_id) is ≡ plan_id ∷ plan_ids))
        same ((normal.0, ih.0), cc)

  abbrev sample : Exec Exception S Telemetry
  sample = plugin_status_builder >>= λ v. lift (normalize_queue_telemetry R v)

  queue-consistent :
      (s : S) (q : Option Telemetry × Option String) (t : S)
      → read_queue R status_builder plugin_status_builder s ≡ (ok q, t)
      → QueueIsConsistent q.0
  unfolding read_queue
  queue-consistent s q t h = elim (Result-cases (sample s).0) [
    | inr (e, failed) ↦
        let nothing : none ≡ q.0 = ground arith in subst QueueIsConsistent nothing tt
    | inl (telemetry, there) ↦
        let (response, u, e, normal) =
          bind-ok plugin_status_builder (λ v. lift (normalize_queue_telemetry R v)) s telemetry
            (sample s).1 (ground arith) in
        let found : some telemetry ≡ q.0 = ground arith in
        subst QueueIsConsistent found (telemetry-consistent R response telemetry (cc))
  ]

  -- A status report covers the jobs that were asked for, each once and in order; an item has either
  -- a state or an error, and stands in exactly one of the seven counts, which therefore add up to
  -- the number of the jobs. The telemetry, if there is any, has a capacity from 1 to 1000 that is
  -- the sum of the pending and the available places, at most one running job, and no more recovered
  -- jobs than places.
  pub build_status-accounts :
      (plan_ids : Value Real) (s : S) (r : StatusReport) (t : S)
      → build_publish_batch_status R status_builder plugin_status_builder plan_ids s ≡ (ok r, t)
      → (validate_status_plan_ids R plan_ids ≡ ok (map (λ (i : StatusItem). i.plan_id) r.items))
        × All (λ i. is_normal i ≡ true) r.items
        × (r.cancelled_count + r.failed_count + r.pending_count + r.running_count
              + r.succeeded_count + r.not_found + r.errors
            ≡ length r.items)
        × QueueIsConsistent r.queue
  unfolding build_publish_batch_status status_of_jobs with_id summarize
  build_status-accounts plan_ids s r t h =
      let (ids, u, valid, jobs) =
        bind-ok (lift (validate_status_plan_ids R plan_ids))
          (status_of_jobs R status_builder plugin_status_builder) s r t h in
      let (items, v, read, rest) =
        bind-ok (read_statuses R status_builder plugin_status_builder ids)
          (λ items. read_queue R status_builder plugin_status_builder >>= λ queue.
            pure (with_id R (summarize R items queue.0 queue.1)))
          u r t jobs in
      let (queue, w, sampled, last) =
        bind-ok (read_queue R status_builder plugin_status_builder)
          (λ queue. pure (with_id R (summarize R items queue.0 queue.1))) v r t rest in
      let same : with_id R (summarize R items queue.0 queue.1) ≡ r = cc in
      let facts = read_statuses-normal ids u items v read in
      subst
        (λ (x : StatusReport).
          (validate_status_plan_ids R plan_ids ≡ ok (map (λ (i : StatusItem). i.plan_id) x.items))
          × All (λ i. is_normal i ≡ true) x.items
          × (x.cancelled_count + x.failed_count + x.pending_count + x.running_count
                + x.succeeded_count + x.not_found + x.errors
              ≡ length x.items)
          × QueueIsConsistent x.queue)
        same (cc, facts.0, counted-length items facts.0, queue-consistent v queue w sampled)
