-- ===== src/Lab/Repository.antt =====
-- services/platform-api/internal/lab/repository.go, cache_actions.go and the transaction of topology.go:
-- the enqueueing of operations. A transaction that returns an error is rolled back, so a method
-- answers an error or the committed store with its result. `fails` says which statements the database
-- refuses. The store that a transaction reads is the one that it locked: the second look-up of an
-- operation sees what the first one saw.
pub mod Stored
pub mod CacheActions
pub mod TopologyActions
pub mod Effects
pub mod Calls
pub mod Create
pub mod Admission
pub mod Known
pub mod Retry
pub mod CreateRetry
use website_go_based.Base.{
  ℕ, zero, suc, ◌+◌, ◌-◌, ◌*◌, ◌/◌, ◌%◌, ◌≤◌, ◌<◌, ◌≡◌, refl, sym, ap, subst, ◌∙◌, ◌≢◌, ◌↔◌, ◌⊎◌,
  inl, inr, Bool, true, false, not, ◌&&◌, ◌||◌, Option, none, some, List, [], ◌∷◌, ◌++◌, map,
  String, arith, Result, ok, err, require, reject, or_fail, ◌>>=◌, ◌>>◌, ltb, leb, ◌==◌,
  if◌then◌else◌, Bool-cases, Option-cases, length, length-append, All, All-append, All-map_pred,
  select, first, update_where, count_where, exists,
}
use mathlib.Core.Option.{get_or}
use website_go_based.Base.Int.{ℤ, pos, ltb_ℤ}
use website_go_based.Base.Text.{same_text, holds}
use website_go_based.Base.Sorting.{sort_by}
use website_go_based.Lab.Action.{
  Action, reset_lab, destroy_lab, add_instance, Action-discrete, ActionInput, ActionInput-discrete,
  elements,
}
use website_go_based.Lab.Errors.{
  LabError, invalid_request, not_found, not_owned, operation_conflict, busy, not_running,
  state_conflict, action_not_allowed, instance_not_found, capacity_exceeded_error, internal,
}
use website_go_based.Lab.Quota.{Quota}
use website_go_based.Lab.Status.{
  Status, preparing, running, expiring, failed, terminating, terminated, other,
}
use website_go_based.Lab.Topology.{Instance, build_topology_payload}
use website_go_based.Store.{
  Store, SessionRow, InstanceRow, OperationRow, ResourceRow, OperationStatus, pending, Payload,
  reset_payload, destroy_payload, cache_payload, topology_payload, Statement, Faults, begin_tx,
  find_existing, lock_session, recheck_existing, check_queue, lock_instances, count_instances,
  count_redis, lock_admission, insert_operation, update_session, commit_tx, release_admission,
  in_flight_of, running_or_expiring, RowStatus, row_running, row_terminated, row_deleted, row_ready,
  row_unknown, row_other, ResourceType, session_redis, ScenarioType, application_cluster,
  multi_level_cache,
}

pub record CreatedOperation : Type 0 where
  pub id : ℕ
  pub operation_id : String
  pub lab_id : String
  pub requested_by : ℕ
  pub action : Action
  pub target_instance_id : Option String
  pub status : OperationStatus
  pub submitted_at : ℕ
  pub completed_at : Option ℕ

pub record ActionResult : Type 0 where
  pub operation : CreatedOperation
  pub existing : Bool

abbrev pub Tx : Type 0
Tx = Result LabError (Store × ActionResult)

-- The columns that `findActionByOperationID` scans.
unfoldable pub created_of : OperationRow → CreatedOperation
created_of o = record {
  id = o.id;
  operation_id = o.operation_id;
  lab_id = o.lab_id;
  requested_by = o.requested_by;
  action = o.action;
  target_instance_id = o.target_instance_id;
  status = o.status;
  submitted_at = o.created_at;
  completed_at = o.completed_at;
}

unfoldable pub find_operation : Store → String → Option OperationRow
find_operation s operation_id = first (λ o. same_text o.operation_id operation_id) s.operations

unfoldable pub find_session : Store → String → Option SessionRow
find_session s lab_id = first (λ x. same_text x.id lab_id) s.sessions

unfoldable pub attempt : Faults → Statement → Result LabError (Unit {0})
attempt fails statement = reject (fails statement) internal

-- INSERT INTO lab_operations, whose operation_id is a unique key.
unfoldable pub insert_pending :
    Faults
    → Store
    → String
    → String
    → ℕ
    → Action
    → Option String
    → Payload
    → ℕ
    → Result LabError (Store × OperationRow)
unfolding attempt
insert_pending fails s operation_id lab_id user_id action target payload now = do
  attempt fails insert_operation
  reject (exists (λ o. same_text o.operation_id operation_id) s.operations) operation_conflict
  ok (record s { operations = s.operations ++ row ∷ []; next_operation_id = suc row.id }, row)
  where
    row : OperationRow
    row = record {
      id = s.next_operation_id;
      operation_id = operation_id;
      lab_id = lab_id;
      requested_by = user_id;
      action = action;
      target_instance_id = target;
      status = pending;
      payload = payload;
      error_code = none;
      error_message = none;
      skipped = false;
      lease_owner = none;
      lease_expires_at = none;
      attempt_count = 0;
      created_at = now;
      updated_at = now;
      completed_at = none;
    }

unfoldable pub matching_action_result : Store → OperationRow → ℕ → String → Action → Tx
unfolding created_of
matching_action_result s o user_id lab_id action =
    if not (same_text o.lab_id lab_id)
      || not (o.requested_by == user_id)
      || not (holds (Action-discrete o.action action))
    then err operation_conflict
    else ok (s, record { operation = created_of o; existing = true })

abbrev pub fresh_result : Store → OperationRow → Store × ActionResult
fresh_result s row = (s, record { operation = created_of row; existing = false })

unfoldable pub destroyable : Status → Bool
destroyable preparing = true
destroyable running = true
destroyable expiring = true
destroyable failed = true
destroyable _ = false

-- `validTerminationReason`, and the reason that the destroy branch records.
unfoldable pub termination_reason_of : Option String → String
termination_reason_of none = "user_requested"
termination_reason_of (some r) =
    if same_text r "user_requested" || same_text r "idle_timeout" || same_text r "maximum_duration"
    then r
    else "user_requested"

-- The UPDATE of the destroy branch: its rows, and what it writes.
unfoldable pub destroyable_row : String → SessionRow → Bool
unfolding destroyable
destroyable_row lab_id x = same_text x.id lab_id && destroyable x.status

unfoldable pub mark_terminating : Faults → Store → String → String → ℕ → Result LabError Store
unfolding attempt
mark_terminating fails s lab_id reason now = do
  attempt fails update_session
  require (count_where (destroyable_row lab_id) s.sessions == 1) state_conflict
  ok (record s {
    sessions =
        update_where (destroyable_row lab_id)
          (λ x. record x {
            status = terminating;
            termination_reason = some reason;
            updated_at = now;
          })
          s.sessions;
  })

-- `EnqueueAction` after its look-ups, for the two actions that it admits.
unfoldable pub enqueue_reset : Faults → Store → SessionRow → ℕ → String → String → ℕ → Tx
enqueue_reset fails s session user_id lab_id operation_id now = do
  require (running_or_expiring session.status) not_running
  attempt fails check_queue
  reject (exists (in_flight_of lab_id) s.operations) busy
  (s', row) ←
      insert_pending fails s operation_id lab_id user_id reset_lab none
        (reset_payload session.scenario_template_id) now
  attempt fails commit_tx
  ok (fresh_result s' row)

unfoldable pub enqueue_destroy :
    Faults → Store → SessionRow → ℕ → String → String → Option String → ℕ → Tx
enqueue_destroy fails s session user_id lab_id operation_id reason now = do
  require (destroyable session.status) not_running
  attempt fails check_queue
  reject (exists (in_flight_of lab_id) s.operations) busy
  marked ← mark_terminating fails s lab_id (termination_reason_of reason) now
  (s', row) ←
      insert_pending fails marked operation_id lab_id user_id destroy_lab none
        (destroy_payload (get_or reason "")) now
  attempt fails commit_tx
  ok (fresh_result s' row)

unfoldable pub enqueue_by_action :
    Action → Faults → Store → SessionRow → ℕ → String → String → Option String → ℕ → Tx
enqueue_by_action reset_lab fails s session user_id lab_id operation_id reason now =
    enqueue_reset fails s session user_id lab_id operation_id now
enqueue_by_action destroy_lab fails s session user_id lab_id operation_id reason now =
    enqueue_destroy fails s session user_id lab_id operation_id reason now
enqueue_by_action _ fails s session user_id lab_id operation_id reason now = err invalid_request

-- The transaction from the lock of the session on.
unfoldable pub enqueue_locked :
    Faults → Store → ℕ → String → String → Action → Option String → ℕ → Tx
enqueue_locked fails s user_id lab_id operation_id action reason now = do
  attempt fails lock_session
  session ← or_fail (find_session s lab_id) not_found
  require (session.user_id == user_id) not_owned
  attempt fails recheck_existing
  elim (find_operation s operation_id) [
    | some o ↦ matching_action_result s o user_id lab_id action
    | none ↦ enqueue_by_action action fails s session user_id lab_id operation_id reason now
  ]

-- `EnqueueAction`; `reason` is the entry `"reason"` of its payload.
unfoldable pub enqueue_action :
    Faults → Store → ℕ → String → String → Action → Option String → ℕ → Tx
enqueue_action fails s user_id lab_id operation_id action reason now = do
  attempt fails begin_tx
  attempt fails find_existing
  elim (find_operation s operation_id) [
    | some o ↦ matching_action_result s o user_id lab_id action
    | none ↦ enqueue_locked fails s user_id lab_id operation_id action reason now
  ]
