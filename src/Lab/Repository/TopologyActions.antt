-- ===== src/Lab/Repository/TopologyActions.antt =====
-- services/platform-api/internal/lab/topology.go: `EnqueueTopologyAction`. The global admission lock is
-- released after the commit: a failure of that release is reported although the store is committed.
use website_go_based.Base.{
  ℕ, ◌+◌, Bool, true, false, not, ◌&&◌, ◌||◌, Option, none, some, List, map, String, Result, ok,
  err, require, reject, or_fail, ◌>>=◌, ◌>>◌, ◌==◌, if◌then◌else◌, select, count_where, exists,
}
use website_go_based.Base.Int.{pos, ltb_ℤ}
use website_go_based.Base.Sorting.{sort_by}
use website_go_based.Base.Text.{same_text, holds}
use website_go_based.Lab.Action.{
  Action, add_instance, Action-discrete, ActionInput, ActionInput-discrete,
}
use website_go_based.Lab.Errors.{
  LabError, not_found, not_owned, operation_conflict, busy, not_running, action_not_allowed,
  capacity_exceeded_error, internal,
}
use website_go_based.Lab.Quota.{Quota}
use website_go_based.Lab.Repository.{
  Tx, ActionResult, created_of, find_operation, find_session, attempt, insert_pending, fresh_result,
}
use website_go_based.Lab.Repository.CacheActions.{is_row_running}
use website_go_based.Lab.Repository.Stored.{stored_request}
use website_go_based.Lab.Topology.{Instance, build_topology_payload}
use website_go_based.Store.{
  Store, SessionRow, InstanceRow, OperationRow, Faults, begin_tx, find_existing, lock_session,
  lock_admission, lock_instances, check_queue, count_instances, count_redis, commit_tx,
  release_admission, in_flight_of, running_or_expiring, RowStatus, row_terminated, row_deleted,
  ResourceType, session_redis, ScenarioType, application_cluster, topology_payload,
}

abbrev pub is_cluster : ScenarioType → Bool
is_cluster application_cluster = true
is_cluster _ = false

abbrev pub adds : Action → Bool
adds add_instance = true
adds _ = false

-- `status NOT IN ('terminated', 'deleted')`
abbrev pub is_live : RowStatus → Bool
is_live row_terminated = false
is_live row_deleted = false
is_live _ = true

abbrev pub is_redis : ResourceType → Bool
is_redis session_redis = true
is_redis _ = false

unfoldable pub admit_global_temporary_container :
    Faults → Store → Quota → Result LabError (Unit {0})
unfolding attempt
admit_global_temporary_container fails s quota = do
  attempt fails count_instances
  let containers = count_where (λ i. is_live i.status) s.instances
  attempt fails count_redis
  let redis = count_where (λ r. is_redis r.resource_type && is_live r.status) s.resources
  reject (ltb_ℤ quota.max_temporary_containers (pos (containers + redis + 1)))
      capacity_exceeded_error

-- `WHERE lab_id = ? AND status = 'running' ORDER BY instance_name`
unfoldable pub topology_rows : Store → String → List InstanceRow
topology_rows s lab_id =
    sort_by (λ i. i.instance_name)
      (select (λ i. same_text i.lab_id lab_id && is_row_running i.status) s.instances)

abbrev pub is_missing : Option String → Bool
is_missing none = true
is_missing (some t) = false

-- `lockTopologyInstances`: the running instances of the lab, by name. A container that is NULL cannot be
-- scanned into a string.
unfoldable pub lock_topology_instances : Store → String → Result LabError (List Instance)
unfolding topology_rows
lock_topology_instances s lab_id = do
  reject (exists (λ i. is_missing i.container_id) (topology_rows s lab_id)) internal
  ok (
      map
        (λ i. record {
          id = i.instance_name;
          name = i.instance_name;
          performance_percent = i.performance_percent;
          current_weight = i.current_weight;
        })
        (topology_rows s lab_id))

unfoldable pub matching_topology_action : Store → OperationRow → ℕ → String → ActionInput → Tx
unfolding created_of
matching_topology_action s o user_id lab_id input =
    if not (same_text o.lab_id lab_id)
      || not (o.requested_by == user_id)
      || not (holds (Action-discrete o.action input.action_type))
      || not (holds (ActionInput-discrete (stored_request o.payload) input))
    then err operation_conflict
    else ok (s, record { operation = created_of o; existing = true })

-- The checks of the locked session, before the payload is built.
unfoldable pub topology_session : Faults → Store → ℕ → String → Action → Result LabError SessionRow
topology_session fails s user_id lab_id action = do
  attempt fails lock_session
  session ← or_fail (find_session s lab_id) not_found
  require (session.user_id == user_id) not_owned
  require (running_or_expiring session.status) not_running
  require (is_cluster session.scenario_type) action_not_allowed
  reject (adds action && fails lock_admission) internal
  attempt fails check_queue
  reject (exists (in_flight_of lab_id) s.operations) busy
  ok session

unfoldable pub enqueue_topology_locked : Faults → Store → ℕ → String → ActionInput → Quota → ℕ → Tx
enqueue_topology_locked fails s user_id lab_id input quota now = do
  session ← topology_session fails s user_id lab_id input.action_type
  attempt fails lock_instances
  instances ← lock_topology_instances s lab_id
  (payload, target) ←
      build_topology_payload session.scenario_template_id session.balancing_mode instances input
        quota (admit_global_temporary_container fails s quota)
  (s', row) ←
      insert_pending fails s input.operation_id lab_id user_id input.action_type target
        (topology_payload payload) now
  attempt fails commit_tx
  ok (fresh_result s' row)

unfoldable pub topology_transaction : Faults → Store → ℕ → String → ActionInput → Quota → ℕ → Tx
topology_transaction fails s user_id lab_id input quota now = do
  attempt fails begin_tx
  attempt fails find_existing
  elim (find_operation s input.operation_id) [
    | some o ↦ matching_topology_action s o user_id lab_id input
    | none ↦ enqueue_topology_locked fails s user_id lab_id input quota now
  ]

-- The store after the call, and the answer.
unfoldable pub enqueue_topology_action :
    Faults → Store → ℕ → String → ActionInput → Quota → ℕ → Store × Result LabError ActionResult
enqueue_topology_action fails s user_id lab_id input quota now =
    elim (topology_transaction fails s user_id lab_id input quota now) [
      | err e ↦ (s, err e)
      | ok (s', r) ↦ (
        s',
        if adds input.action_type && not r.existing && fails release_admission
            then err internal
            else ok r,
      )
    ]
