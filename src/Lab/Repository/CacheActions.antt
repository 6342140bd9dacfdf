-- ===== src/Lab/Repository/CacheActions.antt =====
-- services/platform-api/internal/lab/cache_actions.go: `EnqueueCacheAction`.
use website_go_based.Base.{
  ℕ, Bool, true, false, not, ◌&&◌, ◌||◌, Option, none, some, String, Result, ok, err, require,
  reject, or_fail, ◌>>=◌, ◌>>◌, ◌==◌, if◌then◌else◌, count_where, exists,
}
use website_go_based.Base.Text.{same_text, holds}
use website_go_based.Lab.Action.{ActionInput, ActionInput-discrete}
use website_go_based.Lab.Errors.{
  LabError, not_found, not_owned, operation_conflict, busy, not_running, action_not_allowed,
  instance_not_found,
}
use website_go_based.Lab.Repository.{
  Tx, created_of, find_operation, find_session, attempt, insert_pending, fresh_result,
}
use website_go_based.Lab.Repository.Stored.{stored_request}
use website_go_based.Lab.Status.{Status, running}
use website_go_based.Store.{
  Store, InstanceRow, OperationRow, Faults, begin_tx, find_existing, lock_session, lock_instances,
  check_queue, commit_tx, in_flight_of, RowStatus, row_running, ScenarioType, multi_level_cache,
  cache_payload,
}

abbrev pub is_row_running : RowStatus → Bool
is_row_running row_running = true
is_row_running _ = false

abbrev pub is_running : Status → Bool
is_running running = true
is_running _ = false

abbrev pub is_cache_scenario : ScenarioType → Bool
is_cache_scenario multi_level_cache = true
is_cache_scenario _ = false

-- `WHERE lab_id = ? AND instance_name = ? AND status = 'running'`
unfoldable pub running_instance : String → String → InstanceRow → Bool
running_instance lab_id name i =
    same_text i.lab_id lab_id && same_text i.instance_name name && is_row_running i.status

unfoldable pub check_target : Faults → Store → String → Option String → Result LabError (Unit {0})
unfolding attempt running_instance
check_target fails s lab_id none = ok tt
check_target fails s lab_id (some name) = do
  attempt fails lock_instances
  require (count_where (running_instance lab_id name) s.instances == 1) instance_not_found

unfoldable pub enqueue_cache_locked : Faults → Store → ℕ → String → ActionInput → ℕ → Tx
enqueue_cache_locked fails s user_id lab_id input now = do
  attempt fails lock_session
  session ← or_fail (find_session s lab_id) not_found
  require (session.user_id == user_id) not_owned
  require (is_running session.status) not_running
  require (is_cache_scenario session.scenario_type) action_not_allowed
  check_target fails s lab_id input.target_instance_id
  attempt fails check_queue
  reject (exists (in_flight_of lab_id) s.operations) busy
  (s', row) ←
      insert_pending fails s input.operation_id lab_id user_id input.action_type
        input.target_instance_id (cache_payload session.scenario_template_id input) now
  attempt fails commit_tx
  ok (fresh_result s' row)

unfoldable pub matching_cache_action : Store → OperationRow → ℕ → String → ActionInput → Tx
unfolding created_of
matching_cache_action s o user_id lab_id input =
    if not (same_text o.lab_id lab_id)
      || not (o.requested_by == user_id)
      || not (holds (ActionInput-discrete (stored_request o.payload) input))
    then err operation_conflict
    else ok (s, record { operation = created_of o; existing = true })

unfoldable pub enqueue_cache_action : Faults → Store → ℕ → String → ActionInput → ℕ → Tx
enqueue_cache_action fails s user_id lab_id input now = do
  attempt fails begin_tx
  attempt fails find_existing
  elim (find_operation s input.operation_id) [
    | some o ↦ matching_cache_action s o user_id lab_id input
    | none ↦ enqueue_cache_locked fails s user_id lab_id input now
  ]
