-- ===== src/Operation/Endings.antt =====
-- services/platform-api/internal/operation/repository.go: `CompleteProvision`, `CompleteReset` and
-- `CompleteDestroy`. Each is one transaction: an error leaves the store as it was.
use website_go_based.Base.{
  ℕ, Bool, true, false, ◌&&◌, Option, none, some, String, Result, ok, require, ◌>>=◌, ◌>>◌, ◌==◌,
  if◌then◌else◌, update_where, count_where,
}
use website_go_based.Base.Text.{same_text}
use website_go_based.Lab.Status.{Status, preparing, running, failed, terminating, terminated}
use website_go_based.Operation.Queue.{
  QueueError, state_conflict, Record, run_statement, complete_operation_record,
}
use website_go_based.Store.{
  Store, SessionRow, RowStatus, row_unknown, row_terminated, row_deleted, succeeded, failed_op,
  Faults, begin_tx, commit_tx, update_session, update_instances, update_resources,
  running_or_expiring,
}
use website_go_based.Operation.Provision.{
  ProvisionResult, is_blank, is_some, persist_provision_result,
}

-- UPDATE lab_sessions SET f WHERE id = ? AND p(status), one row.
unfoldable pub in_status : String → (Status → Bool) → SessionRow → Bool
in_status lab_id p x = same_text x.id lab_id && p x.status

unfoldable pub move_session :
    Faults → Store → String → (Status → Bool) → (SessionRow → SessionRow) → Result QueueError Store
move_session fails s lab_id p f = do
  run_statement fails update_session
  require (count_where (in_status lab_id p) s.sessions == 1) state_conflict
  ok (record s { sessions = update_where (in_status lab_id p) f s.sessions })

abbrev pub is_preparing : Status → Bool
is_preparing preparing = true
is_preparing _ = false

abbrev pub is_terminating : Status → Bool
is_terminating terminating = true
is_terminating _ = false

-- The row of a lab that has been provisioned, and the one that a reset writes.
unfoldable pub provisioned : ProvisionResult → ℕ → SessionRow → SessionRow
provisioned v now x = record x {
  status = running;
  mysql_db_name = some v.database_name;
  mysql_db_user = some v.database_user;
  redis_enabled = is_some v.redis;
  started_at = some now;
  last_effective_action_at = some now;
  updated_at = now;
}

unfoldable pub restored : ProvisionResult → ℕ → SessionRow → SessionRow
restored v now x = record x {
  status = running;
  mysql_db_name = some v.database_name;
  mysql_db_user = some v.database_user;
  redis_enabled = is_some v.redis;
  last_effective_action_at = some now;
  updated_at = now;
}

unfoldable pub failed_session : ℕ → SessionRow → SessionRow
failed_session now x = record x { status = failed; updated_at = now }

unfoldable pub complete_provision_success :
    Faults → Store → Record → ProvisionResult → String → String → ℕ → Result QueueError Store
complete_provision_success fails s r v code message now = do
  persisted ← persist_provision_result fails s r v now
  done ← complete_operation_record fails persisted r succeeded false code message now
  moved ← move_session fails done r.lab_id is_preparing (provisioned v now)
  run_statement fails commit_tx
  ok moved

unfoldable pub complete_provision_error :
    Faults → Store → Record → ProvisionResult → String → String → ℕ → Result QueueError Store
complete_provision_error fails s r v code message now = do
  done ← complete_operation_record fails s r failed_op false code message now
  moved ← move_session fails done r.lab_id is_preparing (failed_session now)
  run_statement fails commit_tx
  ok moved

unfoldable pub complete_provision :
    Faults → Store → Record → ProvisionResult → String → String → ℕ → Result QueueError Store
complete_provision fails s r v code message now = do
  run_statement fails begin_tx
  (if is_blank code
      then complete_provision_success fails s r v code message now
      else complete_provision_error fails s r v code message now)

-- The instances and resources of a lab, set to a status and cut off from their containers.
unfoldable pub detach :
    Faults → Store → String → RowStatus → RowStatus → ℕ → Result QueueError Store
detach fails s lab_id instance_status resource_status now = do
  run_statement fails update_instances
  run_statement fails update_resources
  ok (record s {
    instances =
        update_where (λ i. same_text i.lab_id lab_id)
          (λ i. record i { status = instance_status; container_id = none; updated_at = now })
          s.instances;
    resources =
        update_where (λ x. same_text x.lab_id lab_id)
          (λ x. record x { status = resource_status; external_id = none; updated_at = now })
          s.resources;
  })

unfoldable pub complete_reset_success :
    Faults → Store → Record → ProvisionResult → String → String → ℕ → Result QueueError Store
complete_reset_success fails s r v code message now = do
  persisted ← persist_provision_result fails s r v now
  done ← complete_operation_record fails persisted r succeeded false code message now
  moved ← move_session fails done r.lab_id running_or_expiring (restored v now)
  run_statement fails commit_tx
  ok moved

unfoldable pub complete_reset_error :
    Faults → Store → Record → ProvisionResult → String → String → ℕ → Result QueueError Store
complete_reset_error fails s r v code message now = do
  done ← complete_operation_record fails s r failed_op false code message now
  detached ← detach fails done r.lab_id row_unknown row_unknown now
  moved ← move_session fails detached r.lab_id running_or_expiring (failed_session now)
  run_statement fails commit_tx
  ok moved

unfoldable pub complete_reset :
    Faults → Store → Record → ProvisionResult → String → String → ℕ → Result QueueError Store
complete_reset fails s r v code message now = do
  run_statement fails begin_tx
  (if is_blank code
      then complete_reset_success fails s r v code message now
      else complete_reset_error fails s r v code message now)

-- COALESCE(termination_reason, 'user_requested')
unfoldable pub coalesce : Option String → String → String
coalesce none fallback = fallback
coalesce (some t) fallback = t

unfoldable pub terminated_session : ℕ → SessionRow → SessionRow
terminated_session now x = record x {
  status = terminated;
  terminated_at = some now;
  termination_reason = some (coalesce x.termination_reason "user_requested");
  updated_at = now;
}

unfoldable pub destroy_failed : ℕ → SessionRow → SessionRow
destroy_failed now x = record x {
  status = failed;
  termination_reason = some "destroy_failed";
  updated_at = now;
}

unfoldable pub complete_destroy_success :
    Faults → Store → Record → String → String → ℕ → Result QueueError Store
complete_destroy_success fails s r code message now = do
  done ← complete_operation_record fails s r succeeded false code message now
  detached ← detach fails done r.lab_id row_terminated row_deleted now
  moved ← move_session fails detached r.lab_id is_terminating (terminated_session now)
  run_statement fails commit_tx
  ok moved

unfoldable pub complete_destroy_error :
    Faults → Store → Record → String → String → ℕ → Result QueueError Store
complete_destroy_error fails s r code message now = do
  done ← complete_operation_record fails s r failed_op false code message now
  detached ← detach fails done r.lab_id row_unknown row_unknown now
  moved ← move_session fails detached r.lab_id is_terminating (destroy_failed now)
  run_statement fails commit_tx
  ok moved

unfoldable pub complete_destroy :
    Faults → Store → Record → String → String → ℕ → Result QueueError Store
complete_destroy fails s r code message now = do
  run_statement fails begin_tx
  (if is_blank code
      then complete_destroy_success fails s r code message now
      else complete_destroy_error fails s r code message now)
