-- ===== src/Operation/Queue.antt =====
-- services/platform-api/internal/operation/repository.go: leases. A worker claims an operation, marks it
-- running and completes it; every statement after the claim is conditional on the lease owner.
pub mod Claims
pub mod Held
pub mod Leases
use website_go_based.Base.{
  ℕ, zero, suc, ◌+◌, ◌-◌, ◌*◌, ◌/◌, ◌%◌, ◌≤◌, ◌<◌, ◌≡◌, refl, sym, ap, subst, ◌∙◌, ◌≢◌, ◌↔◌, ◌⊎◌,
  inl, inr, Bool, true, false, not, ◌&&◌, ◌||◌, Option, none, some, List, [], ◌∷◌, ◌++◌, map,
  String, arith, Result, ok, err, require, reject, or_fail, ◌>>=◌, ◌>>◌, ltb, leb, ◌==◌,
  if◌then◌else◌, Bool-cases, Option-cases, length, length-append, All, All-append, All-map_pred,
  select, first, update_where, count_where, exists,
}
use website_go_based.Base.Text.{same_text, String-discrete, holds}
use website_go_based.Lab.Action.{Action}
use website_go_based.Store.{
  Store, OperationRow, OperationStatus, pending, claimed, running_op, succeeded, failed_op,
  compensating, Payload, Faults, Statement, begin_tx, select_session, update_operation, commit_tx,
  find_existing,
}

-- `incomplete` is a result that the orchestrator did not fill in, `database` a failed statement.
pub data QueueError : Type 0 where
  no_pending lease_lost state_conflict incomplete database : QueueError

-- `Record`: one claimed operation.
pub record Record : Type 0 where
  pub id : ℕ
  pub operation_id : String
  pub lab_id : String
  pub requested_by : ℕ
  pub action : Action
  pub payload : Payload
  pub status : OperationStatus
  pub lease_owner : String
  pub lease_expires : ℕ
  pub attempt_count : ℕ
  pub created_at : ℕ

unfoldable pub run_statement : Faults → Statement → Result QueueError (Unit {0})
run_statement fails statement = reject (fails statement) database

-- `lease_expires_at <= ?`, which is not true of NULL.
unfoldable pub expired : Option ℕ → ℕ → Bool
expired none now = false
expired (some t) now = leb t now

abbrev pub is_leased : OperationStatus → Bool
is_leased claimed = true
is_leased running_op = true
is_leased _ = false

abbrev pub is_pending : OperationStatus → Bool
is_pending pending = true
is_pending _ = false

abbrev pub is_claimed : OperationStatus → Bool
is_claimed claimed = true
is_claimed _ = false

abbrev pub is_running_op : OperationStatus → Bool
is_running_op running_op = true
is_running_op _ = false

-- The WHERE clause of the claim.
unfoldable pub claimable : ℕ → OperationRow → Bool
unfolding expired
claimable now o = is_pending o.status || (is_leased o.status && expired o.lease_expires_at now)

-- ORDER BY created_at, id
unfoldable pub earlier : OperationRow → OperationRow → Bool
earlier a b = ltb a.created_at b.created_at || ((a.created_at == b.created_at) && ltb a.id b.id)

unfoldable pub oldest_of : OperationRow → List OperationRow → OperationRow
unfolding earlier
oldest_of best [] = best
oldest_of best (o ∷ os) = oldest_of (if earlier o best then o else best) os

unfoldable pub oldest : List OperationRow → Option OperationRow
unfolding oldest_of
oldest [] = none
oldest (o ∷ os) = some (oldest_of o os)

unfoldable pub has_id : ℕ → OperationRow → Bool
has_id id o = o.id == id

unfoldable pub claimed_row : String → ℕ → ℕ → OperationRow → OperationRow
claimed_row owner now lease_expires o = record o {
  status = claimed;
  lease_owner = some owner;
  lease_expires_at = some lease_expires;
  attempt_count = o.attempt_count + 1;
  updated_at = now;
}

unfoldable pub claimed_record : String → ℕ → OperationRow → Record
claimed_record owner lease_expires o = record {
  id = o.id;
  operation_id = o.operation_id;
  lab_id = o.lab_id;
  requested_by = o.requested_by;
  action = o.action;
  payload = o.payload;
  status = claimed;
  lease_owner = owner;
  lease_expires = lease_expires;
  attempt_count = o.attempt_count + 1;
  created_at = o.created_at;
}

-- `Claim`; `locked` are the rows that SKIP LOCKED passes over.
unfoldable pub claim :
    Faults → Store → (OperationRow → Bool) → String → ℕ → ℕ → Result QueueError (Store × Record)
claim fails s locked owner now lease_expires = do
  run_statement fails begin_tx
  run_statement fails select_session
  o ← or_fail (oldest (select (λ o. claimable now o && not (locked o)) s.operations)) no_pending
  run_statement fails update_operation
  require (count_where (has_id o.id) s.operations == 1) lease_lost
  run_statement fails commit_tx
  ok (
    record s {
      operations = update_where (has_id o.id) (claimed_row owner now lease_expires) s.operations;
    },
    claimed_record owner lease_expires o,
  )

abbrev pub owned_by : String → Option String → Bool
owned_by owner none = false
owned_by owner (some holder) = same_text holder owner

-- `id = ? AND status = 'claimed' AND lease_owner = ?`
unfoldable pub held_claimed : Record → OperationRow → Bool
held_claimed r o = (o.id == r.id) && is_claimed o.status && owned_by r.lease_owner o.lease_owner

unfoldable pub running_row : ℕ → ℕ → OperationRow → OperationRow
running_row now lease_expires o = record o {
  status = running_op;
  lease_expires_at = some lease_expires;
  updated_at = now;
}

unfoldable pub mark_running : Faults → Store → Record → ℕ → ℕ → Result QueueError Store
mark_running fails s r now lease_expires = do
  run_statement fails update_operation
  require (count_where (held_claimed r) s.operations == 1) lease_lost
  ok (record s {
    operations = update_where (held_claimed r) (running_row now lease_expires) s.operations;
  })

-- `id = ? AND status = 'running' AND lease_owner = ?`
unfoldable pub held_running : Record → OperationRow → Bool
held_running r o = (o.id == r.id) && is_running_op o.status && owned_by r.lease_owner o.lease_owner

-- NULLIF(?, '')
unfoldable pub null_if_empty : String → Option String
null_if_empty t = if same_text t "" then none else some t

unfoldable pub completed_row :
    OperationStatus → Bool → String → String → ℕ → OperationRow → OperationRow
unfolding null_if_empty
completed_row status skipped code message now o = record o {
  status = status;
  skipped = skipped;
  error_code = null_if_empty code;
  error_message = null_if_empty message;
  lease_owner = none;
  lease_expires_at = none;
  completed_at = some now;
  updated_at = now;
}

-- `completeOperationRecord`; of the stored result only `skipped` is read back.
unfoldable pub complete_operation_record :
    Faults → Store → Record → OperationStatus → Bool → String → String → ℕ → Result QueueError Store
complete_operation_record fails s r status skipped code message now = do
  run_statement fails update_operation
  require (count_where (held_running r) s.operations == 1) lease_lost
  ok (record s {
    operations =
        update_where (held_running r) (completed_row status skipped code message now) s.operations;
  })

unfoldable pub failed_row : String → String → ℕ → OperationRow → OperationRow
failed_row code message now o = record o {
  status = failed_op;
  error_code = some code;
  error_message = some message;
  lease_owner = none;
  lease_expires_at = none;
  completed_at = some now;
  updated_at = now;
}

-- `CompleteFailure`, one statement outside a transaction.
unfoldable pub complete_failure :
    Faults → Store → Record → String → String → ℕ → Result QueueError Store
complete_failure fails s r code message now = do
  run_statement fails update_operation
  require (count_where (held_running r) s.operations == 1) lease_lost
  ok (record s {
    operations = update_where (held_running r) (failed_row code message now) s.operations;
  })
