-- ===== src/Lab/Repository/Retry.antt =====
-- services/platform-api/internal/lab/repository.go: a request of `EnqueueAction` that is sent again.
use website_go_based.Store.{OperationRow, Store}
use website_go_based.Lab.Repository.{
  enqueue_action, enqueue_by_action, enqueue_destroy, enqueue_locked, enqueue_reset, insert_pending,
  Action, ActionResult, Faults, find_operation, matching_action_result, Payload, SessionRow,
  attempt, created_of, find_session, destroy_lab, fresh_result, reset_lab, mark_terminating,
  reset_payload, same_text, commit_tx, termination_reason_of, destroy_payload, get_or, LabError,
}
use mathlib.Core.Option.{get_or}
use website_go_based.Lab.Errors.{not_running, busy}
use website_go_based.Store.{
  check_queue, in_flight_of, destroy_payload, reset_payload, running_or_expiring,
}
use website_go_based.Lab.Repository.{destroyable, termination_reason_of}
use website_go_based.Base.{
  first-append, ℕ, ◌≡◌, inl, inr, true, false, Option, none, some, String, arith, Result, ok,
  require, reject, ◌>>=◌, ◌>>◌, Option-cases, exists, >>=-ok, >>-ok,
}

-- The operation that a call answers is the one that the store holds under the identifier.
record Kept (s : Store) (r : ActionResult) (user_id : ℕ) (lab_id operation_id : String)
    (action : Action) : Type 0 where
  row : OperationRow
  held : find_operation s operation_id ≡ some row
  answered : r.operation ≡ created_of row
  for_lab : row.lab_id ≡ lab_id
  by_user : row.requested_by ≡ user_id
  as_action : row.action ≡ action

insert_pending-Kept :
    (fails : Faults) (s : Store) (operation_id lab_id : String) (user_id : ℕ) (action : Action)
    (payload : Payload) (now : ℕ) (s' : Store) (row : OperationRow) (last : Store)
    (r : ActionResult)
    → insert_pending fails s operation_id lab_id user_id action none payload now ≡ ok (s', row)
    → (s' ≡ last) × (record { operation = created_of row; existing = false } ≡ r)
    → Kept last r user_id lab_id operation_id action
unfolding insert_pending find_operation
insert_pending-Kept fails s operation_id lab_id user_id action payload now s' row last r e answer =
    record {
      row = row;
      held =
          ground
            (arith, first-append (λ o. same_text o.operation_id operation_id) s.operations row);
      answered = ground arith;
      for_lab = ground arith;
      by_user = ground arith;
      as_action = ground arith;
    }

insert_and_commit-Kept :
    (fails : Faults) (s : Store) (operation_id lab_id : String) (user_id : ℕ) (action : Action)
    (payload : Payload) (now : ℕ) (commits : Result LabError (Unit {0})) (s' : Store)
    (r : ActionResult)
    → (do
      (last, row) ← insert_pending fails s operation_id lab_id user_id action none payload now
      commits
      ok (fresh_result last row))
      ≡ ok (s', r)
    → Kept s' r user_id lab_id operation_id action
insert_and_commit-Kept fails s operation_id lab_id user_id action payload now commits s' r e =
    let (p, inserted, rest) =
      >>=-ok (insert_pending fails s operation_id lab_id user_id action none payload now) _ e in
    let (committed, answer) = >>-ok commits _ rest in
    insert_pending-Kept fails s operation_id lab_id user_id action payload now p.0 p.1 s' r inserted
      (ground arith, ground arith)

enqueue_reset-Kept :
    (fails : Faults) (s : Store) (session : SessionRow) (user_id : ℕ) (lab_id operation_id : String)
    (now : ℕ) (s' : Store) (r : ActionResult)
    → enqueue_reset fails s session user_id lab_id operation_id now ≡ ok (s', r)
    → Kept s' r user_id lab_id operation_id reset_lab
unfolding enqueue_reset
enqueue_reset-Kept fails s session user_id lab_id operation_id now s' r e =
    let (_, e1) = >>-ok (require (running_or_expiring session.status) not_running) _ e in
    let (_, e2) = >>-ok (attempt fails check_queue) _ e1 in
    let (_, e3) = >>-ok (reject (exists (in_flight_of lab_id) s.operations) busy) _ e2 in
    insert_and_commit-Kept fails s operation_id lab_id user_id reset_lab
      (reset_payload session.scenario_template_id) now (attempt fails commit_tx) s' r e3

enqueue_destroy-Kept :
    (fails : Faults) (s : Store) (session : SessionRow) (user_id : ℕ) (lab_id operation_id : String)
    (reason : Option String) (now : ℕ) (s' : Store) (r : ActionResult)
    → enqueue_destroy fails s session user_id lab_id operation_id reason now ≡ ok (s', r)
    → Kept s' r user_id lab_id operation_id destroy_lab
unfolding enqueue_destroy
enqueue_destroy-Kept fails s session user_id lab_id operation_id reason now s' r e =
    let (_, e1) = >>-ok (require (destroyable session.status) not_running) _ e in
    let (_, e2) = >>-ok (attempt fails check_queue) _ e1 in
    let (_, e3) = >>-ok (reject (exists (in_flight_of lab_id) s.operations) busy) _ e2 in
    let (mid, marked, e4) =
      >>=-ok (mark_terminating fails s lab_id (termination_reason_of reason) now) _ e3 in
    insert_and_commit-Kept fails mid operation_id lab_id user_id destroy_lab
      (destroy_payload (get_or reason "")) now (attempt fails commit_tx) s' r e4

enqueue_by_action-Kept :
    (action : Action) (fails : Faults) (s : Store) (session : SessionRow) (user_id : ℕ)
    (lab_id operation_id : String) (reason : Option String) (now : ℕ) (s' : Store)
    (r : ActionResult)
    → enqueue_by_action action fails s session user_id lab_id operation_id reason now ≡ ok (s', r)
    → Kept s' r user_id lab_id operation_id action
unfolding enqueue_by_action
enqueue_by_action-Kept reset_lab fails s session user_id lab_id operation_id reason now s' r e =
    enqueue_reset-Kept fails s session user_id lab_id operation_id now s' r e
enqueue_by_action-Kept destroy_lab fails s session user_id lab_id operation_id reason now s' r e =
    enqueue_destroy-Kept fails s session user_id lab_id operation_id reason now s' r e
enqueue_by_action-Kept _ fails s session user_id lab_id operation_id reason now s' r e = cc

enqueue_locked-Kept :
    (fails : Faults) (s : Store) (user_id : ℕ) (lab_id operation_id : String) (action : Action)
    (reason : Option String) (now : ℕ) (s' : Store) (r : ActionResult)
    → find_operation s operation_id ≡ none
    → enqueue_locked fails s user_id lab_id operation_id action reason now ≡ ok (s', r)
    → Kept s' r user_id lab_id operation_id action
unfolding enqueue_locked
enqueue_locked-Kept fails s user_id lab_id operation_id action reason now s' r absent e =
    elim (Option-cases (find_session s lab_id)) [
      | inl missing ↦ absurd (ground arith)
      | inr (session, found) ↦
          enqueue_by_action-Kept action fails s session user_id lab_id operation_id reason now s' r
            (ground arith)
    ]

enqueue_action-Kept :
    (fails : Faults) (s : Store) (user_id : ℕ) (lab_id operation_id : String) (action : Action)
    (reason : Option String) (now : ℕ) (s' : Store) (r : ActionResult)
    → enqueue_action fails s user_id lab_id operation_id action reason now ≡ ok (s', r)
    → Kept s' r user_id lab_id operation_id action
unfolding enqueue_action matching_action_result
enqueue_action-Kept fails s user_id lab_id operation_id action reason now s' r e =
    elim (Option-cases (find_operation s operation_id)) [
      | inl absent ↦
          enqueue_locked-Kept fails s user_id lab_id operation_id action reason now s' r absent
            (ground arith)
      | inr (o, present) ↦ record {
        row = o;
        held = ground arith;
        answered = ground arith;
        for_lab = ground arith;
        by_user = ground arith;
        as_action = ground arith;
      }
    ]

-- After a successful `EnqueueAction`, the same request sent again, at any later time and with any
-- reason, on a database that answers, succeeds with the same operation, marked as existing, and leaves
-- the store as it is.
pub enqueue_action_again :
    (fails : Faults) (s : Store) (user_id : ℕ) (lab_id operation_id : String) (action : Action)
    (reason again : Option String) (now later : ℕ) (s' : Store) (r : ActionResult)
    → enqueue_action fails s user_id lab_id operation_id action reason now ≡ ok (s', r)
    → enqueue_action (λ _. false) s' user_id lab_id operation_id action again later
      ≡ ok (s', record r { existing = true })
unfolding enqueue_action matching_action_result attempt
enqueue_action_again fails s user_id lab_id operation_id action reason again now later s' r e =
    let k = enqueue_action-Kept fails s user_id lab_id operation_id action reason now s' r e in
    ground (arith, k.held, k.answered, k.for_lab, k.by_user, k.as_action)
