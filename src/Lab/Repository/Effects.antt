-- ===== src/Lab/Repository/Effects.antt =====
-- What a successful call of the enqueueing methods of services/platform-api/internal/lab does to the
-- store: nothing, for a repeated request, or one new pending operation of a lab that had none in
-- flight.
use website_go_based.Base.{
  ℕ, ◌≡◌, refl, subst, true, false, Option, some, [], ◌∷◌, ◌++◌, String, arith, Result, ok, ◌>>=◌,
  ◌>>◌, exists, >>=-ok, >>-ok, reject-ok,
}
use website_go_based.Lab.Action.{Action, ActionInput}
use website_go_based.Lab.Repository.Stored.{stored_request}
use website_go_based.Lab.Repository.{CreatedOperation, created_of}
use website_go_based.Base.{In}
use website_go_based.Lab.Errors.{LabError}
use website_go_based.Lab.Repository.{
  ActionResult, insert_pending, mark_terminating, destroyable_row, enqueue_reset, enqueue_destroy,
  fresh_result,
}
use website_go_based.Lab.Status.{can_transition, terminating}
use website_go_based.Store.{Store, SessionRow, OperationRow, pending, Payload, Faults, in_flight_of}
use website_go_based.Store.Frame.{SessionMoves, SessionMoves-refl, SessionMoves-update_where}

-- A new pending operation.
pub record Inserted (s s' : Store) (row : OperationRow) (lab_id operation_id : String)
    : Type 0 where
  pub sessions_kept : s'.sessions ≡ s.sessions
  pub instances_kept : s'.instances ≡ s.instances
  pub resources_kept : s'.resources ≡ s.resources
  pub row_added : s'.operations ≡ s.operations ++ row ∷ []
  pub row_pending : row.status ≡ pending
  pub row_lab : row.lab_id ≡ lab_id
  pub row_operation : row.operation_id ≡ operation_id

pub insert_pending-Inserted :
    (fails : Faults) (s : Store) (operation_id lab_id : String) (user_id : ℕ) (action : Action)
    (target : Option String) (payload : Payload) (now : ℕ) (s' : Store) (row : OperationRow)
    → insert_pending fails s operation_id lab_id user_id action target payload now ≡ ok (s', row)
    → Inserted s s' row lab_id operation_id
unfolding insert_pending
insert_pending-Inserted fails s operation_id lab_id user_id action target payload now s' row e =
    ground arith

-- A successful call that is not a repetition: `row` is the new operation.
pub record Enqueued (s s' : Store) (lab_id operation_id : String) : Type 0 where
  pub row : OperationRow
  pub lab_idle : exists (in_flight_of lab_id) s.operations ≡ false
  pub sessions_moved : SessionMoves s.sessions s'.sessions
  pub added : s'.operations ≡ s.operations ++ row ∷ []
  pub starts_pending : row.status ≡ pending
  pub of_lab : row.lab_id ≡ lab_id
  pub of_operation : row.operation_id ≡ operation_id

-- The request that a stored operation answers.
abbrev pub Asked : ℕ → String → Action → OperationRow → Type 0
Asked user_id lab_id action o =
    (o.lab_id ≡ lab_id) × (o.requested_by ≡ user_id) × (o.action ≡ action)

abbrev pub AskedFor : ℕ → String → ActionInput → OperationRow → Type 0
AskedFor user_id lab_id input o =
    (o.lab_id ≡ lab_id) × (o.requested_by ≡ user_id) × (stored_request o.payload ≡ input)

-- What a caller is told of a stored operation.
abbrev pub Tells : CreatedOperation → OperationRow → Type 0
Tells c o =
    (c.id ≡ o.id)
    × (c.operation_id ≡ o.operation_id)
    × (c.lab_id ≡ o.lab_id)
    × (c.requested_by ≡ o.requested_by)
    × (c.action ≡ o.action)
    × (c.target_instance_id ≡ o.target_instance_id)
    × (c.status ≡ o.status)
    × (c.submitted_at ≡ o.created_at)
    × (c.completed_at ≡ o.completed_at)

-- A call that repeats a request: the operation `row` of the table has its identifier, answers the same
-- request, and is what the caller is told; the store stays.
pub record Repeated (s s' : Store) (r : ActionResult) (operation_id : String)
    (Same : OperationRow → Type 0) : Type 0 where
  pub row : OperationRow
  pub stored : In row s.operations
  pub of_operation : row.operation_id ≡ operation_id
  pub same_request : Same row
  pub told : Tells r.operation row
  pub store_kept : s' ≡ s

pub data Effect (s s' : Store) (r : ActionResult) (lab_id operation_id : String)
    (Same : OperationRow → Type 0) : Type 0 where
  repeated :
      Repeated s s' r operation_id Same → r.existing ≡ true → Effect s s' r lab_id operation_id Same
  enqueued :
      (e : Enqueued s s' lab_id operation_id)
      → Tells r.operation e.row
      → r.existing ≡ false
      → Effect s s' r lab_id operation_id Same

created_of-Tells : (o : OperationRow) → Tells (created_of o) o
unfolding created_of
created_of-Tells o = (refl, refl, refl, refl, refl, refl, refl, refl, refl)

-- The end of every enqueueing transaction: insert the row, commit, answer.
pub insert_and_commit :
    (fails : Faults) (s mid s' : Store) (operation_id lab_id : String) (user_id : ℕ)
    (action : Action) (target : Option String) (payload : Payload) (now : ℕ)
    (Same : OperationRow → Type 0) (commits : Result LabError (Unit {0})) (r : ActionResult)
    → exists (in_flight_of lab_id) s.operations ≡ false
    → SessionMoves s.sessions mid.sessions
    → mid.operations ≡ s.operations
    → (do
      (last, row) ← insert_pending fails mid operation_id lab_id user_id action target payload now
      commits
      ok (fresh_result last row))
      ≡ ok (s', r)
    → Effect s s' r lab_id operation_id Same
insert_and_commit fails s mid s' operation_id lab_id user_id action target payload now Same commits
      r idle moved same e =
    let (p, inserted, rest) =
      >>=-ok (insert_pending fails mid operation_id lab_id user_id action target payload now) _ e in
    let (committed, answer) = >>-ok commits _ rest in
    let i =
      insert_pending-Inserted fails mid operation_id lab_id user_id action target payload now p.0
        p.1 inserted in
    enqueued
      (record {
        row = p.1;
        lab_idle = idle;
        sessions_moved = ground arith;
        added = ground arith;
        starts_pending = i.row_pending;
        of_lab = i.row_lab;
        of_operation = i.row_operation;
      })
      (subst (λ c. Tells c p.1) (ground arith) (created_of-Tells p.1)) (ground arith)

mark_terminating-moves :
    (fails : Faults) (s : Store) (lab_id reason : String) (now : ℕ) (s' : Store)
    → mark_terminating fails s lab_id reason now ≡ ok s'
    → SessionMoves s.sessions s'.sessions × (s'.operations ≡ s.operations)
unfolding mark_terminating
mark_terminating-moves fails s lab_id reason now s' e = (
  subst (λ ss. SessionMoves s.sessions ss) (ground arith)
      (SessionMoves-update_where (destroyable_row lab_id)
        (λ x. record x { status = terminating; termination_reason = some reason; updated_at = now })
        s.sessions (λ x hit. unfold destroyable_row can_transition in ground arith)),
  ground arith,
)

pub enqueue_reset-Effect :
    (fails : Faults) (s : Store) (session : SessionRow) (user_id : ℕ) (lab_id operation_id : String)
    (now : ℕ) (Same : OperationRow → Type 0) (s' : Store) (r : ActionResult)
    → enqueue_reset fails s session user_id lab_id operation_id now ≡ ok (s', r)
    → Effect s s' r lab_id operation_id Same
unfolding enqueue_reset
enqueue_reset-Effect fails s session user_id lab_id operation_id now Same s' r e =
    let (_, queue) = >>-ok _ _ e in
    let (_, guard) = >>-ok _ _ queue in
    let (idle, insert) = >>-ok _ _ guard in
    insert_and_commit fails s s s' operation_id lab_id user_id _ _ _ now Same _ r
      (reject-ok _ _ idle) (SessionMoves-refl s.sessions) refl insert

pub enqueue_destroy-Effect :
    (fails : Faults) (s : Store) (session : SessionRow) (user_id : ℕ) (lab_id operation_id : String)
    (reason : Option String) (now : ℕ) (Same : OperationRow → Type 0) (s' : Store)
    (r : ActionResult)
    → enqueue_destroy fails s session user_id lab_id operation_id reason now ≡ ok (s', r)
    → Effect s s' r lab_id operation_id Same
unfolding enqueue_destroy
enqueue_destroy-Effect fails s session user_id lab_id operation_id reason now Same s' r e =
    let (_, queue) = >>-ok _ _ e in
    let (_, guard) = >>-ok _ _ queue in
    let (idle, mark) = >>-ok _ _ guard in
    let (mid, marked, insert) = >>=-ok _ _ mark in
    let (moved, same) = mark_terminating-moves fails s lab_id _ now mid marked in
    insert_and_commit fails s mid s' operation_id lab_id user_id _ _ _ now Same _ r
      (reject-ok _ _ idle) moved same insert
