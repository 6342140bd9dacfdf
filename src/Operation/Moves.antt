-- ===== src/Operation/Moves.antt =====
-- services/platform-api/internal/operation/repository.go: how the calls of a worker change the sessions and
-- the operations.

use website_go_based.Base.{
  ℕ, ◌≡◌, sym, subst, inl, inr, Bool, true, not, ◌&&◌, String, arith, ok, Option-cases, select,
  count_where, count_where_one,
}
use website_go_based.Lab.Status.{Status}
use website_go_based.Operation.Provision.{persist_provision_result, ProvisionResult}
use website_go_based.Operation.Endings.{in_status, move_session, detach}
use website_go_based.Operation.Queue.Claims.{claim_choice}
use website_go_based.Operation.Queue.{
  claim, claimable, claimed_record, claimed_row, has_id, oldest, running_row, failed_row, claimable,
  claim, claimed_row, has_id, oldest, Record, held_claimed, held_running, mark_running,
  completed_row, complete_operation_record, complete_failure,
}
use website_go_based.Store.{
  OperationRow, Store, SessionRow, OperationStatus, running_op, Faults, RowStatus,
}
use website_go_based.Store.Frame.{
  OperationMove, OperationMoves-update_where-In, SessionMove, SessionMoves,
  SessionMoves-update_where, operation_step, OperationMoves, OperationMoves-update_where,
}

-- The sessions and the operations of two stores.
abbrev pub Moved : Store → Store → Type 0
Moved s s' = SessionMoves s.sessions s'.sessions × OperationMoves s.operations s'.operations

pub move_session-moves :
    (fails : Faults) (s : Store) (lab_id : String) (p : Status → Bool) (f : SessionRow → SessionRow)
    (s' : Store)
    → ((x : SessionRow) → p x.status ≡ true → SessionMove x (f x))
    → move_session fails s lab_id p f ≡ ok s'
    → SessionMoves s.sessions s'.sessions × (s'.operations ≡ s.operations)
unfolding move_session
move_session-moves fails s lab_id p f s' h e = (
  subst (λ ss. SessionMoves s.sessions ss) (ground arith)
      (SessionMoves-update_where (in_status lab_id p) f s.sessions
        (λ x hit. h x (unfold in_status in ground arith))),
  ground arith,
)

pub complete_operation_record-moves :
    (fails : Faults) (s : Store) (r : Record) (status : OperationStatus) (skipped : Bool)
    (code message : String) (now : ℕ) (s' : Store)
    → operation_step running_op status ≡ true
    → complete_operation_record fails s r status skipped code message now ≡ ok s'
    → OperationMoves s.operations s'.operations × (s'.sessions ≡ s.sessions)
unfolding complete_operation_record
complete_operation_record-moves fails s r status skipped code message now s' h e = (
  subst (λ os. OperationMoves s.operations os) (ground arith)
      (OperationMoves-update_where (held_running r) (completed_row status skipped code message now)
        s.operations (λ x hit. unfold held_running completed_row operation_step in ground arith)),
  ground arith,
)

pub mark_running-moves :
    (fails : Faults) (s : Store) (r : Record) (now expires : ℕ) (s' : Store)
    → mark_running fails s r now expires ≡ ok s'
    → OperationMoves s.operations s'.operations × (s'.sessions ≡ s.sessions)
unfolding mark_running
mark_running-moves fails s r now expires s' e = (
  subst (λ os. OperationMoves s.operations os) (ground arith)
      (OperationMoves-update_where (held_claimed r) (running_row now expires) s.operations
        (λ x hit. unfold held_claimed operation_step running_row in ground arith)),
  ground arith,
)

pub complete_failure-moves :
    (fails : Faults) (s : Store) (r : Record) (code message : String) (now : ℕ) (s' : Store)
    → complete_failure fails s r code message now ≡ ok s'
    → OperationMoves s.operations s'.operations × (s'.sessions ≡ s.sessions)
unfolding complete_failure
complete_failure-moves fails s r code message now s' e = (
  subst (λ os. OperationMoves s.operations os) (ground arith)
      (OperationMoves-update_where (held_running r) (failed_row code message now) s.operations
        (λ x hit. unfold held_running operation_step failed_row in ground arith)),
  ground arith,
)

pub persist_provision_result-keeps :
    (fails : Faults) (s : Store) (r : Record) (v : ProvisionResult) (now : ℕ) (s' : Store)
    → persist_provision_result fails s r v now ≡ ok s'
    → (s'.sessions ≡ s.sessions) × (s'.operations ≡ s.operations)
unfolding persist_provision_result
persist_provision_result-keeps fails s r v now s' e = ground arith

pub detach-keeps :
    (fails : Faults) (s : Store) (lab_id : String) (a b : RowStatus) (now : ℕ) (s' : Store)
    → detach fails s lab_id a b now ≡ ok s'
    → (s'.sessions ≡ s.sessions) × (s'.operations ≡ s.operations)
unfolding detach
detach-keeps fails s lab_id a b now s' e = ground arith

claimed-move :
    (owner : String) (now expires : ℕ) (x : OperationRow)
    → claimable now x ≡ true
    → OperationMove x (claimed_row owner now expires x)
unfolding claimable claimed_row operation_step
claimed-move owner now expires x h = ground arith

claim-one :
    (fails : Faults) (s : Store) (locked : OperationRow → Bool) (owner : String) (now expires : ℕ)
    (s' : Store) (r : Record) (o : OperationRow)
    → claim fails s locked owner now expires ≡ ok (s', r)
    → r ≡ claimed_record owner expires o
    → (count_where (has_id o.id) s.operations ≡ 1) × (s'.sessions ≡ s.sessions)
unfolding claim claimed_record
claim-one fails s locked owner now expires s' r o e taken =
    elim (Option-cases (oldest (select (λ o. claimable now o && not (locked o)) s.operations))) [
      | inl missing ↦ absurd (ground arith)
      | inr (o', found) ↦ let same : o'.id ≡ o.id = ground arith in ground arith
    ]

-- Where an identifier selects one row, that is the claimed row and it may be claimed.
pub claim-moves :
    (fails : Faults) (s : Store) (locked : OperationRow → Bool) (owner : String) (now expires : ℕ)
    (s' : Store) (r : Record)
    → claim fails s locked owner now expires ≡ ok (s', r)
    → OperationMoves s.operations s'.operations × (s'.sessions ≡ s.sessions)
claim-moves fails s locked owner now expires s' r e =
    let (o, member, ready, _, _, rows, _) = claim_choice fails s locked owner now expires s' r e in
    let (one, kept) = claim-one fails s locked owner now expires s' r o e (ground arith) in
    (
      subst (λ os. OperationMoves s.operations os) (sym rows)
          (OperationMoves-update_where-In (has_id o.id) (claimed_row owner now expires) s.operations
            (λ x m hit.
              let same : o ≡ x =
                count_where_one (has_id o.id) s.operations o x one member
                  (unfold has_id in ground arith) m hit in
              claimed-move owner now expires x (subst (λ y. claimable now y ≡ true) same ready))),
      kept,
    )
