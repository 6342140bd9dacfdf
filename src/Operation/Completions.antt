-- ===== src/Operation/Completions.antt =====
-- services/platform-api/internal/operation/repository.go: how the completion of each kind of operation
-- changes the sessions and the operations.
use website_go_based.Base.{
  ℕ, ◌≡◌, refl, sym, subst, ◌∙◌, Bool, true, false, ◌||◌, String, arith, ok, >>=-ok, inl, inr, ◌>>◌,
  Bool-cases,
}
use website_go_based.Lab.Status.{Status, can_transition}
use website_go_based.Operation.Moves.{
  Moved, move_session-moves, complete_operation_record-moves, persist_provision_result-keeps,
  detach-keeps,
}
use website_go_based.Operation.Provision.{ProvisionResult, is_blank}
use website_go_based.Operation.Endings.{
  move_session, complete_provision_success, provisioned, restored, failed_session,
  terminated_session, destroy_failed, is_preparing, is_terminating, complete_destroy,
  complete_destroy_error, complete_destroy_success, complete_provision, complete_provision_error,
  complete_reset, complete_reset_error, complete_reset_success,
}
use website_go_based.Operation.Queue.{Record, complete_operation_record, run_statement}
use website_go_based.Store.{
  commit_tx, Store, SessionRow, OperationStatus, running_op, succeeded, Faults, running_or_expiring,
  failed_op, row_terminated, row_unknown, row_deleted,
}
use website_go_based.Store.Frame.{SessionMove, SessionMoves, operation_step, OperationMoves}

-- The end of every completion that moves the session: complete the operation, perhaps change rows of
-- other tables, move the session.
module _ (fails : Faults) (r : Record) (status : OperationStatus) (code message : String) (now : ℕ)
    (lab_id : String) (p : Status → Bool) (f : SessionRow → SessionRow)
    (legal : (x : SessionRow) → p x.status ≡ true → SessionMove x (f x))
    (ends : operation_step running_op status ≡ true) where
  finish-moves :
      (s mid done last s' : Store)
      → (mid.sessions ≡ s.sessions) × (mid.operations ≡ s.operations)
      → complete_operation_record fails mid r status false code message now ≡ ok done
      → (last.sessions ≡ done.sessions) × (last.operations ≡ done.operations)
      → move_session fails last lab_id p f ≡ ok s'
      → Moved s s'
  finish-moves s mid done last s' (ms, mo) completes (ls, lo) moves =
      let (lives, same) =
        complete_operation_record-moves fails mid r status false code message now done ends
          completes in
      let (moved, kept) = move_session-moves fails last lab_id p f s' legal moves in
      (
        subst (λ ss. SessionMoves ss s'.sessions) (ls ∙ same ∙ ms) moved,
        subst (λ os. OperationMoves s.operations os) (sym (kept ∙ lo))
            (subst (λ os. OperationMoves os done.operations) mo lives),
      )

provisioned-move :
    (v : ProvisionResult) (now : ℕ) (x : SessionRow)
    → is_preparing x.status ≡ true
    → SessionMove x (provisioned v now x)
unfolding provisioned can_transition
provisioned-move v now x h = ground arith

failed-move :
    (now : ℕ) (x : SessionRow)
    → (is_preparing x.status || running_or_expiring x.status) ≡ true
    → SessionMove x (failed_session now x)
unfolding failed_session can_transition running_or_expiring
failed-move now x h = ground arith

restored-move :
    (v : ProvisionResult) (now : ℕ) (x : SessionRow)
    → running_or_expiring x.status ≡ true
    → SessionMove x (restored v now x)
unfolding restored can_transition running_or_expiring
restored-move v now x h = ground arith

terminated-move :
    (now : ℕ) (x : SessionRow)
    → is_terminating x.status ≡ true
    → SessionMove x (terminated_session now x)
unfolding terminated_session can_transition
terminated-move now x h = ground arith

destroy_failed-move :
    (now : ℕ) (x : SessionRow)
    → is_terminating x.status ≡ true
    → SessionMove x (destroy_failed now x)
unfolding destroy_failed can_transition
destroy_failed-move now x h = ground arith

pub committed :
    (fails : Faults) (moved s' : Store)
    → (do run_statement fails commit_tx; ok moved) ≡ ok s'
    → moved ≡ s'
committed fails moved s' e = ground arith

module _ (fails : Faults) (s : Store) (r : Record) (v : ProvisionResult) (code message : String)
    (now : ℕ) (s' : Store) where
  provision_success-moves :
      complete_provision_success fails s r v code message now ≡ ok s' → Moved s s'
  unfolding complete_provision_success
  provision_success-moves e =
      let (mid, persisted, e1) = >>=-ok _ _ e in
      let (done, completed, e2) = >>=-ok _ _ e1 in
      let (last, moved, e3) = >>=-ok _ _ e2 in
      subst (λ z. Moved s z) (committed fails last s' e3)
        (finish-moves fails r succeeded code message now r.lab_id is_preparing (provisioned v now)
          (provisioned-move v now) (unfold operation_step in refl) s mid done done last
          (persist_provision_result-keeps fails s r v now mid persisted) completed (refl, refl)
          moved)

  provision_error-moves : complete_provision_error fails s r v code message now ≡ ok s' → Moved s s'
  unfolding complete_provision_error
  provision_error-moves e =
      let (done, completed, e2) = >>=-ok _ _ e in
      let (last, moved, e3) = >>=-ok _ _ e2 in
      subst (λ z. Moved s z) (committed fails last s' e3)
        (finish-moves fails r failed_op code message now r.lab_id is_preparing (failed_session now)
          (λ x h. failed-move now x (ground arith)) (unfold operation_step in refl) s s done done
          last (refl, refl) completed (refl, refl) moved)

  reset_success-moves : complete_reset_success fails s r v code message now ≡ ok s' → Moved s s'
  unfolding complete_reset_success
  reset_success-moves e =
      let (mid, persisted, e1) = >>=-ok _ _ e in
      let (done, completed, e2) = >>=-ok _ _ e1 in
      let (last, moved, e3) = >>=-ok _ _ e2 in
      subst (λ z. Moved s z) (committed fails last s' e3)
        (finish-moves fails r succeeded code message now r.lab_id running_or_expiring
          (restored v now) (restored-move v now) (unfold operation_step in refl) s mid done done
          last (persist_provision_result-keeps fails s r v now mid persisted) completed (refl, refl)
          moved)

  reset_error-moves : complete_reset_error fails s r v code message now ≡ ok s' → Moved s s'
  unfolding complete_reset_error
  reset_error-moves e =
      let (done, completed, e1) = >>=-ok _ _ e in
      let (cut, detached, e2) = >>=-ok _ _ e1 in
      let (last, moved, e3) = >>=-ok _ _ e2 in
      subst (λ z. Moved s z) (committed fails last s' e3)
        (finish-moves fails r failed_op code message now r.lab_id running_or_expiring
          (failed_session now) (λ x h. failed-move now x (ground arith))
          (unfold operation_step in refl) s s done cut last (refl, refl) completed
          (detach-keeps fails done r.lab_id row_unknown row_unknown now cut detached) moved)

  -- A successful `CompleteProvision` moves sessions and operations as the tables allow.
  pub complete_provision-moves :
      complete_provision fails s r v code message now ≡ ok s' → Moved s s'
  unfolding complete_provision
  complete_provision-moves e = elim (Bool-cases (is_blank code)) [
    | inl good ↦ provision_success-moves (ground arith)
    | inr bad ↦ provision_error-moves (ground arith)
  ]

  -- The same of `CompleteReset`.
  pub complete_reset-moves : complete_reset fails s r v code message now ≡ ok s' → Moved s s'
  unfolding complete_reset
  complete_reset-moves e = elim (Bool-cases (is_blank code)) [
    | inl good ↦ reset_success-moves (ground arith)
    | inr bad ↦ reset_error-moves (ground arith)
  ]

module _ (fails : Faults) (s : Store) (r : Record) (code message : String) (now : ℕ)
    (s' : Store) where
  destroy_success-moves : complete_destroy_success fails s r code message now ≡ ok s' → Moved s s'
  unfolding complete_destroy_success
  destroy_success-moves e =
      let (done, completed, e1) = >>=-ok _ _ e in
      let (cut, detached, e2) = >>=-ok _ _ e1 in
      let (last, moved, e3) = >>=-ok _ _ e2 in
      subst (λ z. Moved s z) (committed fails last s' e3)
        (finish-moves fails r succeeded code message now r.lab_id is_terminating
          (terminated_session now) (terminated-move now) (unfold operation_step in refl) s s done
          cut last (refl, refl) completed
          (detach-keeps fails done r.lab_id row_terminated row_deleted now cut detached) moved)

  destroy_error-moves : complete_destroy_error fails s r code message now ≡ ok s' → Moved s s'
  unfolding complete_destroy_error
  destroy_error-moves e =
      let (done, completed, e1) = >>=-ok _ _ e in
      let (cut, detached, e2) = >>=-ok _ _ e1 in
      let (last, moved, e3) = >>=-ok _ _ e2 in
      subst (λ z. Moved s z) (committed fails last s' e3)
        (finish-moves fails r failed_op code message now r.lab_id is_terminating
          (destroy_failed now) (destroy_failed-move now) (unfold operation_step in refl) s s done
          cut last (refl, refl) completed
          (detach-keeps fails done r.lab_id row_unknown row_unknown now cut detached) moved)

  -- The same of `CompleteDestroy`.
  pub complete_destroy-moves : complete_destroy fails s r code message now ≡ ok s' → Moved s s'
  unfolding complete_destroy
  complete_destroy-moves e = elim (Bool-cases (is_blank code)) [
    | inl good ↦ destroy_success-moves (ground arith)
    | inr bad ↦ destroy_error-moves (ground arith)
  ]
