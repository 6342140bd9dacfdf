-- ===== src/System/Changes.antt =====
-- The steps of the platform by what they do to the sessions and the operations.
use website_go_based.Balancer.Adjustments.{enqueue_adjustment-ok, check_adjustment-ok}
use website_go_based.Balancer.{Adjustment, Operation}
use website_go_based.Balancer.Repository.{enqueue_adjustment}
use website_go_based.Operation.Activity.{complete_topology-moves, complete_cache-moves}
use website_go_based.Operation.Completions.{
  complete_provision-moves, complete_reset-moves, complete_destroy-moves,
}
use website_go_based.Lab.Repository.Calls.{
  enqueue_action-Effect, enqueue_cache_action-Effect, topology_transaction-Effect,
}
use website_go_based.Lab.Status.{preparing}
use website_go_based.Lab.Repository.Create.{new_session}
use website_go_based.Base.Text.{same_text}
use website_go_based.Lab.Repository.Effects.{Effect, repeated, enqueued}
use website_go_based.Lab.Repository.Admission.{create_transaction-Created}
use website_go_based.Lab.Repository.Known.{
  Known, find_session-Known, enqueue_action-Known, enqueue_cache_action-Known,
  topology_transaction-Known,
}
use website_go_based.System.{Step, create, act, act_cache, act_topology}
use website_go_based.Store.Frame.{
  OperationMoves, SessionMoves, SessionMoves-refl, OperationMoves-refl,
}
use website_go_based.Operation.Moves.{
  Moved, claim-moves, mark_running-moves, complete_failure-moves,
}
use website_go_based.Lifecycle.Expiry.{Expiry, marked, expired, advance_one-Expiry}
use website_go_based.Lab.Repository.{ActionResult}
use website_go_based.Store.{Store, OperationRow, in_flight_of, SessionRow, pending, Faults}
use website_go_based.System.{
  Step, create, act, act_cache, act_topology, take, start, fail, provide, restore, destroy, change,
  change_cache, expire, adjust,
}
use website_go_based.Base.{
  ◌≡◌, refl, sym, subst, false, [], ◌∷◌, ◌++◌, String, arith, exists, ℕ, ok,
}

-- One new pending operation of a lab.
pub record Added (s s' : Store) (lab_id : String) : Type 0 where
  pub row : OperationRow
  pub lab_idle : exists (in_flight_of lab_id) s.operations ≡ false
  pub added : s'.operations ≡ s.operations ++ row ∷ []
  pub starts_pending : row.status ≡ pending
  pub of_lab : row.lab_id ≡ lab_id

-- What a step does.
pub data Change (s s' : Store) : Type 0 where
  worked :
      SessionMoves s.sessions s'.sessions → OperationMoves s.operations s'.operations → Change s s'
  asked :
      (lab_id : String)
      → Known s lab_id
      → SessionMoves s.sessions s'.sessions
      → Added s s' lab_id
      → Change s s'
  founded :
      (lab_id : String) (session : SessionRow) (row : OperationRow)
      → exists (λ x. same_text x.id lab_id) s.sessions ≡ false
      → session.id ≡ lab_id
      → session.status ≡ preparing
      → s'.sessions ≡ s.sessions ++ session ∷ []
      → s'.operations ≡ s.operations ++ row ∷ []
      → row.status ≡ pending
      → row.lab_id ≡ lab_id
      → Change s s'

Effect-Change :
    (s s' : Store) (r : ActionResult) (lab_id operation_id : String) (Same : OperationRow → Type 0)
    → Known s lab_id
    → r.existing ≡ false
    → Effect s s' r lab_id operation_id Same
    → Change s s'
Effect-Change s s' r lab_id operation_id Same known fresh (repeated same again) =
    absurd (ground arith)
Effect-Change s s' r lab_id operation_id Same known fresh (enqueued e told new) =
    asked lab_id known e.sessions_moved (record {
      row = e.row;
      lab_idle = e.lab_idle;
      added = e.added;
      starts_pending = e.starts_pending;
      of_lab = e.of_lab;
    })

queue-Change :
    (s s' : Store)
    → OperationMoves s.operations s'.operations × (s'.sessions ≡ s.sessions)
    → Change s s'
queue-Change s s' (lives, same) =
    worked (subst (λ ss. SessionMoves s.sessions ss) (sym same) (SessionMoves-refl s.sessions))
      lives

Moved-Change : (s s' : Store) → Moved s s' → Change s s'
Moved-Change s s' (moves, lives) = worked moves lives

expiry-Change : (s s' : Store) (lab_id : String) → Expiry s s' lab_id → Change s s'
expiry-Change s s' lab_id (marked moves same) =
    worked moves
      (subst (λ os. OperationMoves s.operations os) (sym same) (OperationMoves-refl s.operations))
expiry-Change s s' lab_id (expired row known idle moves added starts of_lab) =
    asked lab_id known moves (record {
      row = row;
      lab_idle = idle;
      added = added;
      starts_pending = starts;
      of_lab = of_lab;
    })

adjustment-Change :
    (digest : String → String) (fails : Faults) (s : Store) (a : Adjustment) (now : ℕ) (s' : Store)
    (o : Operation)
    → enqueue_adjustment digest fails s a now ≡ ok (s', o)
    → Change s s'
adjustment-Change digest fails s a now s' o e =
    let (checked, (row, i)) = enqueue_adjustment-ok digest fails s a now s' o e in
    let (x, found, mine, suits, idle) = check_adjustment-ok digest fails s a checked in
    asked a.lab_id (find_session-Known s a.lab_id x found)
      (subst (λ ss. SessionMoves s.sessions ss) (sym i.sessions_kept)
        (SessionMoves-refl s.sessions))
      (record {
        row = row;
        lab_idle = idle;
        added = i.row_added;
        starts_pending = i.row_pending;
        of_lab = i.row_lab;
      })

-- Every step is one of the three changes.
pub step-Change : (digest : String → String) (s s' : Store) → Step digest s s' → Change s s'
step-Change digest s s' (create fails user_id course_id operation_id lab_id q now r e fresh) =
    let c =
      create_transaction-Created fails s user_id course_id operation_id lab_id q now s' r e fresh in
    founded lab_id (new_session lab_id user_id course_id c.scenario now) c.row c.fresh_id
      (unfold new_session in refl) (unfold new_session in refl) c.sessions_added c.operations_added
      c.starts_pending c.of_lab
step-Change digest s s' (act fails user_id lab_id operation_id action reason now r e fresh) =
    Effect-Change s s' r lab_id operation_id _
      (enqueue_action-Known fails s user_id lab_id operation_id action reason now s' r e fresh)
      fresh (enqueue_action-Effect fails s user_id lab_id operation_id action reason now s' r e)
step-Change digest s s' (act_cache fails user_id lab_id input now r e fresh) =
    Effect-Change s s' r lab_id input.operation_id _
      (enqueue_cache_action-Known fails s user_id lab_id input now s' r e fresh) fresh
      (enqueue_cache_action-Effect fails s user_id lab_id input now s' r e)
step-Change digest s s' (act_topology fails user_id lab_id input q now r e fresh) =
    Effect-Change s s' r lab_id input.operation_id _
      (topology_transaction-Known fails s user_id lab_id input q now s' r e fresh) fresh
      (topology_transaction-Effect fails s user_id lab_id input q now s' r e)
step-Change digest s s' (adjust fails a now o e) = adjustment-Change digest fails s a now s' o e
step-Change digest s s' (take fails locked owner now expires r e) =
    queue-Change s s' (claim-moves fails s locked owner now expires s' r e)
step-Change digest s s' (start fails r now expires e) =
    queue-Change s s' (mark_running-moves fails s r now expires s' e)
step-Change digest s s' (fail fails r code message now e) =
    queue-Change s s' (complete_failure-moves fails s r code message now s' e)
step-Change digest s s' (provide fails r v code message now e) =
    Moved-Change s s' (complete_provision-moves fails s r v code message now s' e)
step-Change digest s s' (restore fails r v code message now e) =
    Moved-Change s s' (complete_reset-moves fails s r v code message now s' e)
step-Change digest s s' (destroy fails r code message now e) =
    Moved-Change s s' (complete_destroy-moves fails s r code message now s' e)
step-Change digest s s' (change fails r v code message now e) =
    Moved-Change s s' (complete_topology-moves fails s r code message now s' v e)
step-Change digest s s' (change_cache fails r v code message now e) =
    Moved-Change s s' (complete_cache-moves fails s r code message now s' v e)
step-Change digest s s' (expire fails lab_id now c t e) =
    expiry-Change s s' lab_id (advance_one-Expiry digest fails s lab_id now c s' t e)
