-- ===== src/Lifecycle/Expiry.antt =====
-- services/platform-api/internal/lifecycle/repository.go: what `advanceOne` does to the store.
use website_go_based.Lab.Repository.Effects.{insert_pending-Inserted}
use website_go_based.Lab.Repository.Known.{Known, find_session-Known}
use website_go_based.Store.Frame.{
  SessionMoves, SessionMove, SessionMoves-update_where, SessionMoves-refl,
}
use website_go_based.Lab.Status.{Status, can_transition, terminating}
use website_go_based.Lifecycle.{
  DecisionKind, decision_none, decision_expiring, decision_running, decision_terminating, evaluate,
}
use website_go_based.Lab.Status.{expiring, running}
use website_go_based.Base.{
  ℕ, ◌≡◌, refl, subst, ◌∙◌, inl, inr, Bool, true, false, Option, none, some, [], ◌∷◌, ◌++◌, String,
  arith, ok, Bool-cases, Option-cases, exists, >>=-ok,
}
use website_go_based.Lifecycle.{is_running, is_expiring, Decision, Config, Transition}
use website_go_based.Lifecycle.Advance.{
  mark, move_session, in_status, advance_one, advance_found, advance_session, apply_decision,
  terminate_due, enqueue_expiry, lift_insert, expiration_operation_id,
}
use website_go_based.Store.{
  pending, Faults, Store, running_or_expiring, SessionRow, OperationRow, in_flight_of,
  destroy_payload,
}
use website_go_based.Lab.Repository.{insert_pending, find_session}
use website_go_based.Lab.Action.{destroy_lab}

move_session-moves :
    (fails : Faults) (s : Store) (lab_id : String) (p : Status → Bool) (f : SessionRow → SessionRow)
    (s' : Store)
    → ((x : SessionRow) → p x.status ≡ true → SessionMove x (f x))
    → move_session fails s lab_id p f ≡ ok s'
    → SessionMoves s.sessions s'.sessions × (s'.operations ≡ s.operations)
unfolding move_session
move_session-moves fails s lab_id p f s' h e = (
  subst (λ ss. SessionMoves s.sessions ss) (ground arith)
      (SessionMoves-update_where (in_status lab_id p) f s.sessions
        (λ x hit. h x (unfold in_status in ground arith))),
  ground arith,
)

-- What `advanceOne` does: move the session's status, or end the lab by a new pending destruction.
pub data Expiry (s s' : Store) (lab_id : String) : Type 0 where
  marked : SessionMoves s.sessions s'.sessions → s'.operations ≡ s.operations → Expiry s s' lab_id
  expired :
      (row : OperationRow)
      → Known s lab_id
      → exists (in_flight_of lab_id) s.operations ≡ false
      → SessionMoves s.sessions s'.sessions
      → s'.operations ≡ s.operations ++ row ∷ []
      → row.status ≡ pending
      → row.lab_id ≡ lab_id
      → Expiry s s' lab_id

mark-Expiry :
    (fails : Faults) (s : Store) (lab_id : String) (from : Status → Bool) (target : Status)
    (d : Decision) (now : ℕ) (s' : Store) (t : Option Transition)
    → ((x : SessionRow) → from x.status ≡ true → can_transition x.status target ≡ true)
    → mark fails s lab_id from target d now ≡ ok (s', t)
    → Expiry s s' lab_id
unfolding mark
mark-Expiry fails s lab_id from target d now s' t legal e =
    let (last, moved, e1) =
      >>=-ok
        (move_session fails s lab_id from (λ x. record x { status = target; updated_at = now })) _
        e in
    let (moves, same) =
      move_session-moves fails s lab_id from (λ x. record x { status = target; updated_at = now })
        last (λ x h. (refl, refl, inr (legal x h))) moved in
    let there : last ≡ s' = ground arith in subst (λ z. Expiry s z lab_id) there (marked moves same)

terminable : (t : Status) → running_or_expiring t ≡ true → can_transition t terminating ≡ true
unfolding running_or_expiring can_transition
terminable t h = ground arith

enqueue_expiry-Expiry :
    (digest : String → String) (fails : Faults) (s : Store) (session : SessionRow) (lab_id : String)
    (d : Decision) (now : ℕ) (s' : Store) (t : Option Transition)
    → Known s lab_id
    → exists (in_flight_of lab_id) s.operations ≡ false
    → enqueue_expiry digest fails s session lab_id d now ≡ ok (s', t)
    → Expiry s s' lab_id
unfolding enqueue_expiry
enqueue_expiry-Expiry digest fails s session lab_id d now s' t known idle e =
    let insert =
      insert_pending fails s (expiration_operation_id digest lab_id) lab_id session.user_id
        destroy_lab none (destroy_payload d.reason) now in
    let (p, inserted, e1) = >>=-ok (lift_insert insert) _ e in
    let terminate : SessionRow → SessionRow = λ x. record x {
      status = terminating;
      termination_reason = some d.reason;
      updated_at = now;
    } in
    let (last, moved, e2) =
      >>=-ok (move_session fails p.0 lab_id running_or_expiring terminate) _ e1 in
    let i =
      insert_pending-Inserted fails s (expiration_operation_id digest lab_id) lab_id session.user_id
        destroy_lab none (destroy_payload d.reason) now p.0 p.1 (ground arith) in
    let (moves, same) =
      move_session-moves fails p.0 lab_id running_or_expiring terminate last
        (λ x h. (refl, refl, inr (terminable x.status h))) moved in
    let there : last ≡ s' = ground arith in
    subst (λ z. Expiry s z lab_id) there
      (expired p.1 known idle (subst (λ ss. SessionMoves ss last.sessions) i.sessions_kept moves)
        (same ∙ i.row_added) i.row_pending i.row_lab)

terminate_due-Expiry :
    (digest : String → String) (fails : Faults) (s : Store) (session : SessionRow) (lab_id : String)
    (d : Decision) (now : ℕ) (s' : Store) (t : Option Transition)
    → Known s lab_id
    → terminate_due digest fails s session lab_id d now ≡ ok (s', t)
    → Expiry s s' lab_id
unfolding terminate_due
terminate_due-Expiry digest fails s session lab_id d now s' t known e =
    elim (Bool-cases (exists (in_flight_of lab_id) s.operations)) [
      | inl busy ↦
          let there : s ≡ s' = ground arith in
          subst (λ z. Expiry s z lab_id) there (marked (SessionMoves-refl s.sessions) refl)
      | inr idle ↦
          enqueue_expiry-Expiry digest fails s session lab_id d now s' t known idle (ground arith)
    ]

apply_decision-Expiry :
    (k : DecisionKind) (digest : String → String) (fails : Faults) (s : Store)
    (session : SessionRow) (lab_id : String) (d : Decision) (now : ℕ) (s' : Store)
    (t : Option Transition)
    → Known s lab_id
    → apply_decision k digest fails s session lab_id d now ≡ ok (s', t)
    → Expiry s s' lab_id
unfolding apply_decision
apply_decision-Expiry decision_none digest fails s session lab_id d now s' t known e =
    let there : s ≡ s' = ground arith in
    subst (λ z. Expiry s z lab_id) there (marked (SessionMoves-refl s.sessions) refl)
apply_decision-Expiry decision_expiring digest fails s session lab_id d now s' t known e =
    mark-Expiry fails s lab_id is_running expiring d now s' t
      (λ x h. unfold can_transition in ground arith) e
apply_decision-Expiry decision_running digest fails s session lab_id d now s' t known e =
    mark-Expiry fails s lab_id is_expiring running d now s' t
      (λ x h. unfold can_transition in ground arith) e
apply_decision-Expiry decision_terminating digest fails s session lab_id d now s' t known e =
    terminate_due-Expiry digest fails s session lab_id d now s' t known e

advance_session-Expiry :
    (started last : Option ℕ) (digest : String → String) (fails : Faults) (s : Store)
    (session : SessionRow) (lab_id : String) (now : ℕ) (c : Config) (s' : Store)
    (t : Option Transition)
    → Known s lab_id
    → advance_session started last digest fails s session lab_id now c ≡ ok (s', t)
    → Expiry s s' lab_id
unfolding advance_session
advance_session-Expiry (some b) (some l) digest fails s session lab_id now c s' t known e =
    let d = evaluate now session.status (some b) (some l) c in
    apply_decision-Expiry d.kind digest fails s session lab_id d now s' t known e
advance_session-Expiry none l digest fails s session lab_id now c s' t known e =
    let there : s ≡ s' = ground arith in
    subst (λ z. Expiry s z lab_id) there (marked (SessionMoves-refl s.sessions) refl)
advance_session-Expiry (some b) none digest fails s session lab_id now c s' t known e =
    let there : s ≡ s' = ground arith in
    subst (λ z. Expiry s z lab_id) there (marked (SessionMoves-refl s.sessions) refl)

-- A successful `advanceOne` moves the session as the status table allows, or ends a lab that has no
-- operation in flight by one new pending destruction.
pub advance_one-Expiry :
    (digest : String → String) (fails : Faults) (s : Store) (lab_id : String) (now : ℕ) (c : Config)
    (s' : Store) (t : Option Transition)
    → advance_one digest fails s lab_id now c ≡ ok (s', t)
    → Expiry s s' lab_id
unfolding advance_one advance_found
advance_one-Expiry digest fails s lab_id now c s' t e =
    elim (Option-cases (find_session s lab_id)) [
      | inl missing ↦
          let there : s ≡ s' = ground arith in
          subst (λ z. Expiry s z lab_id) there (marked (SessionMoves-refl s.sessions) refl)
      | inr (x, found) ↦
          advance_session-Expiry x.started_at x.last_effective_action_at digest fails s x lab_id now
            c s' t (find_session-Known s lab_id x found) (ground arith)
    ]
