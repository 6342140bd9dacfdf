-- ===== src/Lifecycle/Advance.antt =====
-- services/platform-api/internal/lifecycle/repository.go: `Advance`, `advanceOne` and `ExpectedLabIDs`.
use website_go_based.Base.{
  ℕ, Bool, true, false, ◌&&◌, ◌||◌, Option, none, some, List, [], ◌∷◌, map, String, Result, ok, err,
  require, reject, ◌>>=◌, ◌>>◌, ltb, ◌==◌, if◌then◌else◌, select, update_where, count_where, exists,
}
use website_go_based.Base.Sorting.{text_le, sort_by}
use website_go_based.Base.Text.{same_text}
use Prim.Native.String.{◌++◌ as str_append}
use website_go_based.Lab.Errors.{LabError}
use website_go_based.Lab.Repository.{find_session, insert_pending}
use website_go_based.Lab.Action.{destroy_lab}
use website_go_based.Lab.Status.{Status, preparing, running, expiring, terminating}
use website_go_based.Store.{
  Store, SessionRow, destroy_payload, Faults, Statement, begin_tx, lock_session, check_queue,
  update_session, commit_tx, select_session, in_flight_of, running_or_expiring,
}
use website_go_based.Lifecycle.{
  Config, DecisionKind, decision_none, decision_expiring, decision_running, decision_terminating,
  Decision, LifecycleError, changed_concurrently, database, Transition, validate_config, is_running,
  is_expiring, evaluate,
}

unfoldable pub run_statement : Faults → Statement → Result LifecycleError (Unit {0})
run_statement fails statement = reject (fails statement) database

-- UPDATE lab_sessions SET ... WHERE id = ? AND p(status), one row.
unfoldable pub in_status : String → (Status → Bool) → SessionRow → Bool
in_status lab_id p x = same_text x.id lab_id && p x.status

unfoldable pub move_session :
    Faults
    → Store
    → String
    → (Status → Bool)
    → (SessionRow → SessionRow)
    → Result LifecycleError Store
move_session fails s lab_id p f = do
  run_statement fails update_session
  require (count_where (in_status lab_id p) s.sessions == 1) changed_concurrently
  ok (record s { sessions = update_where (in_status lab_id p) f s.sessions })

-- `digest` is the hexadecimal text of the first half of the SHA-256 of a lab's identifier.
unfoldable pub expiration_operation_id : (String → String) → String → String
expiration_operation_id digest lab_id = str_append "system-expire-" (digest lab_id)

abbrev pub lift_insert : {A : Type 0} → Result LabError A → Result LifecycleError A
lift_insert (ok a) = ok a
lift_insert (err e) = err database

-- What `advanceOne` answers: the store, and the transition if there was one.
abbrev pub Advanced : Type 0
Advanced = Store × Option Transition

abbrev pub transition : String → DecisionKind → String → String → Transition
transition lab_id kind reason operation_id = record {
  lab_id = lab_id;
  kind = kind;
  reason = reason;
  operation_id = operation_id;
}

unfoldable pub mark :
    Faults
    → Store
    → String
    → (Status → Bool)
    → Status
    → Decision
    → ℕ
    → Result LifecycleError Advanced
mark fails s lab_id from target d now = do
  moved ← move_session fails s lab_id from (λ x. record x { status = target; updated_at = now })
  run_statement fails commit_tx
  ok (moved, some (transition lab_id d.kind d.reason ""))

unfoldable pub enqueue_expiry :
    (String → String)
    → Faults
    → Store
    → SessionRow
    → String
    → Decision
    → ℕ
    → Result LifecycleError Advanced
enqueue_expiry digest fails s session lab_id d now = do
  (inserted, row) ← lift_insert (
      insert_pending fails s (expiration_operation_id digest lab_id) lab_id session.user_id
        destroy_lab none (destroy_payload d.reason) now)
  moved ←
      move_session fails inserted lab_id running_or_expiring (λ x. record x {
        status = terminating;
        termination_reason = some d.reason;
        updated_at = now;
      })
  run_statement fails commit_tx
  ok (moved, some (transition lab_id d.kind d.reason (expiration_operation_id digest lab_id)))

unfoldable pub terminate_due :
    (String → String)
    → Faults
    → Store
    → SessionRow
    → String
    → Decision
    → ℕ
    → Result LifecycleError Advanced
terminate_due digest fails s session lab_id d now = do
  run_statement fails check_queue
  (if exists (in_flight_of lab_id) s.operations
      then ok (s, none)
      else enqueue_expiry digest fails s session lab_id d now)

-- The `switch` of `advanceOne`.
unfoldable pub apply_decision :
    DecisionKind
    → (String → String)
    → Faults
    → Store
    → SessionRow
    → String
    → Decision
    → ℕ
    → Result LifecycleError Advanced
apply_decision decision_expiring digest fails s session lab_id d now =
    mark fails s lab_id is_running expiring d now
apply_decision decision_running digest fails s session lab_id d now =
    mark fails s lab_id is_expiring running d now
apply_decision decision_terminating digest fails s session lab_id d now =
    terminate_due digest fails s session lab_id d now
apply_decision decision_none digest fails s session lab_id d now = ok (s, none)

unfoldable pub advance_session :
    Option ℕ
    → Option ℕ
    → (String → String)
    → Faults
    → Store
    → SessionRow
    → String
    → ℕ
    → Config
    → Result LifecycleError Advanced
advance_session (some started) (some last) digest fails s session lab_id now c =
    let d = evaluate now session.status (some started) (some last) c in
    apply_decision d.kind digest fails s session lab_id d now
advance_session _ _ digest fails s session lab_id now c = ok (s, none)

unfoldable pub advance_found :
    Option SessionRow
    → (String → String)
    → Faults
    → Store
    → String
    → ℕ
    → Config
    → Result LifecycleError Advanced
advance_found none digest fails s lab_id now c = ok (s, none)
advance_found (some x) digest fails s lab_id now c =
    advance_session x.started_at x.last_effective_action_at digest fails s x lab_id now c

unfoldable pub advance_one :
    (String → String) → Faults → Store → String → ℕ → Config → Result LifecycleError Advanced
advance_one digest fails s lab_id now c = do
  run_statement fails begin_tx
  run_statement fails lock_session
  advance_found (find_session s lab_id) digest fails s lab_id now c

-- `Advance`: the store, the transitions made, and the error that ended the loop.
abbrev pub Sweep : Type 0
Sweep = Store × List Transition × Option LifecycleError

abbrev note : Option Transition → List Transition → List Transition
note none ts = ts
note (some t) ts = t ∷ ts

unfoldable pub sweep : (String → String) → Faults → Store → List String → ℕ → Config → Sweep
sweep digest fails s [] now c = (s, [], none)
sweep digest fails s (lab_id ∷ ids) now c = elim (advance_one digest fails s lab_id now c) [
  | err e ↦ (s, [], some e)
  | ok (s', t) ↦ let (last, ts, e) = sweep digest fails s' ids now c in (last, note t ts, e)
]

-- ORDER BY updated_at, id
unfoldable pub sooner : SessionRow → SessionRow → Bool
sooner a b = ltb a.updated_at b.updated_at || ((a.updated_at == b.updated_at) && text_le a.id b.id)

unfoldable pub insert_sooner : SessionRow → List SessionRow → List SessionRow
unfolding sooner
insert_sooner a [] = a ∷ []
insert_sooner a (x ∷ xs) =
    let rest = insert_sooner a xs in if sooner a x then a ∷ x ∷ xs else x ∷ rest

unfoldable pub sort_sooner : List SessionRow → List SessionRow
unfolding insert_sooner
sort_sooner [] = []
sort_sooner (x ∷ xs) = insert_sooner x (sort_sooner xs)

unfoldable pub advance : (String → String) → Faults → Store → ℕ → Config → Sweep
advance digest fails s now c = elim (validate_config c) [
  | err e ↦ (s, [], some e)
  | ok _ ↦
      if fails select_session
      then (s, [], some database)
      else sweep digest fails s
          (map (λ x. x.id) (sort_sooner (select (λ x. running_or_expiring x.status) s.sessions)))
          now c
]

abbrev pub is_expected : Status → Bool
is_expected preparing = true
is_expected running = true
is_expected expiring = true
is_expected terminating = true
is_expected _ = false

unfoldable pub expected_lab_ids : Faults → Store → Result LifecycleError (List String)
expected_lab_ids fails s = do
  run_statement fails select_session
  ok (map (λ x. x.id) (sort_by (λ x. x.id) (select (λ x. is_expected x.status) s.sessions)))
