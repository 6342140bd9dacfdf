-- ===== src/Lifecycle.antt =====
-- services/platform-api/internal/lifecycle: the deadlines of a lab, and the transitions that become due.
-- An instant is a number of nanoseconds since Go's zero time and a duration is a number of
-- nanoseconds; `Add` of a negative duration stops at the zero time, which no stored deadline is near.
pub mod Advance
pub mod Deadlines
pub mod Expiry
mod Tests
use website_go_based.Base.{
  ℕ, zero, suc, ◌+◌, ◌-◌, ◌*◌, ◌/◌, ◌%◌, ◌≤◌, ◌<◌, ◌≡◌, refl, sym, ap, subst, ◌∙◌, ◌≢◌, ◌↔◌, ◌⊎◌,
  inl, inr, Bool, true, false, not, ◌&&◌, ◌||◌, Option, none, some, List, [], ◌∷◌, ◌++◌, map,
  String, arith, Result, ok, err, require, reject, or_fail, ◌>>=◌, ◌>>◌, ltb, leb, ◌==◌,
  if◌then◌else◌, Bool-cases, Option-cases, length, length-append, All, All-append, All-map_pred,
  select, first, update_where, count_where, exists, >>=-ok, >>-ok, require-ok, reject-ok,
}
use website_go_based.Base.Int.{ℤ, pos, negsuc, pos_part, ltb_ℤ, leb_ℤ}
use website_go_based.Base.Sorting.{text_le, sort_by}
use website_go_based.Base.Text.{same_text}
use Prim.Native.String.{◌++◌ as str_append}
use website_go_based.Lab.Errors.{LabError}
use website_go_based.Lab.Repository.{find_session, insert_pending}
use website_go_based.Lab.Action.{destroy_lab}
use website_go_based.Lab.Status.{Status, preparing, running, expiring, terminating}
use website_go_based.Store.{
  Store, SessionRow, OperationRow, destroy_payload, Faults, Statement, begin_tx, lock_session,
  check_queue, insert_operation, update_session, commit_tx, select_session, in_flight_of,
  running_or_expiring,
}

pub record Config : Type 0 where
  pub idle_timeout : ℤ
  pub max_duration : ℤ
  pub expiring_lead : ℤ

pub data DecisionKind : Type 0 where
  decision_none decision_expiring decision_running decision_terminating : DecisionKind

pub record Decision : Type 0 where
  pub kind : DecisionKind
  pub reason : String
  pub deadline : ℕ

pub data LifecycleError : Type 0 where
  not_positive lead_too_long changed_concurrently database : LifecycleError

pub record Transition : Type 0 where
  pub lab_id : String
  pub kind : DecisionKind
  pub reason : String
  pub operation_id : String

unfoldable pub add_duration : ℕ → ℤ → ℕ
add_duration t (pos n) = t + n
add_duration t (negsuc n) = t - suc n

unfoldable pub sub_duration : ℕ → ℤ → ℕ
sub_duration t (pos n) = t - n
sub_duration t (negsuc n) = t + suc n

unfoldable pub validate_config : Config → Result LifecycleError (Unit {0})
validate_config c = do
  reject
      (leb_ℤ c.idle_timeout (pos 0)
        || leb_ℤ c.max_duration (pos 0)
        || leb_ℤ c.expiring_lead (pos 0))
      not_positive
  reject (leb_ℤ c.idle_timeout c.expiring_lead || leb_ℤ c.max_duration c.expiring_lead)
      lead_too_long

abbrev pub is_running : Status → Bool
is_running running = true
is_running _ = false

abbrev pub is_expiring : Status → Bool
is_expiring expiring = true
is_expiring _ = false

-- The rest of `evaluate`, once the deadline and its reason are chosen.
unfoldable pub decide_at : ℕ → Status → ℕ → String → ℤ → Decision
decide_at now status deadline reason lead =
    if leb deadline now
    then record { kind = decision_terminating; reason = reason; deadline = deadline }
    else if leb (sub_duration deadline lead) now
    then record {
      kind = if is_running status then decision_expiring else decision_none;
      reason = reason;
      deadline = deadline;
    }
    else record {
      kind = if is_expiring status then decision_running else decision_none;
      reason = reason;
      deadline = deadline;
    }

-- `evaluate` for a lab that has both of its instants.
unfoldable pub evaluate_started : ℕ → Status → ℕ → ℕ → Config → Decision
evaluate_started now status started last c =
    if ltb (add_duration started c.max_duration) (add_duration last c.idle_timeout)
    then decide_at now status (add_duration started c.max_duration) "maximum_duration"
        c.expiring_lead
    else decide_at now status (add_duration last c.idle_timeout) "idle_timeout" c.expiring_lead

unfoldable pub evaluate : ℕ → Status → Option ℕ → Option ℕ → Config → Decision
evaluate now status (some started) (some last) c = evaluate_started now status started last c
evaluate now status _ _ c = record { kind = decision_none; reason = ""; deadline = 0 }
