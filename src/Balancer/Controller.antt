-- ===== src/Balancer/Controller.antt =====
-- services/platform-api/internal/balancer/controller.go: `sampleLab`, the state that the controller keeps for a
-- lab and its adjustments. The load ratios, which view.go estimates from the traffic, the clock and
-- the random bytes of an identifier are arguments.
pub mod Checks
pub mod Safety
use website_go_based.Base.{
  ℕ, zero, suc, ◌+◌, ◌-◌, ◌*◌, ◌/◌, ◌%◌, ◌≤◌, ◌<◌, ◌≡◌, refl, sym, ap, subst, ◌∙◌, ◌≢◌, ◌↔◌, ◌⊎◌,
  inl, inr, Bool, true, false, not, ◌&&◌, ◌||◌, Option, none, some, List, [], ◌∷◌, ◌++◌, map,
  String, arith, Result, ok, err, require, reject, or_fail, ◌>>=◌, ◌>>◌, ltb, leb, ◌==◌,
  if◌then◌else◌, Bool-cases, Option-cases, length, length-append, All, All-append, All-map_pred,
  select, first, update_where, count_where, exists, >>=-ok, >>-ok, require-ok, reject-ok,
}
use website_go_based.Base.Int.{ℤ}
use website_go_based.Base.Text.{same_text}
use website_go_based.Balancer.{
  Instance, Lab, Adjustment, Operation, BalancerError, busy, stale, no_change, database,
  eligible_instances, configuration_fingerprint, topology_fingerprint,
}
use website_go_based.Balancer.Weights.{Floats, target_weights, weights_within_share_threshold}
use website_go_based.Balancer.Repository.{find_adjustment, enqueue_adjustment}
use website_go_based.Lab.Action.{InstanceWeight}
use website_go_based.Store.{
  Store, Faults, OperationStatus, pending, claimed, running_op, compensating, succeeded, failed_op,
}

pub record ViewError : Type 0 where
  pub code : String
  pub message : String

-- `unset` is the empty string of a state that was not saved yet.
pub data ControlStatus : Type 0 where
  unset converging stable degraded : ControlStatus

-- `controlState`: the zero instant of `next_retry` is `none`.
pub record ControlState : Type 0 where
  pub configuration_fingerprint : String
  pub configuration_samples : ℕ
  pub stable_samples : ℕ
  pub status : ControlStatus
  pub target_weights : List InstanceWeight
  pub operation_id : String
  pub failure_count : ℕ
  pub next_retry : Option ℕ
  pub last_error : Option ViewError

-- `Config`: `validate` keeps `FailureBackoff` from being empty, so it is a first delay and the rest.
pub record Config : Type 0 where
  pub stable_samples : ℕ
  pub first_delay : ℕ
  pub later_delays : List ℕ

-- The element at an index, or the last one.
unfoldable pub delay_at : ℕ → ℕ → List ℕ → ℕ
delay_at first n [] = first
delay_at first zero (d ∷ ds) = first
delay_at first (suc n) (d ∷ ds) = delay_at d n ds

unfoldable pub backoff : Config → ℕ → ℕ
unfolding delay_at
backoff c failure_count = delay_at c.first_delay (failure_count - 1) c.later_delays

pub data SampleError : Type 0 where
  find_failed no_operation_id enqueue_failed : SampleError

-- How a part of `sampleLab` ends: it returns after a `saveState`, or with an error and no new state,
-- or it goes on.
pub data Progress : Type 0 where
  saved : ControlState → Progress
  refused : SampleError → Progress
  goes_on : ControlState → Progress

-- The `switch` on the status of the adjustment under way.
unfoldable pub on_status : OperationStatus → Operation → Config → ℕ → ControlState → Progress
unfolding backoff
on_status succeeded o c now s =
    let done = record s {
      operation_id = "";
      failure_count = 0;
      next_retry = none;
      last_error = none;
    } in
    if o.skipped
    then saved (record done { configuration_samples = 0; stable_samples = 0; status = converging })
    else saved (record done { stable_samples = c.stable_samples; status = stable })
on_status failed_op o c now s = goes_on (record s {
  operation_id = "";
  failure_count = suc s.failure_count;
  next_retry = some (now + backoff c (suc s.failure_count));
  status = degraded;
  last_error = some (record { code = o.error_code; message = o.error_message });
})
on_status _ o c now s = saved (record s { status = converging })

-- The first part of `sampleLab`.
unfoldable pub check_operation : Faults → Store → Config → ℕ → ControlState → Progress
unfolding on_status
check_operation fails db c now s =
    if same_text s.operation_id ""
    then goes_on s
    else elim (find_adjustment fails db s.operation_id) [
      | err e ↦ refused find_failed
      | ok o ↦ on_status o.status o c now s
    ]

-- A lab that cannot be balanced now.
unfoldable pub forget_sample : ControlState → ControlState
forget_sample s = record s {
  configuration_fingerprint = "";
  configuration_samples = 0;
  stable_samples = 0;
  status = converging;
  target_weights = [];
}

-- The count of equal samples and the new target.
unfoldable pub count_sample : Config → String → List InstanceWeight → ControlState → ControlState
count_sample c fingerprint target s =
    if same_text fingerprint s.configuration_fingerprint
    then record s {
      configuration_samples =
          if ltb s.configuration_samples c.stable_samples
          then suc s.configuration_samples
          else s.configuration_samples;
      target_weights = target;
    }
    else record s {
      configuration_fingerprint = fingerprint;
      configuration_samples = 1;
      stable_samples = 0;
      failure_count = 0;
      next_retry = none;
      last_error = none;
      target_weights = target;
    }

-- The weights are close enough to the target.
unfoldable pub settle : Config → ControlState → ControlState
settle c s =
    let count =
      if ltb s.stable_samples c.stable_samples then suc s.stable_samples else s.stable_samples in
    record s {
      stable_samples = count;
      status = if leb c.stable_samples count then stable else converging;
      failure_count = 0;
      next_retry = none;
      last_error = none;
    }

-- `!state.nextRetry.IsZero() && now.Before(state.nextRetry)`
abbrev pub must_wait : Option ℕ → ℕ → Bool
must_wait none now = false
must_wait (some t) now = ltb now t
