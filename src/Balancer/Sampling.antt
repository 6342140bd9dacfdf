-- ===== src/Balancer/Sampling.antt =====
-- services/platform-api/internal/balancer/controller.go: the adjustment of `sampleLab`, and the whole of it.
use website_go_based.Balancer.Controller.{
  ControlState, Config, backoff, SampleError, Progress, saved, refused, goes_on, check_operation,
  forget_sample, count_sample, settle, must_wait, converging, no_operation_id, degraded, stable,
  enqueue_failed,
}
use website_go_based.Base.{
  ℕ, suc, ◌+◌, not, Option, none, some, List, String, Result, ok, err, ltb, if◌then◌else◌,
}
use website_go_based.Balancer.{
  Lab, Adjustment, Operation, BalancerError, busy, stale, no_change, database, eligible_instances,
  configuration_fingerprint, topology_fingerprint,
}
use website_go_based.Balancer.Weights.{Floats, target_weights, weights_within_share_threshold}
use website_go_based.Balancer.Repository.{enqueue_adjustment}
use website_go_based.Lab.Action.{InstanceWeight}
use website_go_based.Store.{Store, Faults}

unfoldable pub adjustment_of : (String → String) → Lab → List InstanceWeight → String → Adjustment
adjustment_of digest lab target id = record {
  operation_id = id;
  lab_id = lab.id;
  requested_by = lab.user_id;
  topology_fingerprint = topology_fingerprint digest lab.instances;
  weights = target;
}

-- What a sample leaves: the store, the state that was saved, if one was, and the error.
pub record Sample : Type 0 where
  pub store : Store
  pub state : Option ControlState
  pub error : Option SampleError

-- The `switch` on the answer of `EnqueueAdjustment`.
unfoldable pub on_enqueued :
    Config → ℕ → Store → ControlState → Result BalancerError (Store × Operation) → Sample
unfolding backoff
on_enqueued c now db s (ok (db', o)) = record {
  store = db';
  state = some (record s { operation_id = o.operation_id; status = converging });
  error = none;
}
on_enqueued c now db s (err busy) = record {
  store = db;
  state = some (record s { status = converging });
  error = none;
}
on_enqueued c now db s (err no_change) = record {
  store = db;
  state = some (record s { status = stable; stable_samples = c.stable_samples });
  error = none;
}
on_enqueued c now db s (err stale) = record {
  store = db;
  state = some (record s { configuration_samples = 0; stable_samples = 0; status = converging });
  error = none;
}
on_enqueued c now db s (err database) = record {
  store = db;
  state = some (record s {
    failure_count = suc s.failure_count;
    next_retry = some (now + backoff c (suc s.failure_count));
    status = degraded;
    last_error = some (record {
      code = "BALANCER_UNAVAILABLE";
      message = "adaptive adjustment could not be queued";
    });
  });
  error = some enqueue_failed;
}

abbrev pub only_saved : Store → ControlState → Sample
only_saved db s = record { store = db; state = some s; error = none }

-- The adjustment of `sampleLab`, with the identifier that was made, if one was.
unfoldable pub adjust_lab :
    (String → String) → Faults → Store → Config → ℕ → Lab → Option String → ControlState → Sample
unfolding adjustment_of on_enqueued
adjust_lab digest fails db c now lab none s = record {
  store = db;
  state = none;
  error = some no_operation_id;
}
adjust_lab digest fails db c now lab (some id) s =
    on_enqueued c now db s
      (enqueue_adjustment digest fails db (adjustment_of digest lab s.target_weights id) now)

module _ (F : Floats) where
  -- The part of `sampleLab` after the target is known and counted.
  unfoldable pub decide :
      (String → String) → Faults → Store → Config → ℕ → Lab → Option String → ControlState → Sample
  unfolding settle adjust_lab
  decide digest fails db c now lab id s =
      if ltb s.configuration_samples c.stable_samples
      then only_saved db (record s { status = converging })
      else if weights_within_share_threshold F lab.instances s.target_weights
      then only_saved db (settle c s)
      else if must_wait s.next_retry now
      then only_saved db (record s { stable_samples = 0; status = degraded })
      else adjust_lab digest fails db c now lab id (record s { stable_samples = 0 })

  -- The part of `sampleLab` after the check of the operation.
  unfoldable pub sample_configuration :
      (String → String)
      → Faults
      → Store
      → Config
      → ℕ
      → Lab
      → Option String
      → (String → F.Float)
      → ControlState
      → Sample
  unfolding forget_sample count_sample decide
  sample_configuration digest fails db c now lab id ratios s =
      if not (eligible_instances lab.instances)
      then only_saved db (forget_sample s)
      else elim (target_weights F lab.instances ratios) [
        | none ↦ only_saved db (forget_sample s)
        | some target ↦
            decide digest fails db c now lab id
              (count_sample c (configuration_fingerprint digest lab.instances) target s)
      ]

  -- The rest of `sampleLab`, by how its first part ended.
  unfoldable pub after_check :
      (String → String)
      → Faults
      → Store
      → Config
      → ℕ
      → Lab
      → Option String
      → (String → F.Float)
      → Progress
      → Sample
  unfolding sample_configuration
  after_check digest fails db c now lab id ratios (saved s) = only_saved db s
  after_check digest fails db c now lab id ratios (refused e) = record {
    store = db;
    state = none;
    error = some e;
  }
  after_check digest fails db c now lab id ratios (goes_on s) =
      sample_configuration digest fails db c now lab id ratios s

  -- `sampleLab`, from the state that was kept for the lab.
  unfoldable pub sample_lab :
      (String → String)
      → Faults
      → Store
      → Config
      → ℕ
      → Lab
      → Option String
      → (String → F.Float)
      → ControlState
      → Sample
  unfolding check_operation after_check
  sample_lab digest fails db c now lab id ratios s =
      after_check digest fails db c now lab id ratios (check_operation fails db c now s)
