-- ===== src/System/BalancerTests.antt =====
-- Runs of the balancer: a lab with two instances, its target weights, and an adjustment.
use website_go_based.Balancer.Controller.Checks.{Idle}
use website_go_based.Balancer.Lookup.{enqueued_is_found}
use website_go_based.Balancer.Sampling.{sample_lab}
use website_go_based.Base.{
  ℕ, zero, suc, ◌+◌, ◌-◌, ◌*◌, ◌/◌, ◌%◌, ◌≤◌, ◌<◌, ◌≡◌, refl, sym, ap, subst, ◌∙◌, ◌≢◌, ◌↔◌, ◌⊎◌,
  inl, inr, Bool, true, false, not, ◌&&◌, ◌||◌, Option, none, some, List, [], ◌∷◌, ◌++◌, map,
  String, arith, Result, ok, err, require, reject, or_fail, ◌>>=◌, ◌>>◌, ltb, leb, ◌==◌,
  if◌then◌else◌, Bool-cases, Option-cases, length, length-append, All, All-append, All-map_pred,
  select, first, update_where, count_where, exists, >>=-ok, >>-ok, require-ok, reject-ok,
}
use website_go_based.Base.Int.{ℤ, pos, pos_part}
use website_go_based.Base.Text.{String-discrete}
use website_go_based.Balancer.{Instance, Lab, Adjustment, Operation, topology_fingerprint}
use website_go_based.Balancer.Adjustments.{InRange, adjustment_is_current}
use website_go_based.Balancer.Bounds.{Good, target_weights-Good}
use website_go_based.Balancer.Controller.{Config, ControlState, unset}
use website_go_based.Balancer.Controller.Safety.{Decided, adjustment_when_due}
use website_go_based.Balancer.Gcd.{greatest_common_divisor}
use website_go_based.Balancer.Repository.{
  balanced, enqueue_adjustment, find_adjustment, in_range, instances_of,
}
use website_go_based.Balancer.Weights.{Floats, target_weights}
use website_go_based.Balancer.{weight_map}
use website_go_based.Lab.Topology.{value_of}
use website_go_based.Lab.Action.{InstanceWeight, adaptive, apply_adaptive_weights}
use website_go_based.Lab.Repository.{find_session}
use website_go_based.Lab.Repository.Effects.{Inserted}
use website_go_based.Store.{
  Store, SessionRow, InstanceRow, OperationRow, Server, row_running, pending, adaptive_payload,
  in_flight_of,
}
use website_go_based.System.Samples.{all_well, running_session, running_store, row_1}

abbrev app_row : String → String → ℤ → InstanceRow
app_row name container weight = record {
  lab_id = "lab-1";
  instance_name = name;
  container_id = some container;
  status = row_running;
  memory_limit_mb = pos 256;
  performance_percent = pos 100;
  processing_speed = pos 10;
  max_load = pos 100;
  current_weight = weight;
  updated_at = 8;
}

abbrev adaptive_store : Store
adaptive_store = record running_store {
  sessions = record running_session { balancing_mode = adaptive } ∷ [];
  instances = app_row "app-1" "c-1" (pos 1) ∷ app_row "app-2" "c-2" (pos 3) ∷ [];
}

abbrev sampled : String → String → ℤ → Instance
sampled name container weight = record {
  id = name;
  container_id = container;
  status = "running";
  processing_speed = pos 10;
  max_load = pos 100;
  current_weight = weight;
}

abbrev sampled_lab : Lab
sampled_lab = record {
  id = "lab-1";
  user_id = 1;
  instances = sampled "app-1" "c-1" (pos 1) ∷ sampled "app-2" "c-2" (pos 3) ∷ [];
}

abbrev equal_weights : List InstanceWeight
equal_weights =
    record { instance_id = "app-1"; weight = pos 1 }
    ∷ record { instance_id = "app-2"; weight = pos 1 }
    ∷ []

abbrev wanted : Adjustment
wanted = record {
  operation_id = "bal-1";
  lab_id = "lab-1";
  requested_by = 1;
  topology_fingerprint = "app-1:c-1:running:10:100:1|app-2:c-2:running:10:100:3|";
  weights = equal_weights;
}

abbrev adjustment_row : OperationRow
adjustment_row = record row_1 {
  id = 2;
  operation_id = "bal-1";
  action = apply_adaptive_weights;
  payload =
      adaptive_payload wanted.topology_fingerprint
        (record { instance_name = "app-1"; weight = pos 1 }
          ∷ record { instance_name = "app-2"; weight = pos 1 }
          ∷ [])
        equal_weights;
  created_at = 40;
  updated_at = 40;
}

abbrev adjusted_store : Store
adjusted_store = record adaptive_store { operations = adjustment_row ∷ []; next_operation_id = 3 }

abbrev queued_operation : Operation
queued_operation = record {
  operation_id = "bal-1";
  status = pending;
  error_code = "";
  error_message = "";
  skipped = false;
}

enqueue_test :
    enqueue_adjustment (λ t. t) all_well adaptive_store wanted 40
    ≡ ok (adjusted_store, queued_operation)
unfolding enqueue_adjustment website_go_based.Balancer.Repository.complete_adjustment
    String-discrete website_go_based.Balancer.Repository.run_statement
    website_go_based.Balancer.Repository.check_adjustment find_session first balanced
    website_go_based.Store.running_or_expiring exists instances_of
    website_go_based.Balancer.Repository.scan_all website_go_based.Base.Sorting.sort_by select
    topology_fingerprint website_go_based.Balancer.fingerprint
    website_go_based.Balancer.fingerprint_body website_go_based.Base.Decimal.decimal
    website_go_based.Balancer.Repository.validate_adjustment_weights
    website_go_based.Lab.Topology.value_of website_go_based.Balancer.weights_equal
    website_go_based.Lab.Repository.insert_pending website_go_based.Balancer.Repository.servers_of
enqueue_test = refl

enqueued_is_found_example : find_adjustment all_well adjusted_store "bal-1" ≡ ok queued_operation
enqueued_is_found_example =
    enqueued_is_found (λ t. t) all_well all_well adaptive_store wanted 40 adjusted_store
      queued_operation enqueue_test refl

adjustment_is_current_example :
    ((x : SessionRow) × (find_session adaptive_store "lab-1" ≡ some x)
      × (x.user_id ≡ 1)
      × (balanced x ≡ true))
    × (exists (in_flight_of "lab-1") adaptive_store.operations ≡ false)
    × ((is : List Instance) × (instances_of all_well adaptive_store "lab-1" ≡ ok is)
        × (topology_fingerprint (λ t. t) is ≡ wanted.topology_fingerprint)
        × ((m : List (String × ℤ)) × (weight_map in_range [] equal_weights ≡ some m)
            × All (λ i. InRange (value_of m i.id)) is))
    × ((row : OperationRow) × Inserted adaptive_store adjusted_store row "lab-1" "bal-1")
adjustment_is_current_example =
    adjustment_is_current (λ t. t) all_well adaptive_store wanted 40 adjusted_store queued_operation
      enqueue_test

-- Whole numbers in the place of `float64`: the load ratios are 0 or 1.
abbrev whole : Floats
whole = record {
  Float = ℕ;
  of_int = pos_part;
  plus = λ a b. a + b;
  minus = λ a b. a - b;
  times = λ a b. a * b;
  over = λ a b. a / b;
  minimum = λ a b. if ltb a b then a else b;
  maximum = λ a b. if ltb a b then b else a;
  less = ltb;
  at_most = leb;
  round = pos;
  load_balance_threshold = 0;
  minimum_correction = 0;
  maximum_correction = 2;
  share_threshold = 1;
  absolute = λ a. a;
}

target_test : target_weights whole sampled_lab.instances (λ id. 0) ≡ some equal_weights
unfolding target_weights website_go_based.Base.Sorting.sort_by String-discrete
    greatest_common_divisor
target_test = refl

target_weights-Good_example : Good whole sampled_lab.instances equal_weights
target_weights-Good_example =
    target_weights-Good whole sampled_lab.instances (λ id. 0) equal_weights target_test

abbrev config : Config
config = record { stable_samples = 1; first_delay = 4; later_delays = 8 ∷ 16 ∷ [] }

abbrev blank_state : ControlState
blank_state = record {
  configuration_fingerprint = "";
  configuration_samples = 0;
  stable_samples = 0;
  status = unset;
  target_weights = [];
  operation_id = "";
  failure_count = 0;
  next_retry = none;
  last_error = none;
}

-- No two shares are close.
abbrev strict : Floats
strict = record whole { share_threshold = 0 }

queued_test :
    (sample_lab strict
      (λ t. t)
      all_well
      adaptive_store
      config
      40
      sampled_lab
      (some "bal-1")
      (λ id. 0)
      blank_state).store
    ≡ adjusted_store
unfolding sample_lab String-discrete website_go_based.Balancer.eligible_instances target_weights
    website_go_based.Base.Sorting.sort_by website_go_based.Balancer.configuration_fingerprint
    website_go_based.Balancer.fingerprint website_go_based.Balancer.fingerprint_body
    website_go_based.Base.Decimal.decimal
    website_go_based.Balancer.Weights.weights_within_share_threshold weight_map
    greatest_common_divisor website_go_based.Lab.Topology.value_of website_go_based.Base.Int.◌+ℤ◌
    enqueue_adjustment website_go_based.Balancer.Repository.complete_adjustment topology_fingerprint
    website_go_based.Balancer.Repository.run_statement
    website_go_based.Balancer.Repository.check_adjustment find_session first balanced
    website_go_based.Store.running_or_expiring exists instances_of
    website_go_based.Balancer.Repository.scan_all select
    website_go_based.Balancer.Repository.validate_adjustment_weights
    website_go_based.Balancer.weights_equal website_go_based.Lab.Repository.insert_pending
    website_go_based.Balancer.Repository.servers_of
queued_test = refl

adjustment_when_due_example :
    ((sample_lab strict
        (λ t. t)
        all_well
        adaptive_store
        config
        40
        sampled_lab
        (some "bal-1")
        (λ id. 0)
        blank_state).store
      ≡ adaptive_store)
    ⊎ ((s' : ControlState) × (Idle all_well adaptive_store config 40 blank_state s')
        × Decided strict
            (λ t. t)
            all_well
            adaptive_store
            config
            40
            sampled_lab
            (some "bal-1")
            (λ id. 0)
            s'
            (sample_lab strict
              (λ t. t)
              all_well
              adaptive_store
              config
              40
              sampled_lab
              (some "bal-1")
              (λ id. 0)
              blank_state).store)
adjustment_when_due_example =
    adjustment_when_due strict (λ t. t) all_well adaptive_store config 40 sampled_lab (some "bal-1")
      (λ id. 0) blank_state
