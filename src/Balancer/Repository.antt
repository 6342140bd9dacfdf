-- ===== src/Balancer/Repository.antt =====
-- services/platform-api/internal/balancer/repository.go: the labs that are balanced, the adjustment of their
-- weights as an operation of the queue, and the state of an adjustment.
use website_go_based.Base.{
  ℕ, Bool, true, false, not, ◌&&◌, Option, none, some, List, [], ◌∷◌, String, Result, ok, err,
  require, reject, or_fail, ◌>>=◌, ◌>>◌, ◌==◌, if◌then◌else◌, length, select, first, exists, ◌||◌,
}
use website_go_based.Base.Int.{pos, ltb_ℤ}
use website_go_based.Base.Sorting.{sort_by}
use website_go_based.Base.Text.{same_text, holds}
use website_go_based.Balancer.{
  BalancerError, busy, stale, no_change, database, Instance, Lab, Adjustment, Operation,
  topology_fingerprint, weight_map, weights_equal, every, nonzero,
}
use website_go_based.Lab.Action.{
  InstanceWeight, apply_adaptive_weights, Action-discrete, adaptive, Mode, fixed, other_mode,
  Action,
}
use website_go_based.Lab.Errors.{LabError}
use website_go_based.Lab.Repository.{find_session, insert_pending}
use website_go_based.Lab.Topology.{value_of}
use website_go_based.Store.{
  Store, SessionRow, InstanceRow, pending, RowStatus, row_running, row_ready, row_unknown,
  row_terminated, row_deleted, row_other, ScenarioType, application_cluster, Server,
  adaptive_payload, Faults, Statement, begin_tx, lock_session, check_queue, lock_instances,
  commit_tx, select_session, find_existing, in_flight_of, running_or_expiring,
}

unfoldable pub run_statement : Faults → Statement → Result BalancerError (Unit {0})
run_statement fails statement = reject (fails statement) database

-- The status column as a Go string.
unfoldable pub row_text : RowStatus → String
row_text row_running = "running"
row_text row_ready = "ready"
row_text row_unknown = "unknown"
row_text row_terminated = "terminated"
row_text row_deleted = "deleted"
row_text (row_other t) = t

-- `Scan` of one row: a NULL container does not fit the Go string.
unfoldable pub scan_instance : InstanceRow → Option Instance
unfolding row_text
scan_instance i = elim i.container_id [
  | none ↦ none
  | some c ↦ some (record {
    id = i.instance_name;
    container_id = c;
    status = row_text i.status;
    processing_speed = i.processing_speed;
    max_load = i.max_load;
    current_weight = i.current_weight;
  })
]

unfoldable pub scan_all : List InstanceRow → Result BalancerError (List Instance)
unfolding scan_instance
scan_all [] = ok []
scan_all (i ∷ is) = do x ← or_fail (scan_instance i) database; xs ← scan_all is; ok (x ∷ xs)

-- `lockInstances`, in the order of the names.
unfoldable pub instances_of : Faults → Store → String → Result BalancerError (List Instance)
instances_of fails s lab_id = do
  run_statement fails lock_instances
  scan_all (sort_by (λ i. i.instance_name) (select (λ i. same_text i.lab_id lab_id) s.instances))

abbrev pub is_cluster : ScenarioType → Bool
is_cluster application_cluster = true
is_cluster _ = false

abbrev pub is_adaptive_mode : Mode → Bool
is_adaptive_mode adaptive = true
is_adaptive_mode fixed = false
is_adaptive_mode (other_mode _) = false

-- The conditions on a session that is balanced.
unfoldable pub balanced : SessionRow → Bool
balanced x =
    is_cluster x.scenario_type && is_adaptive_mode x.balancing_mode && running_or_expiring x.status

-- `ListAdaptiveLabs`: a lab without instances is not in the join.
unfoldable pub labs_of : List InstanceRow → List SessionRow → Result BalancerError (List Lab)
labs_of rows [] = ok []
labs_of rows (x ∷ xs) = do
  is ← scan_all (sort_by (λ i. i.instance_name) (select (λ i. same_text i.lab_id x.id) rows))
  rest ← labs_of rows xs
  elim is [
    | [] ↦ ok rest
    | i ∷ more ↦ ok (record { id = x.id; user_id = x.user_id; instances = i ∷ more } ∷ rest)
  ]

unfoldable pub list_adaptive_labs : Faults → Store → Result BalancerError (List Lab)
unfolding labs_of balanced
list_adaptive_labs fails s = do
  run_statement fails select_session
  labs_of s.instances (sort_by (λ x. x.id) (select balanced s.sessions))

abbrev pub in_range : InstanceWeight → Bool
in_range w = not (ltb_ℤ w.weight (pos 1)) && not (ltb_ℤ (pos 100) w.weight)

unfoldable pub validate_adjustment_weights :
    List Instance → List InstanceWeight → Result BalancerError (Unit {0})
unfolding weight_map every
validate_adjustment_weights is ws = do
  require (length is == length ws) stale
  m ← or_fail (weight_map in_range [] ws) stale
  require (every (λ i. nonzero (value_of m i.id)) is) stale

unfoldable pub servers_of : List InstanceWeight → List Server
servers_of [] = []
servers_of (w ∷ ws) = record { instance_name = w.instance_id; weight = w.weight } ∷ servers_of ws

abbrev pub no_weights : List InstanceWeight → Bool
no_weights [] = true
no_weights (_ ∷ _) = false

unfoldable pub complete_adjustment : Adjustment → Bool
complete_adjustment a =
    not (same_text a.operation_id "")
    && not (same_text a.lab_id "")
    && not (a.requested_by == 0)
    && not (same_text a.topology_fingerprint "")
    && not (no_weights a.weights)

abbrev pub lift_insert : {A : Type 0} → Result LabError A → Result BalancerError A
lift_insert (ok a) = ok a
lift_insert (err e) = err database

-- The checks of `EnqueueAdjustment` under the lock of the session.
unfoldable pub check_adjustment :
    (String → String) → Faults → Store → Adjustment → Result BalancerError (Unit {0})
check_adjustment digest fails s a = do
  run_statement fails lock_session
  x ← or_fail (find_session s a.lab_id) stale
  require ((x.user_id == a.requested_by) && balanced x) stale
  run_statement fails check_queue
  reject (exists (in_flight_of a.lab_id) s.operations) busy
  is ← instances_of fails s a.lab_id
  require (same_text (topology_fingerprint digest is) a.topology_fingerprint) stale
  validate_adjustment_weights is a.weights
  reject (weights_equal is a.weights) no_change

unfoldable pub enqueue_adjustment :
    (String → String) → Faults → Store → Adjustment → ℕ → Result BalancerError (Store × Operation)
enqueue_adjustment digest fails s a now = do
  require (complete_adjustment a) stale
  run_statement fails begin_tx
  check_adjustment digest fails s a
  (s', row) ← lift_insert (
      insert_pending fails s a.operation_id a.lab_id a.requested_by apply_adaptive_weights none
        (adaptive_payload a.topology_fingerprint (servers_of a.weights) a.weights) now)
  run_statement fails commit_tx
  ok (
    s',
    record {
      operation_id = a.operation_id;
      status = pending;
      error_code = "";
      error_message = "";
      skipped = false;
    },
  )

abbrev text_of : Option String → String
text_of none = ""
text_of (some t) = t

-- `FindAdjustment`
unfoldable pub find_adjustment : Faults → Store → String → Result BalancerError Operation
find_adjustment fails s operation_id = do
  run_statement fails find_existing
  o ←
      or_fail
        (first
          (λ o.
            same_text o.operation_id operation_id
            && holds (Action-discrete o.action apply_adaptive_weights))
          s.operations)
        database
  ok (record {
    operation_id = o.operation_id;
    status = o.status;
    error_code = text_of o.error_code;
    error_message = text_of o.error_message;
    skipped = o.skipped;
  })

-- `ValidateAdaptive` of services/platform-api/internal/operation/repository.go.
unfoldable pub validate_adaptive :
    (String → String) → Faults → Store → Action → String → String → Result BalancerError Bool
validate_adaptive digest fails s action lab_id expected = do
  run_statement fails begin_tx
  run_statement fails select_session
  elim (find_session s lab_id) [
    | none ↦ ok false
    | some x ↦
        if not (holds (Action-discrete action apply_adaptive_weights)) || not (balanced x)
        then ok false
        else do
          is ← instances_of fails s lab_id
          run_statement fails commit_tx
          ok (same_text (topology_fingerprint digest is) expected)
  ]
