-- ===== src/System/LabTests.antt =====
-- Runs of the requests of a learner.
use website_go_based.Lab.Service.{service_action, service_action-Effect}
use website_go_based.Lab.Identity.{valid_lab_id, valid_operation_id}
use website_go_based.Lab.Repository.Retry.{enqueue_action_again}
use website_go_based.Lab.Repository.Calls.{enqueue_action-Effect}
use website_go_based.Base.Text.{same_text}
use website_go_based.System.Invariants.{step-SessionMoves}
use website_go_based.Store.Frame.{SessionMoves}
use website_go_based.Lab.Repository.Effects.{Effect, Asked, AskedFor}
use website_go_based.Lab.Repository.{created_of, attempt, ActionResult, enqueue_action}
use website_go_based.Lab.Action.{
  create_lab, fixed, destroy_lab, add_session_redis, ActionInput, add_instance, valid_action_input,
}
use website_go_based.Store.{
  CourseRow, Faults, OperationRow, SessionRow, Store, application_cluster, pending, create_payload,
  in_flight_of, destroy_payload, succeeded, InstanceRow, running_op, row_running, row_terminated,
  TopologyPayload, topology_payload,
}
use website_go_based.Base.{
  ℕ, zero, suc, ◌+◌, ◌-◌, ◌*◌, ◌/◌, ◌%◌, ◌≤◌, ◌<◌, ◌≡◌, refl, sym, ap, subst, ◌∙◌, ◌≢◌, ◌↔◌, ◌⊎◌,
  inl, inr, Bool, true, false, not, ◌&&◌, ◌||◌, Option, none, some, List, [], ◌∷◌, ◌++◌, map,
  String, arith, Result, ok, err, require, reject, or_fail, ◌>>=◌, ◌>>◌, ltb, leb, ◌==◌,
  if◌then◌else◌, Bool-cases, Option-cases, length, length-append, All, All-append, All-map_pred,
  select, first, update_where, count_where, exists, >>=-ok, >>-ok, require-ok, reject-ok,
}
use website_go_based.System.{act}
use website_go_based.Base.{In}
use website_go_based.Base.Int.{pos}
use website_go_based.System.Samples.{
  all_well, limits, running_store, destroy_row, ending_store, destroy_result,
}

destroy_test :
    enqueue_action all_well running_store 1 "lab-1" "op-2" destroy_lab none 20
    ≡ ok (ending_store, destroy_result)
unfolding enqueue_action attempt website_go_based.Lab.Repository.find_operation first
    website_go_based.Lab.Repository.enqueue_locked website_go_based.Lab.Repository.find_session
    website_go_based.Base.Text.String-discrete website_go_based.Lab.Repository.enqueue_by_action
    website_go_based.Lab.Repository.enqueue_destroy website_go_based.Lab.Repository.destroyable
    exists website_go_based.Lab.Repository.mark_terminating count_where
    website_go_based.Lab.Repository.destroyable_row website_go_based.Lab.Repository.insert_pending
    update_where website_go_based.Lab.Repository.termination_reason_of
destroy_test = refl

step-SessionMoves_example : SessionMoves running_store.sessions ending_store.sessions
step-SessionMoves_example =
    step-SessionMoves (λ t. t) running_store ending_store
      (act all_well 1 "lab-1" "op-2" destroy_lab none 20 destroy_result destroy_test refl)

enqueue_action-Effect_example :
    Effect running_store ending_store destroy_result "lab-1" "op-2" (Asked 1 "lab-1" destroy_lab)
enqueue_action-Effect_example =
    enqueue_action-Effect all_well running_store 1 "lab-1" "op-2" destroy_lab none 20 ending_store
      destroy_result destroy_test

enqueue_action_again_example :
    enqueue_action (λ _. false) ending_store 1 "lab-1" "op-2" destroy_lab (some "idle_timeout") 25
    ≡ ok (ending_store, record destroy_result { existing = true })
enqueue_action_again_example =
    enqueue_action_again all_well running_store 1 "lab-1" "op-2" destroy_lab none
      (some "idle_timeout") 20 25 ending_store destroy_result destroy_test

abbrev learner : ℕ
learner = 1

abbrev add_input : ActionInput
add_input = record {
  operation_id = "op-2";
  action_type = add_instance;
  target_instance_id = none;
  performance_percent = none;
  weights = none;
  balancing_mode = none;
}

abbrev add_payload : TopologyPayload
add_payload = record {
  request = add_input;
  scenario_template_id = "application_cluster_scenario_v1";
  instance_name = "app-1";
  performance_percent = pos 100;
  previous_performance_percent = pos 0;
  servers = record { instance_name = "app-1"; weight = pos 100 } ∷ [];
  previous_servers = [];
}

abbrev add_row : OperationRow
add_row = record destroy_row {
  action = add_instance;
  payload = topology_payload add_payload;
  created_at = 20000;
  updated_at = 20000;
}

abbrev adding_store : Store
adding_store = record running_store { operations = add_row ∷ []; next_operation_id = 3 }

abbrev add_result : ActionResult
add_result = record { operation = created_of add_row; existing = false }

add_test :
    service_action all_well running_store 1 "lab-1" add_input limits 20999
    ≡ (adding_store, ok add_result)
unfolding service_action website_go_based.Lab.Service.valid_call valid_lab_id
    website_go_based.Lab.Identity.lab_id_runes valid_operation_id
    website_go_based.Lab.Identity.operation_id_runes valid_action_input
    website_go_based.Lab.Action.is_cache_action
    website_go_based.Lab.Repository.TopologyActions.enqueue_topology_action
    website_go_based.Lab.Repository.TopologyActions.topology_transaction attempt
    website_go_based.Lab.Repository.find_operation first
    website_go_based.Lab.Repository.TopologyActions.enqueue_topology_locked
    website_go_based.Lab.Repository.TopologyActions.topology_session
    website_go_based.Lab.Repository.find_session website_go_based.Base.Text.String-discrete
    website_go_based.Store.running_or_expiring exists
    website_go_based.Lab.Topology.build_topology_payload
    website_go_based.Lab.Repository.TopologyActions.lock_topology_instances
    website_go_based.Base.Sorting.sort_by select
    website_go_based.Lab.Repository.TopologyActions.admit_global_temporary_container count_where
    website_go_based.Lab.Repository.insert_pending website_go_based.Lab.Topology.next_instance_name
    website_go_based.Lab.Topology.topology_servers website_go_based.Lab.Service.truncate_microsecond
    website_go_based.Base.Decimal.app_name
add_test = refl

service_action-Effect_example :
    (learner ≢ 0)
    × (valid_lab_id "lab-1" ≡ true)
    × (valid_operation_id add_input.operation_id ≡ true)
    × (valid_action_input add_input ≡ true)
    × Effect running_store adding_store add_result "lab-1" "op-2" (AskedFor 1 "lab-1" add_input)
service_action-Effect_example =
    service_action-Effect all_well running_store learner "lab-1" add_input limits 20999 adding_store
      add_result add_test
