-- ===== src/System/Samples.antt =====
-- One learner, one course and one lab, in the states that the tests run on.
use website_go_based.Lab.Status.{preparing, running, terminating}
use website_go_based.Lab.Repository.{created_of, ActionResult}
use website_go_based.Lab.Action.{create_lab, fixed, destroy_lab}
use website_go_based.Store.{
  CourseRow, Faults, OperationRow, SessionRow, Store, application_cluster, pending, create_payload,
  destroy_payload,
}
use website_go_based.Lab.Scenario.{Scenario}
use website_go_based.Lab.Repository.Create.{CreateResult}
use website_go_based.Lab.Quota.{Quota}
use website_go_based.Base.{false, none, some, [], ◌∷◌}
use website_go_based.Base.Int.{pos}

abbrev pub all_well : Faults
all_well = λ _. false

abbrev pub course : CourseRow
course = record { id = 1; slug = "application-cluster"; status = "active" }

abbrev pub start_store : Store
start_store = record {
  users = 1 ∷ [];
  courses = course ∷ [];
  last_labs = [];
  sessions = [];
  instances = [];
  resources = [];
  operations = [];
  next_operation_id = 1;
}

abbrev pub limits : Quota
limits = record {
  max_active_labs = pos 3;
  max_temporary_containers = pos 10;
  max_instances_per_lab = pos 4;
}

abbrev pub scenario : Scenario
scenario = record {
  scenario_type = application_cluster;
  template_id = "application_cluster_scenario_v1";
  initial_instances = 1;
  temporary_containers = 1;
  redis_required = false;
}

abbrev pub session_1 : SessionRow
session_1 = record {
  id = "lab-1";
  user_id = 1;
  course_id = 1;
  scenario_type = application_cluster;
  scenario_template_id = "application_cluster_scenario_v1";
  status = preparing;
  balancing_mode = fixed;
  mysql_db_name = none;
  mysql_db_user = none;
  redis_enabled = false;
  started_at = none;
  last_effective_action_at = none;
  terminated_at = none;
  termination_reason = none;
  created_at = 5;
  updated_at = 5;
}

abbrev pub row_1 : OperationRow
row_1 = record {
  id = 1;
  operation_id = "op-1";
  lab_id = "lab-1";
  requested_by = 1;
  action = create_lab;
  target_instance_id = none;
  status = pending;
  payload = create_payload 1 application_cluster "application_cluster_scenario_v1" 1 false;
  error_code = none;
  error_message = none;
  skipped = false;
  lease_owner = none;
  lease_expires_at = none;
  attempt_count = 0;
  created_at = 5;
  updated_at = 5;
  completed_at = none;
}

abbrev pub created_store : Store
created_store = record start_store {
  last_labs = (1, 1, "lab-1") ∷ [];
  sessions = session_1 ∷ [];
  operations = row_1 ∷ [];
  next_operation_id = 2;
}

abbrev pub created_result : CreateResult
created_result = record { session = session_1; operation = created_of row_1; existing = false }

abbrev pub running_session : SessionRow
running_session = record session_1 {
  status = running;
  started_at = some 7;
  last_effective_action_at = some 7;
}

abbrev pub running_store : Store
running_store = record created_store { sessions = running_session ∷ []; operations = [] }

abbrev pub destroy_row : OperationRow
destroy_row = record row_1 {
  id = 2;
  operation_id = "op-2";
  action = destroy_lab;
  payload = destroy_payload "";
  created_at = 20;
  updated_at = 20;
}

abbrev pub ending_store : Store
ending_store = record running_store {
  sessions =
      record running_session {
        status = terminating;
        termination_reason = some "user_requested";
        updated_at = 20;
      }
      ∷ [];
  operations = destroy_row ∷ [];
  next_operation_id = 3;
}

abbrev pub destroy_result : ActionResult
destroy_result = record { operation = created_of destroy_row; existing = false }
