-- ===== src/Store.antt =====
-- The platform tables of database/mysql/init/001_platform_schema.sql that the Go repositories of the
-- platform API read and write, as lists of rows in insertion order. An instant is a number of
-- nanoseconds since Go's zero time. A SQL statement of a repository is `select`, `first`,
-- `update_where` or `count_where` over a list, and its affected rows are the rows that it matches.
-- The columns `cpu_limit_cores` and `metadata_json` are carried along by the program and not kept.
pub mod Frame
use website_go_based.Base.{
  ℕ, suc, ◌+◌, Bool, true, false, Option, none, some, List, [], ◌∷◌, ◌++◌, String, Result, ok, err,
  reject, require, first, exists, count_where, if◌then◌else◌, ◌==◌, not, ◌&&◌, ◌||◌,
}
use website_go_based.Base.Int.{ℤ}
use website_go_based.Base.Text.{same_text}
use website_go_based.Lab.Status.{Status, preparing, running, expiring, terminating}
use website_go_based.Lab.Action.{Action, ActionInput, InstanceWeight, Mode}

pub data ScenarioType : Type 0 where
  application_data_separation application_cluster multi_level_cache : ScenarioType
  other_scenario : String → ScenarioType

pub record SessionRow : Type 0 where
  pub id : String
  pub user_id : ℕ
  pub course_id : ℕ
  pub scenario_type : ScenarioType
  pub scenario_template_id : String
  pub status : Status
  pub balancing_mode : Mode
  pub mysql_db_name : Option String
  pub mysql_db_user : Option String
  pub redis_enabled : Bool
  pub started_at : Option ℕ
  pub last_effective_action_at : Option ℕ
  pub terminated_at : Option ℕ
  pub termination_reason : Option String
  pub created_at : ℕ
  pub updated_at : ℕ

-- The status column of instances and resources.
pub data RowStatus : Type 0 where
  row_running row_ready row_unknown row_terminated row_deleted : RowStatus
  row_other : String → RowStatus

pub record InstanceRow : Type 0 where
  pub lab_id : String
  pub instance_name : String
  pub container_id : Option String
  pub status : RowStatus
  pub memory_limit_mb : ℤ
  pub performance_percent : ℤ
  pub processing_speed : ℤ
  pub max_load : ℤ
  pub current_weight : ℤ
  pub updated_at : ℕ

pub data ResourceType : Type 0 where
  mysql_database mysql_user docker_network nginx_fragment session_redis : ResourceType

pub record ResourceRow : Type 0 where
  pub lab_id : String
  pub resource_type : ResourceType
  pub resource_name : String
  pub external_id : Option String
  pub status : RowStatus
  pub updated_at : ℕ

-- operation/operation.go, the status constants; the schema admits no other value.
pub data OperationStatus : Type 0 where
  pending claimed running_op succeeded failed_op compensating : OperationStatus

pub record Server : Type 0 where
  pub instance_name : String
  pub weight : ℤ

-- `topologyActionPayload`.
pub record TopologyPayload : Type 0 where
  pub request : ActionInput
  pub scenario_template_id : String
  pub instance_name : String
  pub performance_percent : ℤ
  pub previous_performance_percent : ℤ
  pub servers : List Server
  pub previous_servers : List Server

-- The payload_json column, one constructor for each encoder of the program.
pub data Payload : Type 0 where
  create_payload : ℕ → ScenarioType → String → ℕ → Bool → Payload
  reset_payload : String → Payload
  destroy_payload : String → Payload
  topology_payload : TopologyPayload → Payload
  cache_payload : String → ActionInput → Payload
  adaptive_payload : String → List Server → List InstanceWeight → Payload

pub record OperationRow : Type 0 where
  pub id : ℕ
  pub operation_id : String
  pub lab_id : String
  pub requested_by : ℕ
  pub action : Action
  pub target_instance_id : Option String
  pub status : OperationStatus
  pub payload : Payload
  pub error_code : Option String
  pub error_message : Option String
  pub skipped : Bool
  pub lease_owner : Option String
  pub lease_expires_at : Option ℕ
  pub attempt_count : ℕ
  pub created_at : ℕ
  pub updated_at : ℕ
  pub completed_at : Option ℕ

pub record CourseRow : Type 0 where
  pub id : ℕ
  pub slug : String
  pub status : String

pub record Store : Type 0 where
  pub users : List ℕ
  pub courses : List CourseRow
  pub last_labs : List (ℕ × ℕ × String)
  pub sessions : List SessionRow
  pub instances : List InstanceRow
  pub resources : List ResourceRow
  pub operations : List OperationRow
  pub next_operation_id : ℕ

-- The statements at which the database can fail; a schedule of failures is a test on them.
pub data Statement : Type 0 where
  begin_tx find_existing lock_user lock_admission load_course find_active load_usage : Statement
  lock_session recheck_existing check_queue lock_instances count_instances count_redis : Statement
  insert_session insert_operation update_session update_operation update_instances : Statement
  update_resources upsert_progress commit_tx release_admission select_session : Statement

abbrev pub Faults : Type 0
Faults = Statement → Bool

-- `status IN ('pending', 'claimed', 'running', 'compensating')`
unfoldable pub in_flight : OperationStatus → Bool
in_flight succeeded = false
in_flight failed_op = false
in_flight pending = true
in_flight _ = true

unfoldable pub in_flight_of : String → OperationRow → Bool
unfolding in_flight
in_flight_of lab_id o = same_text o.lab_id lab_id && in_flight o.status

-- `status IN ('Running', 'Expiring')`
unfoldable pub running_or_expiring : Status → Bool
running_or_expiring running = true
running_or_expiring expiring = true
running_or_expiring _ = false
