-- ===== src/Operation/Provision.antt =====
-- services/platform-api/internal/operation/repository.go: how the result of CREATE_LAB or RESET_LAB is stored.
-- Encoding a result, which cannot fail for these types, is not a statement here.
use website_go_based.Base.{
  ℕ, Bool, true, false, not, ◌&&◌, Option, none, some, List, [], ◌∷◌, ◌++◌, String, Result, ok,
  require, ◌>>=◌, ◌>>◌, if◌then◌else◌, select, update_where, exists,
}
use website_go_based.Base.Int.{ℤ, pos, ltb_ℤ}
use website_go_based.Base.Text.{same_text}
use website_go_based.Operation.Queue.{QueueError, incomplete, Record, run_statement, null_if_empty}
use website_go_based.Store.{
  Store, InstanceRow, ResourceRow, RowStatus, row_running, row_ready, row_unknown, row_terminated,
  row_deleted, row_other, ResourceType, mysql_database, mysql_user, docker_network, nginx_fragment,
  session_redis, Faults, update_instances, update_resources,
}

pub record ProvisionInstance : Type 0 where
  pub instance_name : String
  pub container_id : String
  pub container_name : String
  pub status : String
  -- `CPULimitCores > 0`; the number itself is not kept
  pub cpu_positive : Bool
  pub memory_limit_mb : ℤ
  pub performance_percent : ℤ
  pub processing_speed : ℤ
  pub max_load : ℤ
  pub current_weight : ℤ

pub record ProvisionRedis : Type 0 where
  pub container_id : String
  pub container_name : String
  pub status : String

pub record ProvisionResult : Type 0 where
  pub lab_id : String
  pub scenario_template_id : String
  pub database_name : String
  pub database_user : String
  pub network_id : String
  pub network_name : String
  pub instances : List ProvisionInstance
  pub redis : Option ProvisionRedis

abbrev pub is_blank : String → Bool
is_blank t = same_text t ""

abbrev pub positive : ℤ → Bool
positive z = ltb_ℤ (pos 0) z

unfoldable pub is_some : {A : Type 0} → Option A → Bool
is_some none = false
is_some (some _) = true

abbrev pub no_instances : List ProvisionInstance → Bool
no_instances [] = true
no_instances (_ ∷ _) = false

unfoldable pub row_status_of : String → RowStatus
row_status_of t =
    if same_text t "running"
    then row_running
    else if same_text t "ready"
    then row_ready
    else if same_text t "unknown"
    then row_unknown
    else if same_text t "terminated"
    then row_terminated
    else if same_text t "deleted"
    then row_deleted
    else row_other t

unfoldable pub value_or_default : String → String → String
value_or_default value fallback = if is_blank value then fallback else value

unfoldable pub instance_complete : ProvisionInstance → Bool
instance_complete i =
    not (is_blank i.instance_name)
    && not (is_blank i.container_id)
    && not (is_blank i.container_name)
    && positive i.memory_limit_mb
    && positive i.performance_percent
    && positive i.processing_speed
    && positive i.max_load
    && positive i.current_weight

unfoldable pub result_complete : Record → ProvisionResult → Bool
result_complete r v =
    same_text v.lab_id r.lab_id
    && not (is_blank v.database_name)
    && not (is_blank v.database_user)
    && not (is_blank v.network_name)
    && not (is_blank v.network_id)
    && not (no_instances v.instances)

unfoldable pub instance_key : String → String → InstanceRow → Bool
instance_key lab_id name i = same_text i.lab_id lab_id && same_text i.instance_name name

-- INSERT ... ON DUPLICATE KEY UPDATE, by (lab_id, instance_name); the container ids that Docker gives
-- are distinct, so the key on container_id is not met.
unfoldable pub upsert_instance : InstanceRow → List InstanceRow → List InstanceRow
unfolding instance_key
upsert_instance row rows =
    if exists (instance_key row.lab_id row.instance_name) rows
    then update_where (instance_key row.lab_id row.instance_name) (λ _. row) rows
    else rows ++ row ∷ []

unfoldable pub persist_instances :
    Faults
    → List InstanceRow
    → String
    → List ProvisionInstance
    → ℕ
    → Result QueueError (List InstanceRow)
persist_instances fails rows lab_id [] now = ok rows
persist_instances fails rows lab_id (i ∷ is) now = do
  require (instance_complete i) incomplete
  run_statement fails update_instances
  persist_instances fails
      (upsert_instance
        (record {
          lab_id = lab_id;
          instance_name = i.instance_name;
          container_id = some i.container_id;
          status = row_status_of (value_or_default i.status "running");
          memory_limit_mb = i.memory_limit_mb;
          performance_percent = i.performance_percent;
          processing_speed = i.processing_speed;
          max_load = i.max_load;
          current_weight = i.current_weight;
          updated_at = now;
        })
        rows)
      lab_id is now

unfoldable pub ready_resource : String → ℕ → ResourceType → String → String → ResourceRow
ready_resource lab_id now typ name external = record {
  lab_id = lab_id;
  resource_type = typ;
  resource_name = name;
  external_id = null_if_empty external;
  status = row_ready;
  updated_at = now;
}

-- The list of resources that `persistProvisionResult` writes; the lab's rows were deleted and the
-- types differ, so no insert meets a duplicate key.
unfoldable pub resources_of : String → ProvisionResult → ℕ → List ResourceRow
unfolding ready_resource
resources_of lab_id v now =
    ready_resource lab_id now mysql_database v.database_name ""
    ∷ ready_resource lab_id now mysql_user v.database_user ""
    ∷ ready_resource lab_id now docker_network v.network_name v.network_id
    ∷ ready_resource lab_id now nginx_fragment lab_id ""
    ∷ redis_row v.redis
  where
    redis_row : Option ProvisionRedis → List ResourceRow
    redis_row none = []
    redis_row (some x) =
        ready_resource lab_id now session_redis x.container_name x.container_id ∷ []

unfoldable pub other_instance : String → InstanceRow → Bool
other_instance lab_id i = not (same_text i.lab_id lab_id)

unfoldable pub other_resource : String → ResourceRow → Bool
other_resource lab_id x = not (same_text x.lab_id lab_id)

unfoldable pub persist_provision_result :
    Faults → Store → Record → ProvisionResult → ℕ → Result QueueError Store
persist_provision_result fails s r v now = do
  require (result_complete r v) incomplete
  run_statement fails update_resources
  run_statement fails update_instances
  rows ←
      persist_instances fails (select (other_instance r.lab_id) s.instances) r.lab_id v.instances
        now
  run_statement fails update_resources
  ok (record s {
    instances = rows;
    resources = select (other_resource r.lab_id) s.resources ++ resources_of r.lab_id v now;
  })
