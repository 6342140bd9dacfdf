-- ===== src/Operation/Worker/Topology.antt =====
-- services/platform-api/internal/operation/worker.go: the handlers of the topology actions. Each ends in a
-- call of the queue, which is the value that it returns here.
use website_go_based.Base.{
  Bool, false, Option, none, some, List, [], String, Result, ok, err, if◌then◌else◌,
}
use website_go_based.Base.Text.{same_text}
use website_go_based.Operation.Worker.{
  Outside, Act, give, ◌>>=◌, Response, topology_command, named_app, new_app, upstream,
}
use website_go_based.Operation.Worker.Decoding.{
  TopologyView, decode_instance, error_code, error_message,
}
use website_go_based.Operation.Queue.{Record}
use website_go_based.Operation.Changes.{TopologyResult, CacheResult}
use website_go_based.Operation.Provision.{ProvisionResult, ProvisionInstance}
use website_go_based.Lab.Action.{other_mode}
use website_go_based.Store.{Server}

-- The call of the queue with which a handler ends; a cancelled handler makes none.
pub data Completion : Type 0 where
  provision_done reset_done : ProvisionResult → String → String → Completion
  destroy_done failure_done : String → String → Completion
  topology_done : TopologyResult → String → String → Completion
  cache_done : CacheResult → String → String → Completion
  cancelled : Completion

abbrev pub empty_topology : TopologyResult
empty_topology = record {
  instance_row = none;
  removed_instance_id = "";
  weights = [];
  balancing_mode = other_mode "";
  skipped = false;
}

-- `completeTopologyFailure`.
abbrev pub topology_failure : String → String → Completion
topology_failure code message = topology_done empty_topology code message

abbrev pub is_success : {V : Type 0} → Response V → Bool
is_success x = same_text x.status "succeeded"

-- The error that `applyTopologyServers` returns is nil.
unfoldable pub applied_by : {V : Type 0} → Option (Response V) → Bool
applied_by none = false
applied_by (some x) = is_success x

-- `applyTopologyServers`: whether it returned nil.
unfoldable pub apply_servers : {V W : Type 0} → Outside V W → Record → List Server → Act V W Bool
unfolding applied_by
apply_servers o r servers = do
  answer ← topology_command o r "APPLY_LAB_UPSTREAM" (upstream servers)
  give (applied_by answer)

-- The reply to a command whose result is an instance: the instance, or the failure.
unfoldable pub instance_reply :
    {V W : Type 0}
    → Outside V W
    → Option (Response V)
    → String
    → String
    → Result Completion ProvisionInstance
instance_reply o none unavailable incomplete =
    err (topology_failure "ORCHESTRATOR_UNAVAILABLE" unavailable)
instance_reply o (some x) unavailable incomplete =
    if is_success x
    then elim (decode_instance o x.result) [
      | none ↦ err (topology_failure "ORCHESTRATOR_RESPONSE_INCOMPLETE" incomplete)
      | some i ↦ ok i
    ]
    else err (topology_failure (error_code o x.error) (error_message o x.error))

-- The second half of `addInstance`.
unfoldable pub route_added :
    {V W : Type 0} → Outside V W → Record → TopologyView → ProvisionInstance → Act V W Completion
unfolding apply_servers
route_added o r p i = do
  applied ← apply_servers o r p.servers
  (if applied
      then give (topology_done (record empty_topology { instance_row = some i }) "" "")
      else do
        answer ← topology_command o r "DELETE_APP_INSTANCE" (named_app p.instance_name)
        give (topology_failure "NGINX_CONFIG_INVALID" "application upstream could not be applied"))

-- `addInstance`, once the reply was read.
unfoldable pub after_create :
    {V W : Type 0}
    → Outside V W
    → Record
    → TopologyView
    → Result Completion ProvisionInstance
    → Act V W Completion
unfolding route_added
after_create o r p (err failure) = give failure
after_create o r p (ok i) = route_added o r p i

unfoldable pub add_instance_command :
    {V W : Type 0} → Outside V W → Record → TopologyView → Act V W Completion
unfolding instance_reply after_create
add_instance_command o r p = do
  answer ←
      topology_command o r "CREATE_APP_INSTANCE"
        (new_app p.scenario_template_id p.instance_name p.performance_percent)
  after_create o r p (
      instance_reply o answer "application instance could not be created"
        "application instance result is invalid")

-- The wait of `removeInstance`: true where the context was cancelled.
unfoldable pub pause : {V W : Type 0} → Outside V W → Act V W Bool
pause o m = let p = o.wait m.store m.world in (record m { store = p.0.0; world = p.0.1 }, p.1)

-- The reply to the deletion: none where the deletion succeeded.
unfoldable pub removal_failure :
    {V W : Type 0} → Outside V W → Option (Response V) → Option Completion
removal_failure o none =
    some (topology_failure "ORCHESTRATOR_UNAVAILABLE" "application instance could not be removed")
removal_failure o (some x) =
    if is_success x
    then none
    else some (topology_failure (error_code o x.error) (error_message o x.error))

unfoldable pub after_delete :
    {V W : Type 0} → Outside V W → Record → TopologyView → Option Completion → Act V W Completion
unfolding apply_servers
after_delete o r p (some failure) = do back ← apply_servers o r p.previous_servers; give failure
after_delete o r p none =
    give (topology_done (record empty_topology { removed_instance_id = p.instance_name }) "" "")

-- The deletion of `removeInstance`, after the wait.
unfoldable pub delete_instance :
    {V W : Type 0} → Outside V W → Record → TopologyView → Act V W Completion
unfolding removal_failure after_delete
delete_instance o r p = do
  answer ← topology_command o r "DELETE_APP_INSTANCE" (named_app p.instance_name)
  after_delete o r p (removal_failure o answer)

unfoldable pub remove_instance_command :
    {V W : Type 0} → Outside V W → Record → TopologyView → Act V W Completion
unfolding apply_servers pause delete_instance
remove_instance_command o r p = do
  applied ← apply_servers o r p.servers
  (if applied
      then (do
        stopped ← pause o
        (if stopped
            then (do back ← apply_servers o r p.previous_servers; give cancelled)
            else delete_instance o r p))
      else give
          (topology_failure "NGINX_CONFIG_INVALID" "application upstream could not be applied"))
