-- ===== src/Operation/Worker/Changes.antt =====
-- services/platform-api/internal/operation/worker.go: the handlers of the actions on instances that exist, and
-- `processTopology`.
use website_go_based.Operation.Worker.Topology.{
  Completion, topology_done, empty_topology, topology_failure, apply_servers, instance_reply,
  add_instance_command, remove_instance_command,
}
use website_go_based.Base.{
  Bool, true, false, not, ◌&&◌, none, some, List, [], ◌∷◌, String, Result, ok, err, ◌==◌,
  if◌then◌else◌, length,
}
use website_go_based.Base.Text.{same_text}
use website_go_based.Balancer.{BalancerError}
use website_go_based.Balancer.Repository.{validate_adaptive}
use website_go_based.Operation.Worker.{
  Outside, Act, give, ◌>>=◌, topology_command, capacity, topology_reader,
}
use website_go_based.Operation.Worker.Decoding.{TopologyView, topology_view}
use website_go_based.Operation.Queue.{Record}
use website_go_based.Operation.Provision.{is_blank, ProvisionInstance}
use website_go_based.Lab.Action.{
  add_instance, remove_instance, set_instance_performance, set_instance_weights, set_balancing_mode,
  apply_adaptive_weights, Action,
}
use website_go_based.Store.{Server}

-- The second half of `setInstancePerformance`.
unfoldable pub route_performance :
    {V W : Type 0} → Outside V W → Record → TopologyView → ProvisionInstance → Act V W Completion
unfolding apply_servers
route_performance o r p i = do
  applied ← apply_servers o r p.servers
  (if applied
      then give (topology_done (record empty_topology { instance_row = some i }) "" "")
      else do
        answer ← topology_command o r "UPDATE_APP_CAPACITY" (
            capacity p.scenario_template_id p.instance_name p.previous_performance_percent
              p.performance_percent)
        back ← apply_servers o r p.previous_servers
        give
            (topology_failure "NGINX_CONFIG_INVALID" "application upstream could not be refreshed"))

-- `setInstancePerformance`, once the reply was read.
unfoldable pub after_update :
    {V W : Type 0}
    → Outside V W
    → Record
    → TopologyView
    → Result Completion ProvisionInstance
    → Act V W Completion
unfolding route_performance
after_update o r p (err failure) = give failure
after_update o r p (ok i) = route_performance o r p i

unfoldable pub set_performance_command :
    {V W : Type 0} → Outside V W → Record → TopologyView → Act V W Completion
unfolding instance_reply after_update
set_performance_command o r p = do
  answer ← topology_command o r "UPDATE_APP_CAPACITY" (
      capacity p.scenario_template_id p.instance_name p.performance_percent
        p.previous_performance_percent)
  after_update o r p (
      instance_reply o answer "application performance could not be updated"
        "application performance result is invalid")

-- `setInstanceWeights`, and the end of `applyAdaptiveWeights` with its own message.
unfoldable pub weights_command :
    {V W : Type 0} → Outside V W → Record → TopologyView → String → Act V W Completion
unfolding apply_servers
weights_command o r p message = do
  applied ← apply_servers o r p.servers
  give (
      if applied
      then topology_done (record empty_topology { weights = p.weights }) "" ""
      else topology_failure "NGINX_CONFIG_INVALID" message)

-- `setBalancingMode`.
unfoldable pub mode_completion : TopologyView → Completion
mode_completion p = elim p.balancing_mode [
  | none ↦ topology_failure "INVALID_OPERATION" "balancing mode operation payload is invalid"
  | some mode ↦ topology_done (record empty_topology { balancing_mode = mode }) "" ""
]

abbrev pub no_servers : List Server → Bool
no_servers [] = true
no_servers (_ ∷ _) = false

-- The condition on the payload of `applyAdaptiveWeights`.
unfoldable pub adaptive_payload_valid : TopologyView → Bool
adaptive_payload_valid p =
    same_text p.expected_mode "adaptive"
    && not (is_blank p.topology_fingerprint)
    && not (no_servers p.servers)
    && (length p.weights == length p.servers)

-- The call of `ValidateAdaptive`.
unfoldable pub validate_weights :
    {V W : Type 0}
    → (String → String)
    → Outside V W
    → Record
    → TopologyView
    → Act V W (Result BalancerError Bool)
validate_weights digest o r p m = (
  m,
  validate_adaptive digest (o.faults m.world) m.store r.action r.lab_id p.topology_fingerprint,
)

unfoldable pub after_validation :
    {V W : Type 0}
    → Outside V W
    → Record
    → TopologyView
    → Result BalancerError Bool
    → Act V W Completion
unfolding weights_command
after_validation o r p (err failure) =
    give (topology_failure "INTERNAL_ERROR" "adaptive topology could not be validated")
after_validation o r p (ok false) =
    give (topology_done (record empty_topology { skipped = true }) "" "")
after_validation o r p (ok true) =
    weights_command o r p "adaptive application weights could not be applied"

unfoldable pub adaptive_command :
    {V W : Type 0} → (String → String) → Outside V W → Record → TopologyView → Act V W Completion
unfolding adaptive_payload_valid validate_weights after_validation
adaptive_command digest o r p =
    if adaptive_payload_valid p
    then (do valid ← validate_weights digest o r p; after_validation o r p valid)
    else give (topology_failure "INVALID_OPERATION" "adaptive weight operation payload is invalid")

unfoldable pub topology_switch :
    {V W : Type 0}
    → Action
    → (String → String)
    → Outside V W
    → Record
    → TopologyView
    → Act V W Completion
topology_switch add_instance digest o r p = add_instance_command o r p
topology_switch remove_instance digest o r p = remove_instance_command o r p
topology_switch set_instance_performance digest o r p = set_performance_command o r p
topology_switch set_instance_weights digest o r p =
    weights_command o r p "application weights could not be applied"
topology_switch set_balancing_mode digest o r p = give (mode_completion p)
topology_switch apply_adaptive_weights digest o r p = adaptive_command digest o r p
topology_switch _ digest o r p =
    give (topology_failure "ACTION_NOT_SUPPORTED" "topology action is not supported")

-- `processTopology`.
unfoldable pub process_topology :
    {V W : Type 0} → (String → String) → Outside V W → Record → Act V W Completion
unfolding topology_switch topology_view
process_topology digest o r =
    if o.readable topology_reader r.payload
    then topology_switch r.action digest o r (topology_view r.payload)
    else give (topology_failure "INVALID_OPERATION" "topology operation payload is invalid")
