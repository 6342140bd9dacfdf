-- ===== src/Operation/Worker/Decoding.antt =====
-- services/platform-api/internal/operation/worker.go: what the worker reads from a stored payload and from a
-- reply of the orchestrator.
use website_go_based.Base.{
  Bool, true, not, ◌&&◌, Option, none, some, List, [], ◌∷◌, String, if◌then◌else◌,
}
use website_go_based.Base.Int.{ℤ, pos}
use website_go_based.Base.Text.{same_text}
use website_go_based.Operation.Worker.{Outside, identity_reader}
use website_go_based.Operation.Queue.{Record}
use website_go_based.Operation.Provision.{
  ProvisionInstance, ProvisionResult, is_blank, positive, no_instances,
}
use website_go_based.Lab.Action.{Mode, InstanceWeight, elements, ActionInput}
use website_go_based.Store.{
  Payload, Server, create_payload, reset_payload, destroy_payload, topology_payload, cache_payload,
  adaptive_payload,
}

-- `topologyPayload`: a field that the stored object lacks is the zero value.
pub record TopologyView : Type 0 where
  pub scenario_template_id : String
  pub instance_name : String
  pub performance_percent : ℤ
  pub previous_performance_percent : ℤ
  pub servers : List Server
  pub previous_servers : List Server
  pub expected_mode : String
  pub topology_fingerprint : String
  pub weights : List InstanceWeight
  pub balancing_mode : Option Mode

-- The fields `scenarioTemplateId` and `request` of a stored payload.
unfoldable pub template_of : Payload → String
template_of (create_payload course_id typ template instances redis) = template
template_of (reset_payload template) = template
template_of (destroy_payload reason) = ""
template_of (topology_payload p) = p.scenario_template_id
template_of (cache_payload template request) = template
template_of (adaptive_payload fingerprint servers weights) = ""

unfoldable pub request_of : Payload → Option ActionInput
request_of (topology_payload p) = some p.request
request_of (cache_payload template request) = some request
request_of _ = none

-- `payload.Request.TargetInstanceID`.
unfoldable pub target_of : Payload → Option String
unfolding request_of
target_of p = elim (request_of p) [ none ↦ none | some i ↦ i.target_instance_id ]

unfoldable pub blank_view : TopologyView
blank_view = record {
  scenario_template_id = "";
  instance_name = "";
  performance_percent = pos 0;
  previous_performance_percent = pos 0;
  servers = [];
  previous_servers = [];
  expected_mode = "";
  topology_fingerprint = "";
  weights = [];
  balancing_mode = none;
}

unfoldable pub topology_view : Payload → TopologyView
unfolding blank_view template_of
topology_view (topology_payload p) = record {
  scenario_template_id = p.scenario_template_id;
  instance_name = p.instance_name;
  performance_percent = p.performance_percent;
  previous_performance_percent = p.previous_performance_percent;
  servers = p.servers;
  previous_servers = p.previous_servers;
  expected_mode = "";
  topology_fingerprint = "";
  weights = elements p.request.weights;
  balancing_mode = p.request.balancing_mode;
}
topology_view (adaptive_payload fingerprint servers weights) = record blank_view {
  expected_mode = "adaptive";
  topology_fingerprint = fingerprint;
  servers = servers;
  weights = weights;
}
topology_view (cache_payload template request) = record blank_view {
  scenario_template_id = template;
  weights = elements request.weights;
  balancing_mode = request.balancing_mode;
}
topology_view p = record blank_view { scenario_template_id = template_of p }

-- The test of `decodeProvisionInstance`, and of each instance in `decodeProvisionResult`.
unfoldable pub instance_usable : ProvisionInstance → Bool
instance_usable i =
    not (is_blank i.instance_name)
    && not (is_blank i.container_id)
    && not (is_blank i.container_name)
    && i.cpu_positive
    && positive i.memory_limit_mb
    && positive i.performance_percent
    && positive i.processing_speed
    && positive i.max_load
    && positive i.current_weight

unfoldable pub decode_instance : {V W : Type 0} → Outside V W → V → Option ProvisionInstance
decode_instance o v = elim (o.read_instance v) [
  | none ↦ none
  | some i ↦ if instance_usable i then some i else none
]

unfoldable pub all_usable : List ProvisionInstance → Bool
all_usable [] = true
all_usable (i ∷ is) = instance_usable i && all_usable is

unfoldable pub result_usable : ProvisionResult → Bool
unfolding all_usable
result_usable v =
    not (is_blank v.lab_id)
    && not (is_blank v.database_name)
    && not (is_blank v.database_user)
    && not (is_blank v.network_id)
    && not (is_blank v.network_name)
    && not (no_instances v.instances)
    && all_usable v.instances

-- `decodeProvisionResult`.
unfoldable pub decode_provision : {V W : Type 0} → Outside V W → V → Option ProvisionResult
decode_provision o v = elim (o.read_provision v) [
  | none ↦ none
  | some x ↦ if result_usable x then some x else none
]

-- `validateProvisionIdentity`.
unfoldable pub identity_matches : {V W : Type 0} → Outside V W → Record → ProvisionResult → Bool
unfolding template_of
identity_matches o r v =
    same_text v.lab_id r.lab_id
    && o.readable identity_reader r.payload
    && not (is_blank (template_of r.payload))
    && same_text v.scenario_template_id (template_of r.payload)

unfoldable pub text_or : Option String → String → String
text_or none fallback = fallback
text_or (some t) fallback = if is_blank t then fallback else t

-- `commandError`: the code and the message.
unfoldable pub error_code : {V W : Type 0} → Outside V W → V → String
unfolding text_or
error_code o v = text_or (o.text_field v "code") "ORCHESTRATOR_COMMAND_FAILED"

unfoldable pub error_message : {V W : Type 0} → Outside V W → V → String
unfolding text_or
error_message o v = text_or (o.text_field v "message") "orchestrator command failed"
