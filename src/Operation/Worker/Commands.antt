-- ===== src/Operation/Worker/Commands.antt =====
-- services/platform-api/internal/operation/worker.go: the handler of the cache actions, and the commands that
-- create, reset and destroy a lab. Each ends in a call of the queue, which is the value that it
-- returns here.
use website_go_based.Operation.Worker.Changes.{process_topology}
use website_go_based.Base.{
  Bool, true, false, not, ◌&&◌, ◌||◌, Option, none, some, [], String, ok, err, if◌then◌else◌,
  Result,
}
use website_go_based.Base.Text.{same_text}
use website_go_based.Lab.Action.{
  Action, create_lab, reset_lab, destroy_lab, add_instance, remove_instance,
  set_instance_performance, set_instance_weights, set_balancing_mode, apply_adaptive_weights,
  remove_instance_l1, add_instance_l1, add_session_redis, is_cache_action, names_target,
}
use website_go_based.Operation.Worker.{
  Outside, Act, give, ◌>>=◌, Response, stored, empty_object, redis_template, cache_reader, fresh_id,
  send, command_of,
}
use website_go_based.Operation.Worker.Decoding.{
  decode_provision, identity_matches, template_of, target_of, error_code, error_message,
}
use website_go_based.Operation.Worker.Topology.{
  Completion, provision_done, reset_done, destroy_done, failure_done, cache_done, is_success,
}
use website_go_based.Operation.Queue.{Record}
use website_go_based.Operation.Changes.{CacheResult}
use website_go_based.Operation.Provision.{ProvisionResult, is_blank}

abbrev pub is_topology_action : Action → Bool
is_topology_action add_instance = true
is_topology_action remove_instance = true
is_topology_action set_instance_performance = true
is_topology_action set_instance_weights = true
is_topology_action set_balancing_mode = true
is_topology_action apply_adaptive_weights = true
is_topology_action _ = false

unfoldable pub command_type_for_action : Action → Option String
command_type_for_action create_lab = some "PROVISION_LAB"
command_type_for_action reset_lab = some "RESET_LAB"
command_type_for_action destroy_lab = some "DESTROY_LAB"
command_type_for_action _ = none

abbrev pub empty_provision : ProvisionResult
empty_provision = record {
  lab_id = "";
  scenario_template_id = "";
  database_name = "";
  database_user = "";
  network_id = "";
  network_name = "";
  instances = [];
  redis = none;
}

-- `completeFailure`.
unfoldable pub failure_of : Action → String → String → Completion
failure_of create_lab code message = provision_done empty_provision code message
failure_of reset_lab code message = reset_done empty_provision code message
failure_of destroy_lab code message = destroy_done code message
failure_of _ code message = failure_done code message

-- The result of a provision that `completeSuccess` accepts.
unfoldable pub accepted : {V W : Type 0} → Outside V W → Record → V → Option ProvisionResult
accepted o r v = elim (decode_provision o v) [
  | none ↦ none
  | some x ↦ if identity_matches o r x then some x else none
]

-- `completeSuccess`, by the action and the result that was accepted.
unfoldable pub success_of : Action → Option ProvisionResult → Completion
unfolding failure_of
success_of create_lab (some v) = provision_done v "" ""
success_of reset_lab (some v) = reset_done v "" ""
success_of create_lab none =
    failure_of create_lab "ORCHESTRATOR_RESPONSE_INCOMPLETE"
      "orchestrator provision result is invalid"
success_of reset_lab none =
    failure_of reset_lab "ORCHESTRATOR_RESPONSE_INCOMPLETE"
      "orchestrator provision result is invalid"
success_of destroy_lab v = destroy_done "" ""
success_of _ v =
    failure_done "ACTION_NOT_SUPPORTED" "operation action is not supported by this worker"

-- The `switch` on the reply in `processOne`.
unfoldable pub reply_of : {V W : Type 0} → Outside V W → Record → Option (Response V) → Completion
unfolding success_of accepted
reply_of o r none =
    failure_of r.action "ORCHESTRATOR_UNAVAILABLE" "orchestrator command could not be completed"
reply_of o r (some x) =
    if is_success x
    then success_of r.action (accepted o r x.result)
    else if same_text x.status "failed" || same_text x.status "rejected"
    then failure_of r.action (error_code o x.error) (error_message o x.error)
    else failure_of r.action "ORCHESTRATOR_RESPONSE_INCOMPLETE"
        "orchestrator did not return a final command result"

-- The command of a lab, once a command id was asked for.
unfoldable pub lab_with_id :
    {V W : Type 0} → Outside V W → Record → String → Result String String → Act V W Completion
unfolding reply_of
lab_with_id o r typ (err failure) = give (failure_of r.action "INTERNAL_ERROR" failure)
lab_with_id o r typ (ok id) = do
  answer ← send o (command_of r typ id (stored r.payload))
  give (reply_of o r answer)

-- The command of `processOne` for a lab.
unfoldable pub lab_command : {V W : Type 0} → Outside V W → Record → String → Act V W Completion
unfolding lab_with_id
lab_command o r typ = do made ← fresh_id o; lab_with_id o r typ made

abbrev pub no_redis : CacheResult
no_redis = record { redis = none }

-- `completeCacheFailure`.
abbrev pub cache_failure : String → String → Completion
cache_failure code message = cache_done no_redis code message

-- A call of the cache runtime: whether it returned nil.
unfoldable pub set_cache : {V W : Type 0} → Outside V W → Record → String → Bool → Act V W Bool
set_cache o r target enabled m = elim o.set_l1 [
  | none ↦ (m, false)
  | some call ↦
      let p = call m.store m.world r.lab_id target enabled in
      (record m { store = p.0.0; world = p.0.1 }, p.1)
]

abbrev is_configured : {A : Type 0} → Option A → Bool
is_configured none = false
is_configured (some a) = true

-- The first level of the cache in `processCache`: the new state of the target.
unfoldable pub instance_cache : {V W : Type 0} → Outside V W → Record → Bool → Act V W Completion
unfolding set_cache
instance_cache o r enabled =
    if is_configured o.set_l1 && names_target (target_of r.payload)
    then (do
      done ← set_cache o r (text (target_of r.payload)) enabled
      give (
          if done
          then cache_done no_redis "" ""
          else cache_failure "CACHE_UNAVAILABLE" "cache instance could not be updated"))
    else give (cache_failure "CACHE_UNAVAILABLE" "cache instance control is unavailable")
  where
    text : Option String → String
    text none = ""
    text (some t) = t

-- The Redis of the reply to CREATE_SESSION_REDIS.
unfoldable pub created_redis : {V W : Type 0} → Outside V W → V → Completion
created_redis o v = elim (o.read_redis v) [
  | none ↦ cache_failure "ORCHESTRATOR_RESPONSE_INCOMPLETE" "Redis result is invalid"
  | some x ↦
      if is_blank x.container_id || is_blank x.container_name
      then cache_failure "ORCHESTRATOR_RESPONSE_INCOMPLETE" "Redis result is invalid"
      else cache_done (record { redis = some (record x { status = "ready" }) }) "" ""
]

unfoldable pub redis_reply : {V W : Type 0} → Outside V W → Bool → Option (Response V) → Completion
unfolding created_redis
redis_reply o adding none =
    cache_failure "ORCHESTRATOR_UNAVAILABLE" "Redis operation could not be completed"
redis_reply o adding (some x) =
    if is_success x
    then if adding then created_redis o x.result else cache_done no_redis "" ""
    else cache_failure (error_code o x.error) (error_message o x.error)

-- The command of the second level, once a command id was asked for.
unfoldable pub redis_with_id :
    {V W : Type 0} → Outside V W → Record → Bool → Result String String → Act V W Completion
unfolding redis_reply
redis_with_id o r adding (err failure) =
    give (cache_failure "INTERNAL_ERROR" "cache command could not be prepared")
redis_with_id o r adding (ok id) = do
  answer ← send o (
      command_of r (if adding then "CREATE_SESSION_REDIS" else "DELETE_SESSION_REDIS") id
        (if adding then redis_template (template_of r.payload) else empty_object))
  give (redis_reply o adding answer)

-- The second level of the cache in `processCache`.
unfoldable pub redis_command : {V W : Type 0} → Outside V W → Record → Bool → Act V W Completion
unfolding redis_with_id
redis_command o r adding = do made ← fresh_id o; redis_with_id o r adding made

unfoldable pub cache_switch : {V W : Type 0} → Action → Outside V W → Record → Act V W Completion
unfolding instance_cache redis_command
cache_switch remove_instance_l1 o r = instance_cache o r false
cache_switch add_instance_l1 o r = instance_cache o r true
cache_switch add_session_redis o r = redis_command o r true
cache_switch _ o r = redis_command o r false

-- `processCache`.
unfoldable pub process_cache : {V W : Type 0} → Outside V W → Record → Act V W Completion
unfolding cache_switch
process_cache o r =
    if o.readable cache_reader r.payload && not (is_blank (template_of r.payload))
    then cache_switch r.action o r
    else give (cache_failure "INVALID_OPERATION" "cache operation payload is invalid")

-- The part of `processOne` after the operation is marked as running.
unfoldable pub outcome :
    {V W : Type 0} → (String → String) → Outside V W → Record → Act V W Completion
unfolding process_topology process_cache lab_command
outcome digest o r =
    if is_topology_action r.action
    then process_topology digest o r
    else if is_cache_action r.action
    then process_cache o r
    else elim (command_type_for_action r.action) [
      | none ↦
          give
            (failure_done "ACTION_NOT_SUPPORTED" "operation action is not supported by this worker")
      | some typ ↦ lab_command o r typ
    ]
