-- ===== src/Operation/Worker/Answers/Commands.antt =====
-- services/platform-api/internal/operation/worker.go: the whole of `processOne` between the marking and the
-- completion of an operation reports a change only after a reply "succeeded".
use website_go_based.Operation.Worker.Changes.{process_topology, topology_switch}
use website_go_based.Operation.Worker.Answers.{
  Replied, Honest, reports_change, error_code-is_blank, unavailable, response_incomplete,
  internal_error, invalid_operation, send-Replied, failing-Honest, bind-Honest, if-Honest,
}
use website_go_based.Base.{
  ◌≡◌, refl, inl, inr, Bool, true, false, Option, none, some, String, arith, Result, ok, err,
  if◌then◌else◌, Bool-cases,
}
use website_go_based.Operation.Worker.{Outside, Machine, Act, Response, give, ◌>>=◌}
use website_go_based.Operation.Worker.Decoding.{TopologyView, error_message, error_code}
use website_go_based.Operation.Worker.Topology.{Completion, is_success, failure_done}
use website_go_based.Operation.Worker.Rollback.{reports_success}
use website_go_based.Operation.Provision.{is_blank}
use website_go_based.Operation.Queue.{Record}
use website_go_based.Operation.Worker.Answers.Handlers.{
  add_instance_command-Honest, set_performance_command-Honest, weights_command-Honest,
  remove_instance_command-Honest, adaptive_command-Honest,
}
use website_go_based.Operation.Worker.Commands.{
  outcome, reply_of, failure_of, lab_with_id, lab_command, redis_with_id, redis_command,
  redis_reply, cache_failure, process_cache, cache_switch, is_topology_action,
}
use website_go_based.Lab.Action.{
  Action, create_lab, reset_lab, destroy_lab, add_instance, remove_instance,
  set_instance_performance, set_instance_weights, set_balancing_mode, apply_adaptive_weights,
  remove_instance_l1, add_instance_l1, remove_session_redis, add_session_redis, other,
  is_cache_action,
}

-- The actions that the orchestrator carries out.
unfoldable pub needs_reply : Action → Bool
needs_reply set_balancing_mode = false
needs_reply remove_instance_l1 = false
needs_reply add_instance_l1 = false
needs_reply _ = true

failure_of-reports_change :
    (a : Action) (code message : String)
    → is_blank code ≡ false
    → reports_change (failure_of a code message) ≡ false
unfolding failure_of reports_change reports_success
failure_of-reports_change a code message h = ground arith

cache_failure-reports_change :
    (code message : String)
    → is_blank code ≡ false
    → reports_change (cache_failure code message) ≡ false
unfolding reports_change reports_success
cache_failure-reports_change code message h = ground arith

module _ {V W : Type 0} (o : Outside V W) where
  reply_of-success :
      (r : Record) (answer : Option (Response V))
      → reports_change (reply_of o r answer) ≡ true
      → (x : Response V) × (answer ≡ some x) × (is_success x ≡ true)
  unfolding reply_of
  reply_of-success r none e = absurd (
      ground (
        arith,
        failure_of-reports_change r.action "ORCHESTRATOR_UNAVAILABLE"
            "orchestrator command could not be completed" unavailable,
      ))
  reply_of-success r (some x) e = elim (Bool-cases (is_success x)) [
    | inl good ↦ (x, refl, good)
    | inr refused ↦ absurd (
        ground (
          arith,
          failure_of-reports_change r.action (error_code o x.error) (error_message o x.error)
              (error_code-is_blank o x.error),
          failure_of-reports_change r.action "ORCHESTRATOR_RESPONSE_INCOMPLETE"
              "orchestrator did not return a final command result" response_incomplete,
        ))
  ]

  lab_with_id-Honest :
      (r : Record) (typ : String) (made : Result String String) → Honest (lab_with_id o r typ made)
  unfolding lab_with_id give ◌>>=◌
  lab_with_id-Honest r typ (err failure) m e =
      absurd
        (ground (arith, failure_of-reports_change r.action "INTERNAL_ERROR" failure internal_error))
  lab_with_id-Honest r typ (ok id) m e =
      let (x, answered, succeeded) = reply_of-success r _ e in
      send-Replied o _ m x answered succeeded

  lab_command-Honest : (r : Record) (typ : String) → Honest (lab_command o r typ)
  unfolding lab_command
  lab_command-Honest r typ = bind-Honest o _ _ (λ made. lab_with_id-Honest r typ made)

  redis_reply-success :
      (adding : Bool) (answer : Option (Response V))
      → reports_change (redis_reply o adding answer) ≡ true
      → (x : Response V) × (answer ≡ some x) × (is_success x ≡ true)
  unfolding redis_reply
  redis_reply-success adding none e = absurd (
      ground (
        arith,
        cache_failure-reports_change "ORCHESTRATOR_UNAVAILABLE"
            "Redis operation could not be completed" unavailable,
      ))
  redis_reply-success adding (some x) e = elim (Bool-cases (is_success x)) [
    | inl good ↦ (x, refl, good)
    | inr refused ↦ absurd (
        ground (
          arith,
          cache_failure-reports_change (error_code o x.error) (error_message o x.error)
              (error_code-is_blank o x.error),
        ))
  ]

  redis_with_id-Honest :
      (r : Record) (adding : Bool) (made : Result String String)
      → Honest (redis_with_id o r adding made)
  unfolding redis_with_id give ◌>>=◌
  redis_with_id-Honest r adding (err failure) m e = absurd (
      ground (
        arith,
        cache_failure-reports_change "INTERNAL_ERROR" "cache command could not be prepared"
            internal_error,
      ))
  redis_with_id-Honest r adding (ok id) m e =
      let (x, answered, succeeded) = redis_reply-success adding _ e in
      send-Replied o _ m x answered succeeded

  redis_command-Honest : (r : Record) (adding : Bool) → Honest (redis_command o r adding)
  unfolding redis_command
  redis_command-Honest r adding = bind-Honest o _ _ (λ made. redis_with_id-Honest r adding made)

  invalid_cache-Honest :
      Honest {V = V} {W = W}
        (give (cache_failure "INVALID_OPERATION" "cache operation payload is invalid"))
  unfolding give
  invalid_cache-Honest m e = absurd (
      ground (
        arith,
        cache_failure-reports_change "INVALID_OPERATION" "cache operation payload is invalid"
            invalid_operation,
      ))

  unsupported-Honest : Honest {V = V} {W = W} (
      give (failure_done "ACTION_NOT_SUPPORTED" "operation action is not supported by this worker"))
  unfolding give reports_change reports_success
  unsupported-Honest m e = absurd (ground arith)

  topology_action-Honest :
      (digest : String → String) (a : Action) (r : Record) (p : TopologyView)
      → needs_reply a ≡ true
      → is_topology_action a ≡ true
      → Honest (topology_switch a digest o r p)
  unfolding topology_switch needs_reply
  topology_action-Honest digest add_instance r p h k = add_instance_command-Honest o r p
  topology_action-Honest digest remove_instance r p h k = remove_instance_command-Honest o r p
  topology_action-Honest digest set_instance_performance r p h k =
      set_performance_command-Honest o r p
  topology_action-Honest digest set_instance_weights r p h k = weights_command-Honest o r p _
  topology_action-Honest digest apply_adaptive_weights r p h k =
      adaptive_command-Honest o digest r p
  topology_action-Honest digest set_balancing_mode r p h k = absurd (ground arith)
  topology_action-Honest digest create_lab r p h k = absurd (ground arith)
  topology_action-Honest digest reset_lab r p h k = absurd (ground arith)
  topology_action-Honest digest destroy_lab r p h k = absurd (ground arith)
  topology_action-Honest digest remove_instance_l1 r p h k = absurd (ground arith)
  topology_action-Honest digest add_instance_l1 r p h k = absurd (ground arith)
  topology_action-Honest digest remove_session_redis r p h k = absurd (ground arith)
  topology_action-Honest digest add_session_redis r p h k = absurd (ground arith)
  topology_action-Honest digest (other t) r p h k = absurd (ground arith)

  cache_action-Honest :
      (a : Action) (r : Record)
      → needs_reply a ≡ true
      → is_cache_action a ≡ true
      → Honest (cache_switch a o r)
  unfolding cache_switch needs_reply is_cache_action
  cache_action-Honest add_session_redis r h k = redis_command-Honest r true
  cache_action-Honest remove_session_redis r h k = redis_command-Honest r false
  cache_action-Honest add_instance r h k = absurd (ground arith)
  cache_action-Honest remove_instance r h k = absurd (ground arith)
  cache_action-Honest set_instance_performance r h k = absurd (ground arith)
  cache_action-Honest set_instance_weights r h k = absurd (ground arith)
  cache_action-Honest apply_adaptive_weights r h k = absurd (ground arith)
  cache_action-Honest set_balancing_mode r h k = absurd (ground arith)
  cache_action-Honest create_lab r h k = absurd (ground arith)
  cache_action-Honest reset_lab r h k = absurd (ground arith)
  cache_action-Honest destroy_lab r h k = absurd (ground arith)
  cache_action-Honest remove_instance_l1 r h k = absurd (ground arith)
  cache_action-Honest add_instance_l1 r h k = absurd (ground arith)
  cache_action-Honest (other t) r h k = absurd (ground arith)

  option-Honest :
      (x : Option String) (f : Act V W Completion) (g : String → Act V W Completion)
      → Honest f
      → ((t : String) → Honest (g t))
      → Honest (elim x [ none ↦ f | some t ↦ g t ])
  option-Honest none f g left right = left
  option-Honest (some t) f g left right = right t

  if_true-Honest :
      (t : Bool) (f g : Act V W Completion)
      → (t ≡ true → Honest f)
      → Honest g
      → Honest (if t then f else g)
  if_true-Honest true f g left right = left refl
  if_true-Honest false f g left right = right

  process_topology-Honest :
      (digest : String → String) (r : Record)
      → needs_reply r.action ≡ true
      → is_topology_action r.action ≡ true
      → Honest (process_topology digest o r)
  unfolding process_topology
  process_topology-Honest digest r h k =
      if-Honest o _ _ _ (topology_action-Honest digest r.action r _ h k)
        (failing-Honest o _ _ invalid_operation)

  process_cache-Honest :
      (r : Record)
      → needs_reply r.action ≡ true
      → is_cache_action r.action ≡ true
      → Honest (process_cache o r)
  unfolding process_cache
  process_cache-Honest r h k =
      if-Honest o _ _ _ (cache_action-Honest r.action r h k) invalid_cache-Honest

  -- For an action that the orchestrator carries out, if the worker reports a success that skips
  -- nothing, the last command it sent was answered with "succeeded".
  pub success_needs_answer :
      (digest : String → String) (r : Record) (m : Machine V W)
      → needs_reply r.action ≡ true
      → reports_change (outcome digest o r m).1 ≡ true
      → Replied (outcome digest o r m).0
  unfolding outcome
  success_needs_answer digest r m h e =
      if_true-Honest _ (process_topology digest o r) _ (process_topology-Honest digest r h)
        (if_true-Honest _ (process_cache o r) _ (process_cache-Honest r h)
          (option-Honest _ _ _ unsupported-Honest (λ typ. lab_command-Honest r typ)))
        m e
