-- ===== src/System/Workers/Handlers.antt =====
-- services/platform-api/internal/operation/worker.go: the other handlers, and `processOne` between the marking and
-- the completion of an operation, change the tables only by steps of the platform.
use website_go_based.Operation.Worker.Changes.{process_topology}
use website_go_based.System.Workers.{
  stay, Orderly, Steady, give-Steady, bind-Steady, if-Steady, option-Steady, send-Steady,
  fresh_id-Steady,
}
use website_go_based.System.Workers.TopologyHandlers.{process_topology-Steady}
use website_go_based.Base.{refl, inl, inr, Bool, true, false, String, Option-cases, Result, ok, err}
use website_go_based.Operation.Worker.{Outside, send, fresh_id}
use website_go_based.Operation.Worker.Commands.{
  lab_command, set_cache, instance_cache, redis_command, cache_switch, process_cache, outcome,
  lab_with_id, redis_with_id,
}
use website_go_based.Operation.Queue.{Record}
use website_go_based.Lab.Action.{
  create_lab, reset_lab, destroy_lab, add_instance, remove_instance, set_instance_performance,
  set_instance_weights, set_balancing_mode, apply_adaptive_weights, remove_instance_l1,
  add_instance_l1, remove_session_redis, add_session_redis, other, Action,
}

module _ {V W : Type 0} (digest : String → String) (o : Outside V W) (h : Orderly digest o) where
  lab_with_id-Steady :
      (r : Record) (typ : String) (made : Result String String)
      → Steady digest (lab_with_id o r typ made)
  unfolding lab_with_id
  lab_with_id-Steady r typ (err failure) = give-Steady digest o h _
  lab_with_id-Steady r typ (ok id) =
      bind-Steady digest o h (send o _) _ (send-Steady digest o h _)
        (λ answer. give-Steady digest o h _)

  lab_command-Steady : (r : Record) (typ : String) → Steady digest (lab_command o r typ)
  unfolding lab_command
  lab_command-Steady r typ =
      bind-Steady digest o h (fresh_id o) _ (fresh_id-Steady digest o h)
        (λ made. lab_with_id-Steady r typ made)

  redis_with_id-Steady :
      (r : Record) (adding : Bool) (made : Result String String)
      → Steady digest (redis_with_id o r adding made)
  unfolding redis_with_id
  redis_with_id-Steady r adding (err failure) = give-Steady digest o h _
  redis_with_id-Steady r adding (ok id) =
      bind-Steady digest o h (send o _) _ (send-Steady digest o h _)
        (λ answer. give-Steady digest o h _)

  redis_command-Steady : (r : Record) (adding : Bool) → Steady digest (redis_command o r adding)
  unfolding redis_command
  redis_command-Steady r adding =
      bind-Steady digest o h (fresh_id o) _ (fresh_id-Steady digest o h)
        (λ made. redis_with_id-Steady r adding made)

  set_cache-Steady :
      (r : Record) (target : String) (enabled : Bool) → Steady digest (set_cache o r target enabled)
  unfolding set_cache
  set_cache-Steady r target enabled m = elim (Option-cases o.set_l1) [
    | inl missing ↦ rw missing (stay m.store refl)
    | inr (call, configured) ↦
        rw configured (h.caches call configured m.store m.world r.lab_id target enabled)
  ]

  instance_cache-Steady : (r : Record) (enabled : Bool) → Steady digest (instance_cache o r enabled)
  unfolding instance_cache
  instance_cache-Steady r enabled =
      if-Steady digest o h _ _ _
        (bind-Steady digest o h (set_cache o r _ enabled) _ (set_cache-Steady r _ enabled)
          (λ done. give-Steady digest o h _))
        (give-Steady digest o h _)

  cache_switch-Steady : (a : Action) (r : Record) → Steady digest (cache_switch a o r)
  unfolding cache_switch
  cache_switch-Steady remove_instance_l1 r = instance_cache-Steady r false
  cache_switch-Steady add_instance_l1 r = instance_cache-Steady r true
  cache_switch-Steady add_session_redis r = redis_command-Steady r true
  cache_switch-Steady remove_session_redis r = redis_command-Steady r false
  cache_switch-Steady add_instance r = redis_command-Steady r false
  cache_switch-Steady remove_instance r = redis_command-Steady r false
  cache_switch-Steady set_instance_performance r = redis_command-Steady r false
  cache_switch-Steady set_instance_weights r = redis_command-Steady r false
  cache_switch-Steady set_balancing_mode r = redis_command-Steady r false
  cache_switch-Steady apply_adaptive_weights r = redis_command-Steady r false
  cache_switch-Steady create_lab r = redis_command-Steady r false
  cache_switch-Steady reset_lab r = redis_command-Steady r false
  cache_switch-Steady destroy_lab r = redis_command-Steady r false
  cache_switch-Steady (other t) r = redis_command-Steady r false

  process_cache-Steady : (r : Record) → Steady digest (process_cache o r)
  unfolding process_cache
  process_cache-Steady r =
      if-Steady digest o h _ _ _ (cache_switch-Steady r.action r) (give-Steady digest o h _)

  pub outcome-Steady : (r : Record) → Steady digest (outcome digest o r)
  unfolding outcome
  outcome-Steady r =
      if-Steady digest o h _ (process_topology digest o r) _ (process_topology-Steady digest o h r)
        (if-Steady digest o h _ (process_cache o r) _ (process_cache-Steady r) (
          option-Steady digest o h _ _ _ (give-Steady digest o h _)
            (λ typ. lab_command-Steady r typ)))
