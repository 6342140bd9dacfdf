-- ===== src/System/Workers/TopologyHandlers.antt =====
-- services/platform-api/internal/operation/worker.go: the handlers of the topology actions change the tables only
-- by steps of the platform.
use website_go_based.Operation.Worker.Changes.{
  route_performance, set_performance_command, weights_command, adaptive_command, topology_switch,
  process_topology, after_update, validate_weights, after_validation,
}
use website_go_based.System.Workers.{
  stay, Orderly, Steady, give-Steady, bind-Steady, if-Steady, send-Steady, fresh_id-Steady,
}
use website_go_based.Base.{
  refl, Bool, true, false, none, List, String, Result, ok, err, Option, some,
}
use website_go_based.Operation.Worker.{Outside, CommandPayload, fresh_id, topology_command, with_id}
use website_go_based.Operation.Worker.Topology.{
  apply_servers, route_added, add_instance_command, pause, delete_instance, remove_instance_command,
  after_create, Completion, after_delete,
}
use website_go_based.Balancer.{BalancerError}
use website_go_based.Operation.Worker.Decoding.{TopologyView}
use website_go_based.Operation.Provision.{ProvisionInstance}
use website_go_based.Operation.Queue.{Record}
use website_go_based.Lab.Action.{
  create_lab, reset_lab, destroy_lab, add_instance, remove_instance, set_instance_performance,
  set_instance_weights, set_balancing_mode, apply_adaptive_weights, remove_instance_l1,
  add_instance_l1, remove_session_redis, add_session_redis, other, Action,
}
use website_go_based.Store.{Server}

module _ {V W : Type 0} (digest : String → String) (o : Outside V W) (h : Orderly digest o) where
  with_id-Steady :
      (r : Record) (typ : String) (p : CommandPayload) (made : Result String String)
      → Steady digest (with_id o r typ p made)
  unfolding with_id
  with_id-Steady r typ p (err failure) = give-Steady digest o h none
  with_id-Steady r typ p (ok id) = send-Steady digest o h _

  pub topology_command-Steady :
      (r : Record) (typ : String) (p : CommandPayload) → Steady digest (topology_command o r typ p)
  unfolding topology_command
  topology_command-Steady r typ p =
      bind-Steady digest o h (fresh_id o) _ (fresh_id-Steady digest o h)
        (λ made. with_id-Steady r typ p made)

  apply_servers-Steady :
      (r : Record) (servers : List Server) → Steady digest (apply_servers o r servers)
  unfolding apply_servers
  apply_servers-Steady r servers =
      bind-Steady digest o h (topology_command o r _ _) _ (topology_command-Steady r _ _)
        (λ answer. give-Steady digest o h _)

  route_added-Steady :
      (r : Record) (p : TopologyView) (i : ProvisionInstance) → Steady digest (route_added o r p i)
  unfolding route_added
  route_added-Steady r p i =
      bind-Steady digest o h (apply_servers o r p.servers) _ (apply_servers-Steady r p.servers)
        (λ applied. if-Steady digest o h applied _ _ (give-Steady digest o h _) (
          bind-Steady digest o h (topology_command o r _ _) _ (topology_command-Steady r _ _)
            (λ answer. give-Steady digest o h _)))

  after_create-Steady :
      (r : Record) (p : TopologyView) (x : Result Completion ProvisionInstance)
      → Steady digest (after_create o r p x)
  unfolding after_create
  after_create-Steady r p (err failure) = give-Steady digest o h failure
  after_create-Steady r p (ok i) = route_added-Steady r p i

  add_instance_command-Steady :
      (r : Record) (p : TopologyView) → Steady digest (add_instance_command o r p)
  unfolding add_instance_command
  add_instance_command-Steady r p =
      bind-Steady digest o h (topology_command o r _ _) _ (topology_command-Steady r _ _)
        (λ answer. after_create-Steady r p _)

  pause-Steady : Steady digest (pause o)
  unfolding pause
  pause-Steady m = h.waits m.store m.world

  after_delete-Steady :
      (r : Record) (p : TopologyView) (x : Option Completion) → Steady digest (after_delete o r p x)
  unfolding after_delete
  after_delete-Steady r p (some failure) =
      bind-Steady digest o h (apply_servers o r _) _ (apply_servers-Steady r _)
        (λ back. give-Steady digest o h failure)
  after_delete-Steady r p none = give-Steady digest o h _

  delete_instance-Steady : (r : Record) (p : TopologyView) → Steady digest (delete_instance o r p)
  unfolding delete_instance
  delete_instance-Steady r p =
      bind-Steady digest o h (topology_command o r _ _) _ (topology_command-Steady r _ _)
        (λ answer. after_delete-Steady r p _)

  remove_instance_command-Steady :
      (r : Record) (p : TopologyView) → Steady digest (remove_instance_command o r p)
  unfolding remove_instance_command
  remove_instance_command-Steady r p =
      bind-Steady digest o h (apply_servers o r p.servers) _ (apply_servers-Steady r p.servers)
        (λ applied.
          if-Steady digest o h applied _ _
            (bind-Steady digest o h (pause o) _ pause-Steady (λ stopped.
              if-Steady digest o h stopped _ _
                (bind-Steady digest o h (apply_servers o r _) _ (apply_servers-Steady r _)
                  (λ back. give-Steady digest o h _))
                (delete_instance-Steady r p)))
            (give-Steady digest o h _))

  route_performance-Steady :
      (r : Record) (p : TopologyView) (i : ProvisionInstance)
      → Steady digest (route_performance o r p i)
  unfolding route_performance
  route_performance-Steady r p i =
      bind-Steady digest o h (apply_servers o r p.servers) _ (apply_servers-Steady r p.servers)
        (λ applied. if-Steady digest o h applied _ _ (give-Steady digest o h _) (
          bind-Steady digest o h (topology_command o r _ _) _ (topology_command-Steady r _ _)
            (λ answer.
              bind-Steady digest o h (apply_servers o r _) _ (apply_servers-Steady r _)
                (λ back. give-Steady digest o h _))))

  after_update-Steady :
      (r : Record) (p : TopologyView) (x : Result Completion ProvisionInstance)
      → Steady digest (after_update o r p x)
  unfolding after_update
  after_update-Steady r p (err failure) = give-Steady digest o h failure
  after_update-Steady r p (ok i) = route_performance-Steady r p i

  set_performance_command-Steady :
      (r : Record) (p : TopologyView) → Steady digest (set_performance_command o r p)
  unfolding set_performance_command
  set_performance_command-Steady r p =
      bind-Steady digest o h (topology_command o r _ _) _ (topology_command-Steady r _ _)
        (λ answer. after_update-Steady r p _)

  weights_command-Steady :
      (r : Record) (p : TopologyView) (message : String)
      → Steady digest (weights_command o r p message)
  unfolding weights_command
  weights_command-Steady r p message =
      bind-Steady digest o h (apply_servers o r p.servers) _ (apply_servers-Steady r p.servers)
        (λ applied. give-Steady digest o h _)

  after_validation-Steady :
      (r : Record) (p : TopologyView) (valid : Result BalancerError Bool)
      → Steady digest (after_validation o r p valid)
  unfolding after_validation
  after_validation-Steady r p (err failure) = give-Steady digest o h _
  after_validation-Steady r p (ok false) = give-Steady digest o h _
  after_validation-Steady r p (ok true) = weights_command-Steady r p _

  adaptive_command-Steady :
      (r : Record) (p : TopologyView) → Steady digest (adaptive_command digest o r p)
  unfolding adaptive_command
  adaptive_command-Steady r p =
      if-Steady digest o h _ _ _
        (bind-Steady digest o h (validate_weights digest o r p) _
          (λ m. unfold validate_weights in stay m.store refl)
          (λ valid. after_validation-Steady r p valid))
        (give-Steady digest o h _)

  topology_switch-Steady :
      (a : Action) (r : Record) (p : TopologyView) → Steady digest (topology_switch a digest o r p)
  unfolding topology_switch
  topology_switch-Steady add_instance r p = add_instance_command-Steady r p
  topology_switch-Steady remove_instance r p = remove_instance_command-Steady r p
  topology_switch-Steady set_instance_performance r p = set_performance_command-Steady r p
  topology_switch-Steady set_instance_weights r p = weights_command-Steady r p _
  topology_switch-Steady set_balancing_mode r p = give-Steady digest o h _
  topology_switch-Steady apply_adaptive_weights r p = adaptive_command-Steady r p
  topology_switch-Steady create_lab r p = give-Steady digest o h _
  topology_switch-Steady reset_lab r p = give-Steady digest o h _
  topology_switch-Steady destroy_lab r p = give-Steady digest o h _
  topology_switch-Steady remove_instance_l1 r p = give-Steady digest o h _
  topology_switch-Steady add_instance_l1 r p = give-Steady digest o h _
  topology_switch-Steady remove_session_redis r p = give-Steady digest o h _
  topology_switch-Steady add_session_redis r p = give-Steady digest o h _
  topology_switch-Steady (other t) r p = give-Steady digest o h _

  pub process_topology-Steady : (r : Record) → Steady digest (process_topology digest o r)
  unfolding process_topology
  process_topology-Steady r =
      if-Steady digest o h _ _ _ (topology_switch-Steady r.action r _) (give-Steady digest o h _)
