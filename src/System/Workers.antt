-- ===== src/System/Workers.antt =====
-- services/platform-api/internal/operation/worker.go: the passes of a worker as steps of the platform. What the
-- orchestrator, the cache runtime and the other workers do to the tables in the meantime is a
-- hypothesis, `Orderly`: they too only take steps.
pub mod TopologyHandlers
pub mod Handlers
pub mod Passes
use website_go_based.Operation.Worker.Changes.{
  route_performance, set_performance_command, weights_command, adaptive_command, topology_switch,
  process_topology, adaptive_payload_valid, validate_weights, after_validation,
}
use website_go_based.Balancer.Repository.{validate_adaptive}
use website_go_based.Base.{
  ℕ, zero, suc, ◌+◌, ◌-◌, ◌*◌, ◌/◌, ◌%◌, ◌≤◌, ◌<◌, ◌≡◌, refl, sym, ap, subst, ◌∙◌, ◌≢◌, ◌↔◌, ◌⊎◌,
  inl, inr, Bool, true, false, not, ◌&&◌, ◌||◌, Option, none, some, List, [], ◌∷◌, ◌++◌, map,
  String, arith, Result, ok, err, require, reject, or_fail, ◌>>◌, ltb, leb, ◌==◌, if◌then◌else◌,
  Bool-cases, Option-cases, length, length-append, All, All-append, All-map_pred, select, first,
  update_where, count_where, exists, >>=-ok, >>-ok, require-ok, reject-ok,
}
use website_go_based.Operation.Worker.{
  Outside, Machine, Act, give, ◌>>=◌, Command, CommandPayload, send, fresh_id, topology_command,
}
use website_go_based.Operation.Worker.Topology.{
  Completion, apply_servers, instance_reply, route_added, add_instance_command, pause,
  removal_failure, delete_instance, remove_instance_command, provision_done, reset_done,
  destroy_done, failure_done, topology_done, cache_done,
}
use website_go_based.Operation.Worker.Commands.{
  lab_command, set_cache, instance_cache, redis_command, cache_switch, process_cache, outcome,
  command_type_for_action,
}
use website_go_based.Balancer.{BalancerError}
use website_go_based.Operation.Queue.{
  QueueError, no_pending, lease_lost, state_conflict, incomplete, database,
}
use website_go_based.Store.{Faults}
use website_go_based.Operation.Worker.Process.{
  PassError, queue_result, finished, worked_on, after_claim, finish, after, finish_pass, work_on,
  process_one, run,
}
use website_go_based.Operation.Worker.Decoding.{TopologyView}
use website_go_based.Operation.Provision.{ProvisionInstance}
use website_go_based.Operation.Queue.{Record}
use website_go_based.Lab.Action.{
  create_lab, reset_lab, destroy_lab, add_instance, remove_instance, set_instance_performance,
  set_instance_weights, set_balancing_mode, apply_adaptive_weights, remove_instance_l1,
  add_instance_l1, remove_session_redis, add_session_redis, other, Action,
}
use website_go_based.Store.{Store, Server}
use website_go_based.System.{
  Step, Reach, step, take, start, fail, provide, restore, destroy, change, change_cache,
}

-- Any number of steps.
pub data Steps (digest : String → String) (s : Store) : Store → Type 0 where
  stay : (s' : Store) → s' ≡ s → Steps digest s s'
  go : (mid s' : Store) → Steps digest s mid → Step digest mid s' → Steps digest s s'

pub Steps-trans :
    (digest : String → String) (a b c : Store)
    → Steps digest b c
    → Steps digest a b
    → Steps digest a c
Steps-trans digest a b c (stay s' same) left = subst (λ z. Steps digest a z) (sym same) left
Steps-trans digest a b c (go mid s' more last) left =
    go mid c (Steps-trans digest a b mid more left) last

pub Steps-Reach :
    (digest : String → String) (s s' : Store) → Steps digest s s' → Reach digest s → Reach digest s'
Steps-Reach digest s s' (stay z same) r = subst (λ z. Reach digest z) (sym same) r
Steps-Reach digest s s' (go mid z more last) r = step mid s' (Steps-Reach digest s mid more r) last

-- The surroundings of a worker change the tables only by steps.
pub record Orderly {V W : Type 0} (digest : String → String) (o : Outside V W) : Type 0 where
  pub executes : (s : Store) (w : W) (c : Command) → Steps digest s (o.execute s w c).0.0
  pub caches :
      (call : Store → W → String → String → Bool → (Store × W) × Bool)
      → o.set_l1 ≡ some call
      → (s : Store) (w : W) (lab_id target : String) (enabled : Bool)
      → Steps digest s (call s w lab_id target enabled).0.0
  pub waits : (s : Store) (w : W) → Steps digest s (o.wait s w).0.0
  pub goes_on : (s : Store) (w : W) → Steps digest s (o.meantime s w).0

-- A part of a handler that changes the tables only by steps.
abbrev pub Steady : {V W A : Type 0} → (String → String) → Act V W A → Type 0
Steady {V} {W} digest f = (m : Machine V W) → Steps digest m.store (f m).0.store

module _ {V W : Type 0} (digest : String → String) (o : Outside V W) (h : Orderly digest o) where
  pub give-Steady : {A : Type 0} (a : A) → Steady {V = V} {W = W} digest (give a)
  unfolding give
  give-Steady a m = stay m.store refl

  pub bind-Steady :
      {A B : Type 0} (f : Act V W A) (k : A → Act V W B)
      → Steady digest f
      → ((a : A) → Steady digest (k a))
      → Steady digest (f >>= k)
  unfolding ◌>>=◌
  bind-Steady f k left right m =
      Steps-trans digest m.store (f m).0.store ((f >>= k) m).0.store (right (f m).1 (f m).0)
        (left m)

  pub if-Steady :
      {A : Type 0} (t : Bool) (f g : Act V W A)
      → Steady digest f
      → Steady digest g
      → Steady digest (if t then f else g)
  if-Steady true f g left right = left
  if-Steady false f g left right = right

  pub option-Steady :
      {A B : Type 0} (x : Option A) (f : Act V W B) (g : A → Act V W B)
      → Steady digest f
      → ((a : A) → Steady digest (g a))
      → Steady digest (elim x [ none ↦ f | some a ↦ g a ])
  option-Steady none f g left right = left
  option-Steady (some a) f g left right = right a

  pub result-Steady :
      {E A B : Type 0} (x : Result E A) (f : E → Act V W B) (g : A → Act V W B)
      → ((e : E) → Steady digest (f e))
      → ((a : A) → Steady digest (g a))
      → Steady digest (elim x [ err e ↦ f e | ok a ↦ g a ])
  result-Steady (err e) f g left right = left e
  result-Steady (ok a) f g left right = right a

  pub send-Steady : (c : Command) → Steady digest (send o c)
  unfolding send
  send-Steady c m = h.executes m.store m.world c

  pub fresh_id-Steady : Steady digest (fresh_id o)
  unfolding fresh_id
  fresh_id-Steady m = stay m.store refl
