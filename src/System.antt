-- ===== src/System.antt =====
-- The labs of the platform as one machine: the calls of services/platform-api/internal/lab,
-- services/platform-api/internal/operation, services/platform-api/internal/balancer and
-- services/platform-api/internal/lifecycle that write the tables,
-- each a step that may meet any database faults, any arguments and any other worker's locks. A call
-- that returns an error leaves the store as it was and is no step; a sweep of the lifecycle is a
-- sequence of `expire` steps. `digest` is the hash that names the operations of the lifecycle.
pub mod Changes
pub mod Invariants
pub mod Lives
pub mod Workers
pub mod Samples
mod Tests
mod QueueTests
mod LabTests
mod EndTests
mod WorkerTests
mod BalancerTests
use website_go_based.Base.{
  ℕ, zero, suc, ◌+◌, ◌-◌, ◌*◌, ◌/◌, ◌%◌, ◌≤◌, ◌<◌, ◌≡◌, refl, sym, ap, subst, ◌∙◌, ◌≢◌, ◌↔◌, ◌⊎◌,
  inl, inr, Bool, true, false, not, ◌&&◌, ◌||◌, Option, none, some, List, [], ◌∷◌, ◌++◌, map,
  String, arith, Result, ok, err, require, reject, or_fail, ◌>>=◌, ◌>>◌, ltb, leb, ◌==◌,
  if◌then◌else◌, Bool-cases, Option-cases, length, length-append, All, All-append, All-map_pred,
  select, first, update_where, count_where, exists, >>=-ok, >>-ok, require-ok, reject-ok,
}
use website_go_based.Balancer.{Adjustment, Operation}
use website_go_based.Balancer.Repository.{enqueue_adjustment}
use website_go_based.Lab.Action.{Action, ActionInput}
use website_go_based.Lab.Quota.{Quota}
use website_go_based.Lab.Repository.{ActionResult, enqueue_action}
use website_go_based.Lab.Repository.CacheActions.{enqueue_cache_action}
use website_go_based.Lab.Repository.TopologyActions.{topology_transaction}
use website_go_based.Lab.Repository.Create.{CreateResult, create_transaction}
use website_go_based.Operation.Queue.{Record, claim, mark_running, complete_failure}
use website_go_based.Operation.Provision.{ProvisionResult}
use website_go_based.Operation.Endings.{complete_provision, complete_reset, complete_destroy}
use website_go_based.Operation.Changes.{TopologyResult, CacheResult, complete_topology}
use website_go_based.Operation.Caches.{complete_cache}
use website_go_based.Lifecycle.{Config, Transition}
use website_go_based.Lifecycle.Advance.{advance_one}
use website_go_based.Store.{Store, OperationRow, Faults}

pub data Step (digest : String → String) (s s' : Store) : Type 0 where
  create :
      (fails : Faults) (user_id course_id : ℕ) (operation_id lab_id : String) (q : Quota) (now : ℕ)
      (r : CreateResult)
      → create_transaction fails s user_id course_id operation_id lab_id q now ≡ ok (s', r)
      → r.existing ≡ false
      → Step digest s s'
  act :
      (fails : Faults) (user_id : ℕ) (lab_id operation_id : String) (action : Action)
      (reason : Option String) (now : ℕ) (r : ActionResult)
      → enqueue_action fails s user_id lab_id operation_id action reason now ≡ ok (s', r)
      → r.existing ≡ false
      → Step digest s s'
  act_cache :
      (fails : Faults) (user_id : ℕ) (lab_id : String) (input : ActionInput) (now : ℕ)
      (r : ActionResult)
      → enqueue_cache_action fails s user_id lab_id input now ≡ ok (s', r)
      → r.existing ≡ false
      → Step digest s s'
  act_topology :
      (fails : Faults) (user_id : ℕ) (lab_id : String) (input : ActionInput) (q : Quota) (now : ℕ)
      (r : ActionResult)
      → topology_transaction fails s user_id lab_id input q now ≡ ok (s', r)
      → r.existing ≡ false
      → Step digest s s'
  adjust :
      (fails : Faults) (a : Adjustment) (now : ℕ) (o : Operation)
      → enqueue_adjustment digest fails s a now ≡ ok (s', o)
      → Step digest s s'
  take :
      (fails : Faults) (locked : OperationRow → Bool) (owner : String) (now expires : ℕ)
      (r : Record)
      → claim fails s locked owner now expires ≡ ok (s', r)
      → Step digest s s'
  start :
      (fails : Faults) (r : Record) (now expires : ℕ)
      → mark_running fails s r now expires ≡ ok s'
      → Step digest s s'
  fail :
      (fails : Faults) (r : Record) (code message : String) (now : ℕ)
      → complete_failure fails s r code message now ≡ ok s'
      → Step digest s s'
  provide :
      (fails : Faults) (r : Record) (v : ProvisionResult) (code message : String) (now : ℕ)
      → complete_provision fails s r v code message now ≡ ok s'
      → Step digest s s'
  restore :
      (fails : Faults) (r : Record) (v : ProvisionResult) (code message : String) (now : ℕ)
      → complete_reset fails s r v code message now ≡ ok s'
      → Step digest s s'
  destroy :
      (fails : Faults) (r : Record) (code message : String) (now : ℕ)
      → complete_destroy fails s r code message now ≡ ok s'
      → Step digest s s'
  change :
      (fails : Faults) (r : Record) (v : TopologyResult) (code message : String) (now : ℕ)
      → complete_topology fails s r v code message now ≡ ok s'
      → Step digest s s'
  change_cache :
      (fails : Faults) (r : Record) (v : CacheResult) (code message : String) (now : ℕ)
      → complete_cache fails s r v code message now ≡ ok s'
      → Step digest s s'
  expire :
      (fails : Faults) (lab_id : String) (now : ℕ) (c : Config) (t : Option Transition)
      → advance_one digest fails s lab_id now c ≡ ok (s', t)
      → Step digest s s'

-- The stores that a platform without labs can come to.
pub data Reach (digest : String → String) : Store → Type 0 where
  begin : (s : Store) → s.sessions ≡ [] → s.operations ≡ [] → Reach digest s
  step : (s s' : Store) → Reach digest s → Step digest s s' → Reach digest s'
