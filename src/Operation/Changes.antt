-- ===== src/Operation/Changes.antt =====
-- services/platform-api/internal/operation/repository.go: the completion of the topology actions, and the
-- results of these and of the cache actions.
use website_go_based.Base.{
  ℕ, Bool, true, false, not, ◌&&◌, Option, some, List, [], ◌∷◌, ◌++◌, String, Result, ok, err,
  require, reject, or_fail, ◌>>=◌, ◌>>◌, ◌==◌, if◌then◌else◌, select, update_where, count_where,
  exists,
}
use website_go_based.Lab.Action.{
  Action, add_instance, remove_instance, set_instance_performance, set_instance_weights,
  set_balancing_mode, apply_adaptive_weights, InstanceWeight, Mode, fixed, adaptive, other_mode,
}
use website_go_based.Lab.Status.{running}
use website_go_based.Operation.Provision.{
  ProvisionInstance, ProvisionRedis, is_blank, positive, instance_key,
}
use website_go_based.Operation.Endings.{move_session}
use website_go_based.Operation.Queue.{
  QueueError, state_conflict, incomplete, database, Record, run_statement,
  complete_operation_record,
}
use website_go_based.Store.{
  Store, SessionRow, InstanceRow, row_running, succeeded, failed_op, Faults, begin_tx, commit_tx,
  update_instances, running_or_expiring,
}

pub record TopologyResult : Type 0 where
  pub instance_row : Option ProvisionInstance
  pub removed_instance_id : String
  pub weights : List InstanceWeight
  pub balancing_mode : Mode
  pub skipped : Bool

-- `CacheResult`.
pub record CacheResult : Type 0 where
  pub redis : Option ProvisionRedis

unfoldable pub added_complete : ProvisionInstance → Bool
added_complete i =
    not (is_blank i.instance_name)
    && not (is_blank i.container_id)
    && positive i.memory_limit_mb
    && positive i.performance_percent
    && positive i.processing_speed
    && positive i.max_load
    && positive i.current_weight

unfoldable pub performance_complete : ProvisionInstance → Bool
performance_complete i =
    not (is_blank i.instance_name)
    && not (is_blank i.container_id)
    && positive i.performance_percent
    && positive i.processing_speed
    && positive i.max_load

-- INSERT INTO lab_instances, refused on a duplicate key.
unfoldable pub apply_added :
    Faults → Store → String → ProvisionInstance → ℕ → Result QueueError Store
apply_added fails s lab_id i now = do
  require (added_complete i) incomplete
  run_statement fails update_instances
  reject (exists (instance_key lab_id i.instance_name) s.instances) database
  ok (record s { instances = s.instances ++ row ∷ [] })
  where
    row : InstanceRow
    row = record {
      lab_id = lab_id;
      instance_name = i.instance_name;
      container_id = some i.container_id;
      status = row_running;
      memory_limit_mb = i.memory_limit_mb;
      performance_percent = i.performance_percent;
      processing_speed = i.processing_speed;
      max_load = i.max_load;
      current_weight = i.current_weight;
      updated_at = now;
    }

unfoldable pub apply_removed : Faults → Store → String → String → Result QueueError Store
apply_removed fails s lab_id removed = do
  reject (is_blank removed) incomplete
  run_statement fails update_instances
  require (count_where (instance_key lab_id removed) s.instances == 1) state_conflict
  ok (record s { instances = select (λ i. not (instance_key lab_id removed i)) s.instances })

unfoldable pub apply_performance :
    Faults → Store → String → ProvisionInstance → ℕ → Result QueueError Store
apply_performance fails s lab_id p now = do
  require (performance_complete p) incomplete
  run_statement fails update_instances
  require (count_where (instance_key lab_id p.instance_name) s.instances == 1) state_conflict
  ok (record s {
    instances =
        update_where (instance_key lab_id p.instance_name)
          (λ i. record i {
            container_id = some p.container_id;
            status = row_running;
            performance_percent = p.performance_percent;
            processing_speed = p.processing_speed;
            updated_at = now;
          })
          s.instances;
  })

unfoldable pub persist_weights :
    Faults → Store → String → List InstanceWeight → ℕ → Result QueueError Store
persist_weights fails s lab_id [] now = ok s
persist_weights fails s lab_id (w ∷ ws) now = do
  run_statement fails update_instances
  require (count_where (instance_key lab_id w.instance_id) s.instances == 1) state_conflict
  persist_weights fails
      (record s {
        instances =
            update_where (instance_key lab_id w.instance_id)
              (λ i. record i { current_weight = w.weight; updated_at = now }) s.instances;
      })
      lab_id ws now

abbrev pub no_weights : List InstanceWeight → Bool
no_weights [] = true
no_weights (_ ∷ _) = false

unfoldable pub apply_weights :
    Faults → Store → String → List InstanceWeight → ℕ → Result QueueError Store
apply_weights fails s lab_id weights now = do
  reject (no_weights weights) incomplete
  persist_weights fails s lab_id weights now

abbrev pub known_mode : Mode → Bool
known_mode fixed = true
known_mode adaptive = true
known_mode (other_mode _) = false

unfoldable pub apply_mode : Faults → Store → String → Mode → ℕ → Result QueueError Store
apply_mode fails s lab_id mode now = do
  require (known_mode mode) incomplete
  move_session fails s lab_id running_or_expiring
      (λ x. record x { balancing_mode = mode; updated_at = now })

-- `applyTopologyResult`; `incomplete` is also its answer for an action that is not a topology action.
unfoldable pub apply_topology_result :
    Faults → Store → String → Action → TopologyResult → ℕ → Result QueueError Store
apply_topology_result fails s lab_id add_instance v now = do
  i ← or_fail v.instance_row incomplete
  apply_added fails s lab_id i now
apply_topology_result fails s lab_id remove_instance v now =
    apply_removed fails s lab_id v.removed_instance_id
apply_topology_result fails s lab_id set_instance_performance v now = do
  i ← or_fail v.instance_row incomplete
  apply_performance fails s lab_id i now
apply_topology_result fails s lab_id set_instance_weights v now =
    apply_weights fails s lab_id v.weights now
apply_topology_result fails s lab_id apply_adaptive_weights v now =
    if v.skipped then ok s else apply_weights fails s lab_id v.weights now
apply_topology_result fails s lab_id set_balancing_mode v now =
    apply_mode fails s lab_id v.balancing_mode now
apply_topology_result fails s lab_id _ v now = err incomplete

abbrev pub is_adaptive : Action → Bool
is_adaptive apply_adaptive_weights = true
is_adaptive _ = false

-- The row of a lab after an effective action.
unfoldable pub active_session : ℕ → SessionRow → SessionRow
active_session now x = record x {
  status = running;
  last_effective_action_at = some now;
  updated_at = now;
}

unfoldable pub complete_topology_success :
    Faults → Store → Record → TopologyResult → String → String → ℕ → Result QueueError Store
complete_topology_success fails s r v code message now = do
  applied ← apply_topology_result fails s r.lab_id r.action v now
  done ← complete_operation_record fails applied r succeeded v.skipped code message now
  moved ←
      if is_adaptive r.action
      then ok done
      else move_session fails done r.lab_id running_or_expiring (active_session now)
  run_statement fails commit_tx
  ok moved

unfoldable pub complete_topology_error :
    Faults → Store → Record → TopologyResult → String → String → ℕ → Result QueueError Store
complete_topology_error fails s r v code message now = do
  done ← complete_operation_record fails s r failed_op false code message now
  run_statement fails commit_tx
  ok done

unfoldable pub complete_topology :
    Faults → Store → Record → TopologyResult → String → String → ℕ → Result QueueError Store
complete_topology fails s r v code message now = do
  run_statement fails begin_tx
  (if is_blank code
      then complete_topology_success fails s r v code message now
      else complete_topology_error fails s r v code message now)
