-- ===== src/System/WorkerTests.antt =====
-- Runs of the worker: an instance whose upstream is refused, a lab that is provisioned, and a pass
-- over the queue.
use website_go_based.Operation.Worker.Configuration.{WorkerConfig, new_worker, short_lease}
use website_go_based.Base.{
  ℕ, suc, ◌≡◌, refl, ◌⊎◌, true, false, Option, none, some, [], ◌∷◌, arith, ok, if◌then◌else◌, err,
}
use website_go_based.Base.Int.{pos}
use website_go_based.Base.Text.{same_text, String-discrete}
use website_go_based.Operation.Worker.{
  Outside, Machine, Response, Command, CommandPayload, topology_command, named_app, new_app,
}
use website_go_based.Operation.Worker.Decoding.{TopologyView, blank_view, decode_instance}
use website_go_based.Operation.Worker.Topology.{add_instance_command}
use website_go_based.Operation.Worker.Commands.{outcome}
use website_go_based.Operation.Worker.Rollback.{Sent, reports_success, created_or_deleted}
use website_go_based.Operation.Worker.Answers.{Replied, reports_change}
use website_go_based.Operation.Worker.Answers.Commands.{success_needs_answer, needs_reply}
use website_go_based.Operation.Provision.{ProvisionInstance, ProvisionResult}
use website_go_based.Operation.Queue.{Record, claimed_record}
use website_go_based.System.Samples.{all_well, row_1, created_store}
use website_go_based.System.Workers.{stay, Orderly}

abbrev new_instance : ProvisionInstance
new_instance = record {
  instance_name = "app-2";
  container_id = "c-2";
  container_name = "lab-1-app-2";
  status = "running";
  cpu_positive = true;
  memory_limit_mb = pos 256;
  performance_percent = pos 100;
  processing_speed = pos 10;
  max_load = pos 100;
  current_weight = pos 100;
}

abbrev provision : ProvisionResult
provision = record {
  lab_id = "lab-1";
  scenario_template_id = "application_cluster_scenario_v1";
  database_name = "db";
  database_user = "user";
  network_id = "n-1";
  network_name = "net";
  instances = new_instance ∷ [];
  redis = none;
}

-- The orchestrator answers every command with the same status but APPLY_LAB_UPSTREAM, which it refuses.
abbrev answer_to : Command → Response Unit
answer_to c = record {
  status = if same_text c.command_type "APPLY_LAB_UPSTREAM" then "failed" else "succeeded";
  result = tt;
  error = tt;
}

abbrev outside : Outside Unit ℕ
outside = record {
  clock = λ w. w;
  faults = λ w. all_well;
  locked = λ w o. false;
  meantime = λ s w. (s, suc w);
  new_id = λ w. (suc w, ok "cmd-1");
  execute = λ s w c. ((s, suc w), some (answer_to c));
  set_l1 = none;
  wait = λ s w. ((s, w), false);
  readable = λ reader p. true;
  read_instance = λ v. some new_instance;
  read_provision = λ v. some provision;
  read_redis = λ v. none;
  text_field = λ v key. none;
}

abbrev start_machine : Machine Unit ℕ
start_machine = record { store = created_store; world = 10; log = [] }

abbrev create_record : Record
create_record = claimed_record "worker-a" 100 row_1

abbrev view : TopologyView
view = record blank_view {
  scenario_template_id = "application_cluster_scenario_v1";
  instance_name = "app-2";
  performance_percent = pos 100;
}

created_or_deleted_example :
    (reports_success (add_instance_command outside create_record view start_machine).1 ≡ true)
    ⊎ ((answer : Option (Response Unit)) × Sent
          (add_instance_command outside create_record view start_machine).0
          "DELETE_APP_INSTANCE"
          (named_app "app-2")
          answer)
unfolding topology_command website_go_based.Operation.Worker.◌>>=◌ String-discrete decode_instance
    website_go_based.Operation.Worker.Decoding.instance_usable
created_or_deleted_example =
    created_or_deleted outside (λ w. ("cmd-1", refl)) create_record view start_machine
      (record { status = "succeeded"; result = tt; error = tt }) new_instance refl refl refl

success_needs_answer_example : Replied (outcome (λ t. t) outside create_record start_machine).0
unfolding needs_reply claimed_record reports_change outcome
    website_go_based.Lab.Action.is_cache_action
    website_go_based.Operation.Worker.Commands.command_type_for_action
    website_go_based.Operation.Worker.◌>>=◌ website_go_based.Operation.Worker.fresh_id
    website_go_based.Operation.Worker.give website_go_based.Operation.Worker.send String-discrete
    website_go_based.Operation.Worker.command_of
    website_go_based.Operation.Worker.Decoding.decode_provision
    website_go_based.Operation.Worker.Decoding.result_usable
    website_go_based.Operation.Worker.Decoding.instance_usable
    website_go_based.Operation.Worker.Decoding.identity_matches
success_needs_answer_example =
    success_needs_answer outside (λ t. t) create_record start_machine refl refl

orderly : Orderly (λ t. t) outside
orderly = record {
  executes = λ s w c. stay s refl;
  caches = λ call e s w lab_id target enabled. absurd (ground arith);
  waits = λ s w. stay s refl;
  goes_on = λ s w. stay s refl;
}

abbrev worker_config : WorkerConfig
worker_config = record {
  owner = "worker-1";
  poll_interval = pos 1;
  lease_duration = pos 3;
  command_timeout = pos 2;
}

new_worker_test : new_worker true worker_config ≡ ok worker_config
unfolding new_worker String-discrete
new_worker_test = refl

short_lease_test :
    new_worker true (record worker_config { lease_duration = pos 2 }) ≡ err short_lease
unfolding new_worker String-discrete
short_lease_test = refl
