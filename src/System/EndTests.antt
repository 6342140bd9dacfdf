-- ===== src/System/EndTests.antt =====
-- Runs of the end of a lab and of a refused completion.
use website_go_based.System.Lives.{no_revival, StillEnding, at_first, after_step}
use website_go_based.System.{destroy}
use website_go_based.Base.{
  In, inl, inr, ℕ, zero, suc, ◌+◌, ◌-◌, ◌*◌, ◌/◌, ◌%◌, ◌≤◌, ◌<◌, ◌≡◌, refl, sym, ap, subst, ◌∙◌,
  ◌≢◌, ◌↔◌, ◌⊎◌, Bool, true, false, not, ◌&&◌, ◌||◌, Option, none, some, List, [], ◌∷◌, ◌++◌, map,
  String, arith, Result, ok, err, require, reject, or_fail, ◌>>=◌, ◌>>◌, ltb, leb, ◌==◌,
  if◌then◌else◌, Bool-cases, Option-cases, length, length-append, All, All-append, All-map_pred,
  select, first, update_where, count_where, exists, >>=-ok, >>-ok, require-ok, reject-ok,
}
use website_go_based.Store.{SessionRow}
use website_go_based.Lab.Status.{terminating}
use website_go_based.Operation.Teardown.{
  TornDown, Ended, complete_destroy-TornDown, Ended, complete_cache_needs_running,
}
use website_go_based.Operation.Changes.{CacheResult}
use website_go_based.Operation.Caches.{is_running, complete_cache}
use website_go_based.Operation.Endings.{in_status, is_terminating, complete_destroy}
use website_go_based.Base.Text.{same_text}
use website_go_based.Operation.Queue.{
  claimable, claimed_row, claimed_record, complete_operation_record, has_id, earlier, claim,
  completed_row,
}
use website_go_based.Lab.Status.{expiring, terminated}
use website_go_based.Lab.Action.{add_session_redis}
use website_go_based.Store.{
  OperationRow, Store, succeeded, InstanceRow, running_op, row_running, row_terminated,
}
use website_go_based.Base.{
  ℕ, zero, suc, ◌+◌, ◌-◌, ◌*◌, ◌/◌, ◌%◌, ◌≤◌, ◌<◌, ◌≡◌, refl, sym, ap, subst, ◌∙◌, ◌≢◌, ◌↔◌, ◌⊎◌,
  inl, inr, Bool, true, false, not, ◌&&◌, ◌||◌, Option, none, some, List, [], ◌∷◌, ◌++◌, map,
  String, arith, Result, ok, err, require, reject, or_fail, ◌>>=◌, ◌>>◌, ltb, leb, ◌==◌,
  if◌then◌else◌, Bool-cases, Option-cases, length, length-append, All, All-append, All-map_pred,
  select, first, update_where, count_where, exists, >>=-ok, >>-ok, require-ok, reject-ok,
}
use website_go_based.System.{Record}
use website_go_based.Base.{In}
use website_go_based.Base.Int.{pos}
use website_go_based.System.Samples.{
  all_well, running_session, running_store, destroy_row, ending_store,
}

abbrev instance_1 : InstanceRow
instance_1 = record {
  lab_id = "lab-1";
  instance_name = "app-1";
  container_id = some "c-1";
  status = row_running;
  memory_limit_mb = pos 256;
  performance_percent = pos 100;
  processing_speed = pos 10;
  max_load = pos 100;
  current_weight = pos 100;
  updated_at = 8;
}

abbrev destroying_row : OperationRow
destroying_row = record destroy_row {
  status = running_op;
  lease_owner = some "worker-a";
  lease_expires_at = some 100;
}

abbrev destroying_store : Store
destroying_store = record ending_store {
  instances = instance_1 ∷ record instance_1 { lab_id = "lab-2"; container_id = some "c-2" } ∷ [];
  operations = destroying_row ∷ [];
}

abbrev destroy_record : Record
destroy_record = claimed_record "worker-a" 100 destroy_row

abbrev destroyed_store : Store
destroyed_store = record destroying_store {
  sessions =
      record running_session {
        status = terminated;
        terminated_at = some 50;
        termination_reason = some "user_requested";
        updated_at = 50;
      }
      ∷ [];
  instances =
      record instance_1 { status = row_terminated; container_id = none; updated_at = 50 }
      ∷ record instance_1 { lab_id = "lab-2"; container_id = some "c-2" }
      ∷ [];
  operations = completed_row succeeded false "" "" 50 destroying_row ∷ [];
}

destroyed_test :
    complete_destroy all_well destroying_store destroy_record "" "" 50 ≡ ok destroyed_store
unfolding complete_destroy website_go_based.Operation.Queue.run_statement
    website_go_based.Base.Text.String-discrete
    website_go_based.Operation.Endings.complete_destroy_success complete_operation_record
    count_where website_go_based.Operation.Queue.held_running claimed_record
    website_go_based.Operation.Endings.detach website_go_based.Operation.Endings.move_session
    in_status update_where website_go_based.Operation.Endings.terminated_session
    website_go_based.Operation.Endings.coalesce
destroyed_test = refl

complete_destroy-TornDown_example :
    TornDown "lab-1" destroying_store destroyed_store
    × (count_where (in_status "lab-1" is_terminating) destroying_store.sessions ≡ 1)
    × Ended "lab-1" 50 destroying_store.sessions destroyed_store.sessions
unfolding claimed_record
complete_destroy-TornDown_example =
    complete_destroy-TornDown all_well destroying_store destroy_record "" 50 destroyed_store
      destroyed_test

abbrev ending_session : SessionRow
ending_session = record running_session {
  status = terminating;
  termination_reason = some "user_requested";
  updated_at = 20;
}

no_revival_example : (y : SessionRow) × In y destroyed_store.sessions × StillEnding ending_session y
no_revival_example =
    no_revival (λ t. t) destroying_store destroyed_store ending_session
      (after_step destroying_store destroyed_store at_first
        (destroy all_well destroy_record "" "" 50 destroyed_test))
      (inl refl) (inr (inl refl))

abbrev warned_store : Store
warned_store = record running_store {
  sessions = record running_session { status = expiring } ∷ [];
  operations = record destroying_row { action = add_session_redis } ∷ [];
}

none_running_test : exists (in_status "lab-1" is_running) warned_store.sessions ≡ false
unfolding exists in_status website_go_based.Base.Text.String-discrete
none_running_test = refl

abbrev redis_result : CacheResult
redis_result = record {
  redis = some (record { container_id = "r-1"; container_name = "redis-1"; status = "running" });
}

complete_cache_needs_running_example :
    complete_cache all_well warned_store
      (record destroy_record { action = add_session_redis })
      redis_result
      ""
      ""
      60
    ≢ ok destroyed_store
unfolding claimed_record
complete_cache_needs_running_example =
    complete_cache_needs_running all_well warned_store
      (record destroy_record { action = add_session_redis }) redis_result "" 60 destroyed_store
      none_running_test
