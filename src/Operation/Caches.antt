-- ===== src/Operation/Caches.antt =====
-- services/platform-api/internal/operation/repository.go: `CompleteCache`.
use website_go_based.Base.{
  ℕ, Bool, true, false, ◌&&◌, ◌||◌, Option, none, some, List, [], ◌∷◌, ◌++◌, String, Result, ok,
  reject, or_fail, ◌>>=◌, ◌>>◌, if◌then◌else◌, first, update_where, exists,
}
use website_go_based.Base.Text.{same_text}
use website_go_based.Lab.Action.{Action, add_session_redis, remove_session_redis}
use website_go_based.Lab.Status.{Status, running}
use website_go_based.Operation.Provision.{ProvisionRedis, is_blank}
use website_go_based.Operation.Endings.{move_session}
use website_go_based.Operation.Queue.{
  QueueError, incomplete, database, Record, run_statement, complete_operation_record,
}
use website_go_based.Store.{
  Store, SessionRow, ResourceRow, row_ready, row_deleted, ResourceType, session_redis, succeeded,
  failed_op, Faults, begin_tx, commit_tx, update_resources, select_session,
}
use website_go_based.Operation.Changes.{CacheResult}

abbrev pub is_running : Status → Bool
is_running running = true
is_running _ = false

abbrev is_session_redis : ResourceType → Bool
is_session_redis session_redis = true
is_session_redis _ = false

unfoldable pub redis_of : String → ResourceRow → Bool
redis_of lab_id x = same_text x.lab_id lab_id && is_session_redis x.resource_type

-- The unique key (lab_id, resource_type, resource_name).
unfoldable pub redis_key : String → String → ResourceRow → Bool
unfolding redis_of
redis_key lab_id name x = redis_of lab_id x && same_text x.resource_name name

unfoldable pub remove_redis : Faults → Store → String → ℕ → Result QueueError Store
remove_redis fails s lab_id now = do
  run_statement fails update_resources
  ok (record s {
    resources =
        update_where (redis_of lab_id)
          (λ x. record x { status = row_deleted; external_id = none; updated_at = now })
          s.resources;
  })

unfoldable pub upsert_redis : String → String → String → ℕ → List ResourceRow → List ResourceRow
upsert_redis lab_id name external now rows =
    if exists (redis_key lab_id name) rows
    then update_where (redis_key lab_id name)
        (λ x. record x { external_id = some external; status = row_ready; updated_at = now }) rows
    else rows
      ++ record {
        lab_id = lab_id;
        resource_type = session_redis;
        resource_name = name;
        external_id = some external;
        status = row_ready;
        updated_at = now;
      }
        ∷ []

unfoldable pub add_redis :
    Faults → Store → String → Option ProvisionRedis → ℕ → Result QueueError Store
add_redis fails s lab_id redis now = do
  x ← or_fail redis incomplete
  reject (is_blank x.container_id || is_blank x.container_name) incomplete
  run_statement fails update_resources
  ok (record s { resources = upsert_redis lab_id x.container_name x.container_id now s.resources })

unfoldable pub apply_cache_result :
    Action → Faults → Store → String → CacheResult → ℕ → Result QueueError Store
apply_cache_result remove_session_redis fails s lab_id v now = remove_redis fails s lab_id now
apply_cache_result add_session_redis fails s lab_id v now = add_redis fails s lab_id v.redis now
apply_cache_result _ fails s lab_id v now = ok s

-- The flag that is written: what the action set, or what the row says.
unfoldable pub redis_enabled_after : Action → Faults → Store → String → Result QueueError Bool
redis_enabled_after remove_session_redis fails s lab_id = ok false
redis_enabled_after add_session_redis fails s lab_id = ok true
redis_enabled_after _ fails s lab_id = do
  run_statement fails select_session
  x ← or_fail (first (λ x. same_text x.id lab_id) s.sessions) database
  ok x.redis_enabled

unfoldable pub cache_session : Bool → ℕ → SessionRow → SessionRow
cache_session enabled now x = record x {
  redis_enabled = enabled;
  last_effective_action_at = some now;
  updated_at = now;
}

unfoldable pub complete_cache_success :
    Faults → Store → Record → CacheResult → String → String → ℕ → Result QueueError Store
complete_cache_success fails s r v code message now = do
  applied ← apply_cache_result r.action fails s r.lab_id v now
  done ← complete_operation_record fails applied r succeeded false code message now
  enabled ← redis_enabled_after r.action fails done r.lab_id
  moved ← move_session fails done r.lab_id is_running (cache_session enabled now)
  run_statement fails commit_tx
  ok moved

unfoldable pub complete_cache_error :
    Faults → Store → Record → CacheResult → String → String → ℕ → Result QueueError Store
complete_cache_error fails s r v code message now = do
  done ← complete_operation_record fails s r failed_op false code message now
  run_statement fails commit_tx
  ok done

unfoldable pub complete_cache :
    Faults → Store → Record → CacheResult → String → String → ℕ → Result QueueError Store
complete_cache fails s r v code message now = do
  run_statement fails begin_tx
  (if is_blank code
      then complete_cache_success fails s r v code message now
      else complete_cache_error fails s r v code message now)
