-- ===== src/Lab/Repository/Create.antt =====
-- services/platform-api/internal/lab/repository.go: `Create`. The global admission lock is released
-- after the commit: a failure of that release is reported although the store is committed.
use website_go_based.Base.{
  ℕ, ◌+◌, Bool, true, false, not, ◌&&◌, ◌||◌, Option, none, some, List, [], ◌∷◌, ◌++◌, String,
  Result, ok, err, require, reject, or_fail, ◌>>=◌, ◌>>◌, ◌==◌, if◌then◌else◌, first, count_where,
  exists,
}
use website_go_based.Base.Int.{pos}
use website_go_based.Base.Text.{same_text, holds}
use website_go_based.Lab.Action.{create_lab, Action-discrete, fixed}
use website_go_based.Lab.Errors.{
  LabError, already_active, course_not_found, lab_unavailable, operation_conflict, internal, quota,
}
use website_go_based.Lab.Quota.{Quota, Reservation, Usage, QuotaError, admit_create}
use website_go_based.Lab.Repository.{
  CreatedOperation, created_of, find_operation, find_session, attempt, insert_pending,
}
use website_go_based.Lab.Scenario.{Scenario, scenario_for_course}
use website_go_based.Lab.Status.{preparing, active}
use website_go_based.Store.{
  Store, SessionRow, OperationRow, Faults, begin_tx, find_existing, lock_user, lock_admission,
  recheck_existing, load_course, find_active, load_usage, insert_session, upsert_progress,
  commit_tx, release_admission, ScenarioType, multi_level_cache, create_payload,
}

pub record CreateResult : Type 0 where
  pub session : SessionRow
  pub operation : CreatedOperation
  pub existing : Bool

abbrev pub CreateTx : Type 0
CreateTx = Result LabError (Store × CreateResult)

-- `findExistingCreate`: the operation joined with its session.
unfoldable pub find_existing_create : Store → String → Option (SessionRow × OperationRow)
find_existing_create s operation_id = elim (find_operation s operation_id) [
  | none ↦ none
  | some o ↦ elim (find_session s o.lab_id) [ none ↦ none | some x ↦ some (x, o) ]
]

unfoldable pub matching_create : Store → SessionRow × OperationRow → ℕ → ℕ → CreateTx
unfolding created_of
matching_create s (x, o) user_id course_id =
    if not (o.requested_by == user_id)
      || not (holds (Action-discrete o.action create_lab))
      || not (x.course_id == course_id)
    then err operation_conflict
    else ok (s, record { session = x; operation = created_of o; existing = true })

-- `status IN (activeStatuses)`, which are the active states of status.go.
unfoldable pub user_active : ℕ → SessionRow → Bool
unfolding active
user_active user_id x = (x.user_id == user_id) && active x.status

-- `CASE WHEN scenario_type = 'multi_level_cache' THEN 4 ELSE 1 END`
unfoldable pub containers_of : ScenarioType → ℕ
containers_of multi_level_cache = 4
containers_of _ = 1

unfoldable pub used_containers : List SessionRow → ℕ
unfolding containers_of active
used_containers [] = 0
used_containers (x ∷ xs) =
    (if active x.status then containers_of x.scenario_type else 0) + used_containers xs

unfoldable pub load_usage_of : Store → Usage
unfolding used_containers active
load_usage_of s = record {
  active_labs = pos (count_where (λ x. active x.status) s.sessions);
  temporary_containers = pos (used_containers s.sessions);
}

-- An error of quota.go is passed on.
abbrev pub lift_quota : Result QuotaError (Unit {0}) → Result LabError (Unit {0})
lift_quota (ok u) = ok u
lift_quota (err e) = err (quota e)

unfoldable pub new_session : String → ℕ → ℕ → Scenario → ℕ → SessionRow
new_session lab_id user_id course_id scenario now = record {
  id = lab_id;
  user_id = user_id;
  course_id = course_id;
  scenario_type = scenario.scenario_type;
  scenario_template_id = scenario.template_id;
  status = preparing;
  balancing_mode = fixed;
  mysql_db_name = none;
  mysql_db_user = none;
  redis_enabled = false;
  started_at = none;
  last_effective_action_at = none;
  terminated_at = none;
  termination_reason = none;
  created_at = now;
  updated_at = now;
}

unfoldable pub reservation_of : Scenario → Reservation
reservation_of scenario = record {
  temporary_containers = pos scenario.temporary_containers;
  instances = pos scenario.initial_instances;
}

-- The checks under the admission lock: the course, the scenario, the user's labs and the quota.
unfoldable pub admit : Faults → Store → ℕ → ℕ → Quota → Result LabError Scenario
unfolding attempt
admit fails s user_id course_id q = do
  attempt fails load_course
  course ← or_fail (first (λ c. c.id == course_id) s.courses) course_not_found
  scenario ← or_fail (scenario_for_course course.slug course.status) lab_unavailable
  attempt fails find_active
  reject (exists (user_active user_id) s.sessions) already_active
  attempt fails load_usage
  lift_quota (admit_create q (load_usage_of s) (reservation_of scenario))
  ok scenario

-- The inserts: the primary key of a session is its identifier.
unfoldable pub insert_lab : Faults → Store → ℕ → ℕ → String → String → Scenario → ℕ → CreateTx
unfolding attempt new_session created_of
insert_lab fails s user_id course_id operation_id lab_id scenario now = do
  attempt fails insert_session
  reject (exists (λ x. same_text x.id lab_id) s.sessions) operation_conflict
  let session = new_session lab_id user_id course_id scenario now
  (s', row) ←
      insert_pending fails (record s { sessions = s.sessions ++ session ∷ [] }) operation_id lab_id
        user_id create_lab none
        (create_payload course_id scenario.scenario_type scenario.template_id
          scenario.initial_instances scenario.redis_required)
        now
  attempt fails upsert_progress
  attempt fails commit_tx
  ok (
    record s' { last_labs = (user_id, course_id, lab_id) ∷ s'.last_labs },
    record { session = session; operation = created_of row; existing = false },
  )

unfoldable pub create_locked : Faults → Store → ℕ → ℕ → String → String → Quota → ℕ → CreateTx
create_locked fails s user_id course_id operation_id lab_id q now = do
  attempt fails lock_user
  require (exists (λ u. u == user_id) s.users) internal
  attempt fails lock_admission
  attempt fails recheck_existing
  elim (find_existing_create s operation_id) [
    | some found ↦ matching_create s found user_id course_id
    | none ↦ do
      scenario ← admit fails s user_id course_id q
      insert_lab fails s user_id course_id operation_id lab_id scenario now
  ]

unfoldable pub create_transaction : Faults → Store → ℕ → ℕ → String → String → Quota → ℕ → CreateTx
create_transaction fails s user_id course_id operation_id lab_id q now = do
  attempt fails begin_tx
  attempt fails find_existing
  elim (find_existing_create s operation_id) [
    | some found ↦ matching_create s found user_id course_id
    | none ↦ create_locked fails s user_id course_id operation_id lab_id q now
  ]

-- The store after the call, and the answer.
unfoldable pub create :
    Faults → Store → ℕ → ℕ → String → String → Quota → ℕ → Store × Result LabError CreateResult
create fails s user_id course_id operation_id lab_id q now =
    elim (create_transaction fails s user_id course_id operation_id lab_id q now) [
      | err e ↦ (s, err e)
      | ok (s', r) ↦ (s', if not r.existing && fails release_admission then err internal else ok r)
    ]
