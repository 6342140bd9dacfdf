-- ===== src/Lab/Service.antt =====
-- services/platform-api/internal/lab/session.go: the calls of `Service` that change labs. Each checks what it is
-- given and calls the repository once, with the time cut to microseconds. A service over the
-- repository of this package has all of its interfaces.
use website_go_based.Lab.Repository.Calls.{enqueue_cache_action-Effect, topology_transaction-Effect}
use website_go_based.Lab.Repository.CacheActions.{enqueue_cache_action}
use website_go_based.Lab.Repository.Effects.{Effect, AskedFor}
use website_go_based.Lab.Repository.Create.{CreateResult, lift_quota, create}
use website_go_based.Lab.Repository.{ActionResult, enqueue_action}
use website_go_based.Lab.Quota.{Quota, validate}
use website_go_based.Lab.Errors.{LabError, invalid_request, internal}
use website_go_based.Lab.Action.{
  ActionInput, valid_action_input, destroy_lab, reset_lab, is_cache_action,
}
use website_go_based.Store.{Faults, Store}
use website_go_based.Lab.Repository.TopologyActions.{enqueue_topology_action, topology_transaction}
use website_go_based.Lab.Identity.{valid_lab_id, valid_operation_id}
use website_go_based.Base.{
  ℕ, ◌-◌, ◌%◌, ◌≡◌, ◌≢◌, inl, inr, Bool, true, not, ◌&&◌, ◌||◌, Option, none, some, String, arith,
  Result, ok, err, ◌==◌, if◌then◌else◌, Bool-cases,
}

-- The store after a call, and the answer.
abbrev pub Answer : Type 0 → Type 0
Answer A = Store × Result LabError A

-- A transaction: rolled back on an error.
abbrev pub commit_of : {A : Type 0} → Store → Result LabError (Store × A) → Answer A
commit_of s (err e) = (s, err e)
commit_of s (ok (s', a)) = (s', ok a)

-- `Truncate(time.Microsecond)` of a number of nanoseconds.
unfoldable pub truncate_microsecond : ℕ → ℕ
truncate_microsecond now = now - now % 1000

unfoldable pub valid_call : ℕ → String → String → Bool
valid_call user_id lab_id operation_id =
    not (user_id == 0) && valid_lab_id lab_id && valid_operation_id operation_id

-- `Service.Create`; `id` is the answer of `newID`.
unfoldable pub service_create :
    Faults → Store → ℕ → ℕ → String → Option String → Quota → ℕ → Answer CreateResult
service_create fails s user_id course_id operation_id id q now =
    if (user_id == 0) || (course_id == 0) || not (valid_operation_id operation_id)
    then (s, err invalid_request)
    else elim (lift_quota (validate q)) [
      | err e ↦ (s, err e)
      | ok _ ↦ elim id [
        | none ↦ (s, err internal)
        | some lab_id ↦
            create fails s user_id course_id operation_id lab_id q (truncate_microsecond now)
      ]
    ]

unfoldable pub service_reset : Faults → Store → ℕ → String → String → ℕ → Answer ActionResult
service_reset fails s user_id lab_id operation_id now =
    if valid_call user_id lab_id operation_id
    then commit_of s (
        enqueue_action fails s user_id lab_id operation_id reset_lab none
          (truncate_microsecond now))
    else (s, err invalid_request)

unfoldable pub service_terminate : Faults → Store → ℕ → String → String → ℕ → Answer ActionResult
service_terminate fails s user_id lab_id operation_id now =
    if valid_call user_id lab_id operation_id
    then commit_of s (
        enqueue_action fails s user_id lab_id operation_id destroy_lab (some "user_requested")
          (truncate_microsecond now))
    else (s, err invalid_request)

-- `Service.Action`.
unfoldable pub service_action :
    Faults → Store → ℕ → String → ActionInput → Quota → ℕ → Answer ActionResult
service_action fails s user_id lab_id input q now =
    if not (valid_call user_id lab_id input.operation_id) || not (valid_action_input input)
    then (s, err invalid_request)
    else if is_cache_action input.action_type
    then commit_of s (enqueue_cache_action fails s user_id lab_id input (truncate_microsecond now))
    else enqueue_topology_action fails s user_id lab_id input q (truncate_microsecond now)

commit_of-ok :
    (s : Store) (x : Result LabError (Store × ActionResult)) (s' : Store) (r : ActionResult)
    → commit_of s x ≡ (s', ok r)
    → x ≡ ok (s', r)
commit_of-ok s (err e) s' r h = ground arith
commit_of-ok s (ok p) s' r h = ground arith

topology-ok :
    (fails : Faults) (s : Store) (user_id : ℕ) (lab_id : String) (input : ActionInput) (q : Quota)
    (now : ℕ) (s' : Store) (r : ActionResult)
    → enqueue_topology_action fails s user_id lab_id input q now ≡ (s', ok r)
    → topology_transaction fails s user_id lab_id input q now ≡ ok (s', r)
unfolding enqueue_topology_action
topology-ok fails s user_id lab_id input q now s' r h = ground arith

-- A call of `Service.Action` that answers an operation was made by a user, with valid identifiers and
-- a valid input, and either found an operation of that identifier stored for the same lab, user and
-- input, answered it and left the store as it was, or added and answered one, pending, to a lab that
-- had no operation in flight.
pub service_action-Effect :
    (fails : Faults) (s : Store) (user_id : ℕ) (lab_id : String) (input : ActionInput) (q : Quota)
    (now : ℕ) (s' : Store) (r : ActionResult)
    → service_action fails s user_id lab_id input q now ≡ (s', ok r)
    → (user_id ≢ 0)
      × (valid_lab_id lab_id ≡ true)
      × (valid_operation_id input.operation_id ≡ true)
      × (valid_action_input input ≡ true)
      × Effect s s' r lab_id input.operation_id (AskedFor user_id lab_id input)
unfolding service_action valid_call
service_action-Effect fails s user_id lab_id input q now s' r h = (
  ground arith,
  ground arith,
  ground arith,
  ground arith,
  elim (Bool-cases (is_cache_action input.action_type)) [
    | inl cache ↦
        enqueue_cache_action-Effect fails s user_id lab_id input (truncate_microsecond now) s' r (
          commit_of-ok s
            (enqueue_cache_action fails s user_id lab_id input (truncate_microsecond now)) s' r
            (ground arith))
    | inr topology ↦
        topology_transaction-Effect fails s user_id lab_id input q (truncate_microsecond now) s' r (
          topology-ok fails s user_id lab_id input q (truncate_microsecond now) s' r (ground arith))
  ],
)
