-- ===== src/System/Tests.antt =====
-- The creation of a lab and what follows from it.
use website_go_based.Lab.Repository.CreateRetry.{create_again}
use website_go_based.Lab.Repository.Admission.{create_within_limits}
use website_go_based.Base.Text.{same_text}
use website_go_based.System.Invariants.{one_operation_in_flight}
use website_go_based.Lab.Repository.{created_of, attempt, ActionResult, enqueue_action}
use website_go_based.Store.{in_flight_of}
use website_go_based.Lab.Scenario.{Scenario}
use website_go_based.Lab.Repository.Create.{
  CreateResult, create_transaction, create_locked, load_usage_of, user_active,
}
use website_go_based.Lab.Quota.{Quota}
use website_go_based.Base.{
  ℕ, zero, suc, ◌+◌, ◌-◌, ◌*◌, ◌/◌, ◌%◌, ◌≤◌, ◌<◌, ◌≡◌, refl, sym, ap, subst, ◌∙◌, ◌≢◌, ◌↔◌, ◌⊎◌,
  inl, inr, Bool, true, false, not, ◌&&◌, ◌||◌, Option, none, some, List, [], ◌∷◌, ◌++◌, map,
  String, arith, Result, ok, err, require, reject, or_fail, ◌>>=◌, ◌>>◌, ltb, leb, ◌==◌,
  if◌then◌else◌, Bool-cases, Option-cases, length, length-append, All, All-append, All-map_pred,
  select, first, update_where, count_where, exists, >>=-ok, >>-ok, require-ok, reject-ok,
}
use website_go_based.System.{Step, create, begin, step}
use website_go_based.Base.{In}
use website_go_based.Base.Int.{pos, ◌≤ℤ◌}
use website_go_based.System.Samples.{all_well, start_store, limits, created_store, created_result}

create_test :
    create_transaction all_well start_store 1 1 "op-1" "lab-1" limits 5
    ≡ ok (created_store, created_result)
unfolding create_transaction create_locked attempt
    website_go_based.Lab.Repository.Create.find_existing_create
    website_go_based.Lab.Repository.find_operation first exists
    website_go_based.Lab.Repository.Create.admit website_go_based.Lab.Scenario.scenario_for_course
    website_go_based.Base.Text.String-discrete website_go_based.Lab.Quota.admit_create
    website_go_based.Lab.Repository.Create.reservation_of load_usage_of count_where
    website_go_based.Base.Int.◌+ℤ◌ website_go_based.Lab.Repository.Create.insert_lab
    website_go_based.Lab.Repository.insert_pending
create_test = refl

pub create_step : Step (λ t. t) start_store created_store
create_step = create all_well 1 1 "op-1" "lab-1" limits 5 created_result create_test refl

one_operation_in_flight_example :
    (count_where (in_flight_of "lab-1") created_store.operations ≤ 1)
    × ((exists (λ x. same_text x.id "lab-1") created_store.sessions ≡ true)
        ⊎ (count_where (in_flight_of "lab-1") created_store.operations ≡ 0))
one_operation_in_flight_example =
    one_operation_in_flight (λ t. t) created_store "lab-1"
      (step start_store created_store (begin start_store refl refl) create_step)

create_within_limits_example :
    ((load_usage_of created_store).active_labs ≤ℤ limits.max_active_labs)
    × ((load_usage_of created_store).temporary_containers ≤ℤ limits.max_temporary_containers)
    × (count_where (user_active 1) created_store.sessions ≡ 1)
create_within_limits_example =
    create_within_limits all_well start_store 1 1 "op-1" "lab-1" limits 5 created_store
      created_result create_test refl

create_again_example :
    create_transaction (λ _. false) created_store 1 1 "op-1" "lab-9" limits 30
    ≡ ok (created_store, record created_result { existing = true })
create_again_example =
    create_again all_well start_store 1 1 "op-1" "lab-1" "lab-9" limits limits 5 30 created_store
      created_result create_test
