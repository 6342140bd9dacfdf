-- ===== src/System/QueueTests.antt =====
-- Runs of the queue: two operations, two workers and a lease that expires.
use website_go_based.Operation.Queue.Held.{after_mark}
use website_go_based.Operation.Queue.Leases.{
  LostBy, claimed_completes, lease_excludes, reclaim_revokes,
}
use website_go_based.Operation.Queue.Claims.{claim_takes_oldest, Waiting, Describes, Before}
use website_go_based.Base.Text.{same_text}
use website_go_based.System.Invariants.{OperationLives, step-OperationLives}
use website_go_based.Operation.Queue.{
  claimable, claimed_row, claimed_record, complete_operation_record, has_id, earlier, claim,
  completed_row, running_row,
}
use website_go_based.Store.{OperationRow, Store, succeeded, claimed}
use website_go_based.Base.{
  ℕ, zero, suc, ◌+◌, ◌-◌, ◌*◌, ◌/◌, ◌%◌, ◌≤◌, ◌<◌, ◌≡◌, refl, sym, ap, subst, ◌∙◌, ◌≢◌, ◌↔◌, ◌⊎◌,
  inl, inr, Bool, true, false, not, ◌&&◌, ◌||◌, Option, none, some, List, [], ◌∷◌, ◌++◌, map,
  String, arith, Result, ok, err, require, reject, or_fail, ◌>>=◌, ◌>>◌, ltb, leb, ◌==◌,
  if◌then◌else◌, Bool-cases, Option-cases, length, length-append, All, All-append, All-map_pred,
  select, first, update_where, count_where, exists, >>=-ok, >>-ok, require-ok, reject-ok,
}
use website_go_based.System.{take, Record, claim, mark_running}
use website_go_based.Base.{In}
use website_go_based.System.Samples.{all_well, row_1, created_store}

abbrev unlocked : OperationRow → Bool
unlocked = λ _. false

abbrev row_2 : OperationRow
row_2 = record row_1 { id = 2; operation_id = "op-2"; lab_id = "lab-2"; created_at = 6 }

abbrev queue_store : Store
queue_store = record created_store { operations = row_1 ∷ row_2 ∷ [] }

abbrev taken_store : Store
taken_store = record queue_store { operations = claimed_row "worker-a" 10 100 row_1 ∷ row_2 ∷ [] }

abbrev record_a : Record
record_a = claimed_record "worker-a" 100 row_1

take_test : claim all_well queue_store unlocked "worker-a" 10 100 ≡ ok (taken_store, record_a)
unfolding claim website_go_based.Operation.Queue.run_statement
    website_go_based.Operation.Queue.oldest select claimable count_where has_id update_where
take_test = refl

claim_takes_oldest_example :
    (o : OperationRow) × In o queue_store.operations
    × Waiting 10 o
    × (unlocked o ≡ false)
    × Describes "worker-a" 100 o record_a
    × (taken_store.operations
        ≡ update_where
            (λ x. x.id == o.id)
            (λ x. record x {
              status = claimed;
              lease_owner = some "worker-a";
              lease_expires_at = some 100;
              attempt_count = x.attempt_count + 1;
              updated_at = 10;
            })
            queue_store.operations)
    × All (λ x. (¬ Waiting 10 x) ⊎ (unlocked x ≡ true) ⊎ Before o x) queue_store.operations
claim_takes_oldest_example =
    claim_takes_oldest all_well queue_store unlocked "worker-a" 10 100 taken_store record_a
      take_test

abbrev retaken_store : Store
retaken_store = record queue_store {
  operations = claimed_row "worker-b" 200 300 (claimed_row "worker-a" 10 100 row_1) ∷ row_2 ∷ [];
}

abbrev record_b : Record
record_b = claimed_record "worker-b" 300 (claimed_row "worker-a" 10 100 row_1)

retake_test : claim all_well taken_store unlocked "worker-b" 200 300 ≡ ok (retaken_store, record_b)
unfolding claim website_go_based.Operation.Queue.run_statement
    website_go_based.Operation.Queue.oldest select claimable claimed_row count_where has_id
    update_where
retake_test = refl

-- The second worker marks the operation as running.
abbrev reworked_store : Store
reworked_store = record queue_store {
  operations =
      running_row 210 400 (claimed_row "worker-b" 200 300 (claimed_row "worker-a" 10 100 row_1))
      ∷ row_2
      ∷ [];
}

remark_test : mark_running all_well retaken_store record_b 210 400 ≡ ok reworked_store
unfolding website_go_based.Operation.Queue.mark_running
    website_go_based.Operation.Queue.run_statement count_where
    website_go_based.Operation.Queue.held_claimed claimed_row claimed_record
    website_go_based.Base.Text.String-discrete update_where
remark_test = refl

reclaim_revokes_example : LostBy reworked_store record_a
unfolding claimed_row claimed_record website_go_based.Base.Text.String-discrete
reclaim_revokes_example =
    reclaim_revokes all_well taken_store unlocked "worker-b" 200 300 400 retaken_store
      reworked_store record_b record_a retake_test
      (after_mark all_well 210 400 reworked_store remark_test) refl refl

abbrev working_store : Store
working_store = record queue_store {
  operations = running_row 12 130 (claimed_row "worker-a" 10 100 row_1) ∷ row_2 ∷ [];
}

mark_test : mark_running all_well taken_store record_a 12 130 ≡ ok working_store
unfolding website_go_based.Operation.Queue.mark_running
    website_go_based.Operation.Queue.run_statement count_where
    website_go_based.Operation.Queue.held_claimed claimed_row claimed_record
    website_go_based.Base.Text.String-discrete update_where
mark_test = refl

abbrev both_taken_store : Store
both_taken_store = record queue_store {
  operations =
      running_row 12 130 (claimed_row "worker-a" 10 100 row_1)
      ∷ claimed_row "worker-b" 120 220 row_2
      ∷ [];
}

abbrev record_2 : Record
record_2 = claimed_record "worker-b" 220 row_2

take_other_test :
    claim all_well working_store unlocked "worker-b" 120 220 ≡ ok (both_taken_store, record_2)
unfolding claim website_go_based.Operation.Queue.run_statement
    website_go_based.Operation.Queue.oldest select claimable claimed_row count_where has_id
    update_where running_row
take_other_test = refl

lease_excludes_example : record_2.id ≢ record_a.id
lease_excludes_example =
    lease_excludes all_well all_well queue_store unlocked unlocked "worker-a" "worker-b" 10 100 130
      120 220 taken_store working_store both_taken_store record_a record_2 take_test
      (after_mark all_well 12 130 working_store mark_test) (omega arith) take_other_test

claimed_completes_example :
    (marked : Store) × (mark_running (λ _. false) taken_store record_a 11 110 ≡ ok marked)
    × ((end : ℕ)
        → (done : Store) × (complete_operation_record
              (λ _. false)
              marked
              record_a
              succeeded
              false
              ""
              ""
              end
            ≡ ok done))
claimed_completes_example =
    claimed_completes all_well queue_store unlocked "worker-a" 10 100 11 110 taken_store record_a
      succeeded false "" "" take_test

step-OperationLives_example : OperationLives queue_store.operations taken_store.operations
step-OperationLives_example =
    step-OperationLives (λ t. t) queue_store taken_store
      (take all_well unlocked "worker-a" 10 100 record_a take_test)
