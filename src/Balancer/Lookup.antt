-- ===== src/Balancer/Lookup.antt =====
-- services/platform-api/internal/balancer/repository.go: `FindAdjustment` after `EnqueueAdjustment`.
use website_go_based.Balancer.Adjustments.{lift_insert-ok}
use website_go_based.Base.Text.{holds}
use website_go_based.Lab.Action.{apply_adaptive_weights, Action-discrete}
use website_go_based.Lab.Repository.{insert_pending}
use website_go_based.Store.{
  Faults, Store, OperationRow, begin_tx, adaptive_payload, find_existing, Payload, pending,
}
use website_go_based.Balancer.Repository.{
  check_adjustment, enqueue_adjustment, lift_insert, complete_adjustment, run_statement, servers_of,
  find_adjustment,
}
use website_go_based.Balancer.{Adjustment, Operation, stale, same_text}
use website_go_based.Base.{
  ℕ, ◌≡◌, subst, true, false, ◌&&◌, none, some, List, [], ◌∷◌, String, arith, ok, require, exists,
  >>=-ok, >>-ok, refl, Bool, ◌++◌, first, first-append,
}

exists-and :
    (p q : OperationRow → Bool) (os : List OperationRow)
    → exists p os ≡ false
    → exists (λ o. p o && q o) os ≡ false
unfolding exists
exists-and p q [] e = refl
exists-and p q (o ∷ os) e = ground (arith, exists-and p q os)

same_text_refl : (t : String) → same_text t t ≡ true
same_text_refl t = ground arith

insert_pending-first :
    (fails : Faults) (s : Store) (a : Adjustment) (payload : Payload) (now : ℕ) (z : Store)
    (row : OperationRow)
    → insert_pending fails s a.operation_id a.lab_id a.requested_by apply_adaptive_weights none
        payload now
      ≡ ok (z, row)
    → (exists (λ o. same_text o.operation_id a.operation_id) s.operations ≡ false)
      × (z.operations ≡ s.operations ++ row ∷ [])
      × (row.operation_id ≡ a.operation_id)
      × (row.action ≡ apply_adaptive_weights)
      × (row.status ≡ pending)
      × (row.error_code ≡ none)
      × (row.error_message ≡ none)
      × (row.skipped ≡ false)
unfolding insert_pending
insert_pending-first fails s a payload now z row e = ground arith

abbrev of_adjustment : String → OperationRow → Bool
of_adjustment operation_id o =
    same_text o.operation_id operation_id && holds (Action-discrete o.action apply_adaptive_weights)

abbrev queued : String → Operation
queued operation_id = record {
  operation_id = operation_id;
  status = pending;
  error_code = "";
  error_message = "";
  skipped = false;
}

find_adjustment-first :
    (later : Faults) (z : Store) (operation_id : String) (row : OperationRow)
    → later find_existing ≡ false
    → first (of_adjustment operation_id) z.operations ≡ some row
    → row.operation_id ≡ operation_id
    → row.status ≡ pending
    → row.error_code ≡ none
    → row.error_message ≡ none
    → row.skipped ≡ false
    → find_adjustment later z operation_id ≡ ok (queued operation_id)
unfolding find_adjustment run_statement
find_adjustment-first later z operation_id row quiet found same starts code message skipped =
    rw (quiet, found, same, starts, code, message, skipped) refl

inserted_is_found :
    (fails later : Faults) (s : Store) (a : Adjustment) (payload : Payload) (now : ℕ) (z : Store)
    (row : OperationRow)
    → insert_pending fails s a.operation_id a.lab_id a.requested_by apply_adaptive_weights none
        payload now
      ≡ ok (z, row)
    → later find_existing ≡ false
    → find_adjustment later z a.operation_id ≡ ok (queued a.operation_id)
inserted_is_found fails later s a payload now z row e quiet =
    let (fresh, added, same, action, starts, code, message, skipped) =
      insert_pending-first fails s a payload now z row e in
    let mine : of_adjustment a.operation_id row ≡ true = rw (same, action) (ground arith) in
    let found : first (of_adjustment a.operation_id) z.operations ≡ some row = rw added (
      first-append (of_adjustment a.operation_id) s.operations row
        (exists-and (λ o. same_text o.operation_id a.operation_id)
          (λ o. holds (Action-discrete o.action apply_adaptive_weights)) s.operations fresh)
        mine) in
    find_adjustment-first later z a.operation_id row quiet found same starts code message skipped

-- What `EnqueueAdjustment` returned, `FindAdjustment` reads back from the store that it wrote, while
-- the statement of the latter does not fail.
pub enqueued_is_found :
    (digest : String → String) (fails later : Faults) (s : Store) (a : Adjustment) (now : ℕ)
    (s' : Store) (o : Operation)
    → enqueue_adjustment digest fails s a now ≡ ok (s', o)
    → later find_existing ≡ false
    → find_adjustment later s' a.operation_id ≡ ok o
unfolding enqueue_adjustment
enqueued_is_found digest fails later s a now s' o e quiet =
    let (_, e1) = >>-ok (require (complete_adjustment a) stale) _ e in
    let (_, e2) = >>-ok (run_statement fails begin_tx) _ e1 in
    let (checked, e3) = >>-ok (check_adjustment digest fails s a) _ e2 in
    let insert =
      insert_pending fails s a.operation_id a.lab_id a.requested_by apply_adaptive_weights none
        (adaptive_payload a.topology_fingerprint (servers_of a.weights) a.weights) now in
    let (p, inserted, e4) = >>=-ok (lift_insert insert) _ e3 in
    let last : p.0 ≡ s' = ground arith in
    let answer : queued a.operation_id ≡ o = ground arith in
    subst (λ z. find_adjustment later s' a.operation_id ≡ ok z) answer
      (subst (λ z. find_adjustment later z a.operation_id ≡ ok (queued a.operation_id)) last
        (inserted_is_found fails later s a _ now p.0 p.1 (lift_insert-ok insert p inserted) quiet))
