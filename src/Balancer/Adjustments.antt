-- ===== src/Balancer/Adjustments.antt =====
-- services/platform-api/internal/balancer/repository.go: what a successful `EnqueueAdjustment` did and checked.
use website_go_based.Lab.Topology.{value_of}
use website_go_based.Lab.Action.{apply_adaptive_weights}
use website_go_based.Lab.Repository.Effects.{Inserted, insert_pending-Inserted}
use website_go_based.Lab.Repository.{find_session, insert_pending}
use website_go_based.Store.{
  Faults, Store, OperationRow, SessionRow, in_flight_of, begin_tx, lock_session, check_queue,
  adaptive_payload,
}
use website_go_based.Lab.Errors.{LabError}
use website_go_based.Base.Int.{ℤ, ◌≤ℤ◌}
use website_go_based.Balancer.Repository.{
  check_adjustment, enqueue_adjustment, in_range, instances_of, lift_insert, balanced,
  complete_adjustment, validate_adjustment_weights, run_statement, servers_of,
}
use website_go_based.Balancer.{
  every, weight_map, Instance, InstanceWeight, pos, Adjustment, value_of, Operation, nonzero,
  topology_fingerprint, stale, weights_equal, busy,
}
use website_go_based.Base.{
  ℕ, ◌≡◌, subst, ◌⊎◌, inl, inr, true, false, ◌&&◌, none, some, List, [], ◌∷◌, String, arith, Result,
  ok, err, require, reject, or_fail, ◌==◌, Option-cases, All, exists, >>=-ok, >>-ok, length,
  require-ok,
}

-- A weight that the balancer asks for.
abbrev pub InRange : ℤ → Type 0
InRange v = (pos 1 ≤ℤ v) × (v ≤ℤ pos 100)

value_of-cons :
    (k : String) (v : ℤ) (n : List (String × ℤ)) (j : String)
    → (value_of ((k, v) ∷ n) j ≡ value_of n j) ⊎ (value_of ((k, v) ∷ n) j ≡ v)
unfolding value_of
value_of-cons k v n j = ground arith

weight_map-value :
    (m : List (String × ℤ)) (ws : List InstanceWeight) (m' : List (String × ℤ)) (id : String)
    → weight_map in_range m ws ≡ some m'
    → (value_of m' id ≡ value_of m id) ⊎ InRange (value_of m' id)
unfolding weight_map
weight_map-value m [] m' id e = inl (ground arith)
weight_map-value m (w ∷ ws) m' id e = ground (
  arith,
  weight_map-value ((w.instance_id, w.weight) ∷ m) ws m' id,
  value_of-cons w.instance_id w.weight m id,
)

-- Every instance gets a weight from 1 to 100.
pub every-InRange :
    (m : List (String × ℤ)) (is : List Instance)
    → ((id : String) → (value_of m id ≡ pos 0) ⊎ InRange (value_of m id))
    → every (λ i. nonzero (value_of m i.id)) is ≡ true
    → All (λ i. InRange (value_of m i.id)) is
unfolding every
every-InRange m [] range e = tt
every-InRange m (i ∷ is) range e =
    (ground (arith, range i.id), every-InRange m is range (ground arith))

pub check_adjustment-ok :
    (digest : String → String) (fails : Faults) (s : Store) (a : Adjustment)
    → check_adjustment digest fails s a ≡ ok tt
    → (x : SessionRow) × (find_session s a.lab_id ≡ some x)
      × (x.user_id ≡ a.requested_by)
      × (balanced x ≡ true)
      × (exists (in_flight_of a.lab_id) s.operations ≡ false)
unfolding check_adjustment
check_adjustment-ok digest fails s a e = elim (Option-cases (find_session s a.lab_id)) [
  | inl missing ↦ absurd (ground arith)
  | inr (x, found) ↦ (x, found, ground arith, ground arith, ground arith)
]

-- The current instances of the lab are those that were sampled, and the weights are not theirs yet.
pub check_adjustment-instances :
    (digest : String → String) (fails : Faults) (s : Store) (a : Adjustment)
    → check_adjustment digest fails s a ≡ ok tt
    → (is : List Instance) × (instances_of fails s a.lab_id ≡ ok is)
      × (topology_fingerprint digest is ≡ a.topology_fingerprint)
      × (validate_adjustment_weights is a.weights ≡ ok tt)
      × (weights_equal is a.weights ≡ false)
unfolding check_adjustment
check_adjustment-instances digest fails s a e =
    let (_, e1) = >>-ok (run_statement fails lock_session) _ e in
    let (x, found, e2) = >>=-ok (or_fail (find_session s a.lab_id) stale) _ e1 in
    let (_, e3) = >>-ok (require ((x.user_id == a.requested_by) && balanced x) stale) _ e2 in
    let (_, e4) = >>-ok (run_statement fails check_queue) _ e3 in
    let (_, e5) = >>-ok (reject (exists (in_flight_of a.lab_id) s.operations) busy) _ e4 in
    let (is, locked, e6) = >>=-ok (instances_of fails s a.lab_id) _ e5 in
    (is, locked, ground arith, ground arith, ground arith)

pub lift_insert-ok :
    (x : Result LabError (Store × OperationRow)) (p : Store × OperationRow)
    → lift_insert x ≡ ok p
    → x ≡ ok p
lift_insert-ok (ok q) p e = ground arith
lift_insert-ok (err q) p e = ground arith

-- A successful `EnqueueAdjustment` checked the lab and the weights, and added one pending operation.
pub enqueue_adjustment-ok :
    (digest : String → String) (fails : Faults) (s : Store) (a : Adjustment) (now : ℕ) (s' : Store)
    (o : Operation)
    → enqueue_adjustment digest fails s a now ≡ ok (s', o)
    → (check_adjustment digest fails s a ≡ ok tt)
      × ((row : OperationRow) × Inserted s s' row a.lab_id a.operation_id)
unfolding enqueue_adjustment
enqueue_adjustment-ok digest fails s a now s' o e =
    let (_, e1) = >>-ok (require (complete_adjustment a) stale) _ e in
    let (_, e2) = >>-ok (run_statement fails begin_tx) _ e1 in
    let (checked, e3) = >>-ok (check_adjustment digest fails s a) _ e2 in
    let insert =
      insert_pending fails s a.operation_id a.lab_id a.requested_by apply_adaptive_weights none
        (adaptive_payload a.topology_fingerprint (servers_of a.weights) a.weights) now in
    let (p, inserted, e4) = >>=-ok (lift_insert insert) _ e3 in
    let last : p.0 ≡ s' = ground arith in
    (
      checked,
      (
        p.1,
        subst (λ z. Inserted s z p.1 a.lab_id a.operation_id) last
            (insert_pending-Inserted fails s a.operation_id a.lab_id a.requested_by
              apply_adaptive_weights none
              (adaptive_payload a.topology_fingerprint (servers_of a.weights) a.weights) now p.0 p.1
              (lift_insert-ok insert p inserted)),
      ),
    )

validate_adjustment_weights-InRange :
    (is : List Instance) (ws : List InstanceWeight)
    → validate_adjustment_weights is ws ≡ ok tt
    → (m : List (String × ℤ)) × (weight_map in_range [] ws ≡ some m)
      × All (λ i. InRange (value_of m i.id)) is
unfolding validate_adjustment_weights
validate_adjustment_weights-InRange is ws e =
    let (_, e1) = >>-ok (require (length is == length ws) stale) _ e in
    let (m, found, e2) = >>=-ok (or_fail (weight_map in_range [] ws) stale) _ e1 in
    let mapped : weight_map in_range [] ws ≡ some m = ground arith in
    (
      m,
      mapped,
      every-InRange m is (λ id. unfold value_of in ground (arith, weight_map-value [] ws m id))
          (require-ok _ _ e2),
    )

-- When `EnqueueAdjustment` succeeds, the lab belongs to the user of the adjustment and no operation of
-- it was in flight; the instances of the lab have the sampled fingerprint, each of them is given a
-- weight from 1 to 100, and one pending operation of the lab is added.
pub adjustment_is_current :
    (digest : String → String) (fails : Faults) (s : Store) (a : Adjustment) (now : ℕ) (s' : Store)
    (o : Operation)
    → enqueue_adjustment digest fails s a now ≡ ok (s', o)
    → ((x : SessionRow) × (find_session s a.lab_id ≡ some x)
        × (x.user_id ≡ a.requested_by)
        × (balanced x ≡ true))
      × (exists (in_flight_of a.lab_id) s.operations ≡ false)
      × ((is : List Instance) × (instances_of fails s a.lab_id ≡ ok is)
          × (topology_fingerprint digest is ≡ a.topology_fingerprint)
          × ((m : List (String × ℤ)) × (weight_map in_range [] a.weights ≡ some m)
              × All (λ i. InRange (value_of m i.id)) is))
      × ((row : OperationRow) × Inserted s s' row a.lab_id a.operation_id)
adjustment_is_current digest fails s a now s' o e =
    let (checked, added) = enqueue_adjustment-ok digest fails s a now s' o e in
    let (x, found, mine, suits, idle) = check_adjustment-ok digest fails s a checked in
    let (is, locked, same, valid, new) = check_adjustment-instances digest fails s a checked in
    (
      (x, found, mine, suits),
      idle,
      (is, locked, same, validate_adjustment_weights-InRange is a.weights valid),
      added,
    )
