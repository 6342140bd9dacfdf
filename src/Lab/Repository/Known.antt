-- ===== src/Lab/Repository/Known.antt =====
-- The enqueueing methods of services/platform-api/internal/lab add operations only to labs that exist.
use website_go_based.Store.{SessionRow, Store}
use website_go_based.Lab.Repository.TopologyActions.{
  topology_session, topology_transaction, matching_topology_action, enqueue_topology_locked,
}
use website_go_based.Lab.Repository.CacheActions.{
  enqueue_cache_action, enqueue_cache_locked, matching_cache_action,
}
use website_go_based.Lab.Repository.{
  enqueue_action, enqueue_locked, find_session, Faults, matching_action_result, same_text, Action,
  ActionInput, ActionResult, find_operation,
}
use website_go_based.Base.{
  ℕ, ◌≡◌, inl, inr, Bool, true, false, Option, some, List, [], ◌∷◌, String, arith, ok, Option-cases,
  first, exists, >>=-ok,
}
use website_go_based.Lab.Quota.{Quota}

-- The lab has a session.
abbrev pub Known : Store → String → Type 0
Known s lab_id = exists (λ x. same_text x.id lab_id) s.sessions ≡ true

first-exists :
    (p : SessionRow → Bool) (xs : List SessionRow) (x : SessionRow)
    → first p xs ≡ some x
    → exists p xs ≡ true
unfolding first exists
first-exists p [] x e = ground arith
first-exists p (y ∷ ys) x e = ground (arith, first-exists p ys x)

pub find_session-Known :
    (s : Store) (lab_id : String) (x : SessionRow) → find_session s lab_id ≡ some x → Known s lab_id
unfolding find_session
find_session-Known s lab_id x e = first-exists (λ x. same_text x.id lab_id) s.sessions x e

enqueue_locked-Known :
    (fails : Faults) (s : Store) (user_id : ℕ) (lab_id operation_id : String) (action : Action)
    (reason : Option String) (now : ℕ) (s' : Store) (r : ActionResult)
    → enqueue_locked fails s user_id lab_id operation_id action reason now ≡ ok (s', r)
    → Known s lab_id
unfolding enqueue_locked
enqueue_locked-Known fails s user_id lab_id operation_id action reason now s' r e =
    elim (Option-cases (find_session s lab_id)) [
      | inl missing ↦ absurd (ground arith)
      | inr (session, found) ↦ find_session-Known s lab_id session found
    ]

pub enqueue_action-Known :
    (fails : Faults) (s : Store) (user_id : ℕ) (lab_id operation_id : String) (action : Action)
    (reason : Option String) (now : ℕ) (s' : Store) (r : ActionResult)
    → enqueue_action fails s user_id lab_id operation_id action reason now ≡ ok (s', r)
    → r.existing ≡ false
    → Known s lab_id
unfolding enqueue_action matching_action_result
enqueue_action-Known fails s user_id lab_id operation_id action reason now s' r e fresh =
    elim (Option-cases (find_operation s operation_id)) [
      | inl absent ↦
          enqueue_locked-Known fails s user_id lab_id operation_id action reason now s' r
            (ground arith)
      | inr (o, present) ↦ absurd (ground arith)
    ]

enqueue_cache_locked-Known :
    (fails : Faults) (s : Store) (user_id : ℕ) (lab_id : String) (input : ActionInput) (now : ℕ)
    (s' : Store) (r : ActionResult)
    → enqueue_cache_locked fails s user_id lab_id input now ≡ ok (s', r)
    → Known s lab_id
unfolding enqueue_cache_locked
enqueue_cache_locked-Known fails s user_id lab_id input now s' r e =
    elim (Option-cases (find_session s lab_id)) [
      | inl missing ↦ absurd (ground arith)
      | inr (session, found) ↦ find_session-Known s lab_id session found
    ]

pub enqueue_cache_action-Known :
    (fails : Faults) (s : Store) (user_id : ℕ) (lab_id : String) (input : ActionInput) (now : ℕ)
    (s' : Store) (r : ActionResult)
    → enqueue_cache_action fails s user_id lab_id input now ≡ ok (s', r)
    → r.existing ≡ false
    → Known s lab_id
unfolding enqueue_cache_action matching_cache_action
enqueue_cache_action-Known fails s user_id lab_id input now s' r e fresh =
    elim (Option-cases (find_operation s input.operation_id)) [
      | inl absent ↦ enqueue_cache_locked-Known fails s user_id lab_id input now s' r (ground arith)
      | inr (o, present) ↦ absurd (ground arith)
    ]

topology_session-Known :
    (fails : Faults) (s : Store) (user_id : ℕ) (lab_id : String) (action : Action)
    (session : SessionRow)
    → topology_session fails s user_id lab_id action ≡ ok session
    → Known s lab_id
unfolding topology_session
topology_session-Known fails s user_id lab_id action session e =
    elim (Option-cases (find_session s lab_id)) [
      | inl missing ↦ absurd (ground arith)
      | inr (x, found) ↦ find_session-Known s lab_id x found
    ]

pub topology_transaction-Known :
    (fails : Faults) (s : Store) (user_id : ℕ) (lab_id : String) (input : ActionInput) (q : Quota)
    (now : ℕ) (s' : Store) (r : ActionResult)
    → topology_transaction fails s user_id lab_id input q now ≡ ok (s', r)
    → r.existing ≡ false
    → Known s lab_id
unfolding topology_transaction matching_topology_action enqueue_topology_locked
topology_transaction-Known fails s user_id lab_id input q now s' r e fresh =
    elim (Option-cases (find_operation s input.operation_id)) [
      | inl absent ↦
          let locked : enqueue_topology_locked fails s user_id lab_id input q now ≡ ok (s', r) =
            ground arith in
          let (session, checked, rest) =
            >>=-ok (topology_session fails s user_id lab_id input.action_type) _ locked in
          topology_session-Known fails s user_id lab_id input.action_type session checked
      | inr (o, present) ↦ absurd (ground arith)
    ]
