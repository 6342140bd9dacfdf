-- ===== src/Lab/Repository/Calls.antt =====
-- The three enqueueing methods of services/platform-api/internal/lab, each with its one effect.
use website_go_based.Base.Text.{String-discrete, holds, same_text}
use website_go_based.Lab.Action.{Action-discrete, ActionInput-discrete}
use website_go_based.Lab.Repository.Stored.{stored_request}
use website_go_based.Lab.Repository.Effects.{Asked, AskedFor}
use website_go_based.Lab.Repository.{created_of}
use website_go_based.Base.{
  In, first, List, [], ◌∷◌, Bool, true, some, ℕ, ◌≡◌, refl, inl, inr, false, Option, String, arith,
  ok, Option-cases, exists, >>=-ok, >>-ok,
}
use website_go_based.Lab.Action.{Action, ActionInput, reset_lab, destroy_lab}
use website_go_based.Lab.Quota.{Quota}
use website_go_based.Lab.Topology.{build_topology_payload}
use website_go_based.Lab.Repository.{
  ActionResult, matching_action_result, enqueue_by_action, enqueue_locked, enqueue_action,
  find_session, find_operation, attempt,
}
use website_go_based.Lab.Repository.CacheActions.{
  enqueue_cache_locked, enqueue_cache_action, matching_cache_action,
}
use website_go_based.Lab.Repository.Effects.{
  Effect, repeated, insert_and_commit, enqueue_reset-Effect, enqueue_destroy-Effect,
}
use website_go_based.Lab.Repository.TopologyActions.{
  enqueue_topology_locked, topology_transaction, matching_topology_action, topology_session,
  lock_topology_instances, admit_global_temporary_container,
}
use website_go_based.Store.{
  Store, SessionRow, OperationRow, Faults, in_flight_of, lock_instances, commit_tx, cache_payload,
  topology_payload,
}
use website_go_based.Store.Frame.{SessionMoves-refl}

first-In :
    (p : OperationRow → Bool) (os : List OperationRow) (o : OperationRow)
    → first p os ≡ some o
    → In o os × (p o ≡ true)
unfolding first
first-In p [] o e = cc
first-In p (x ∷ xs) o e = ground (arith, first-In p xs o)

holds_true : {P : Type 0} (d : Dec P) → holds d ≡ true → P
holds_true (yes p) h = p
holds_true (no n) h = cc

found-In :
    (s : Store) (operation_id : String) (o : OperationRow)
    → find_operation s operation_id ≡ some o
    → In o s.operations × (o.operation_id ≡ operation_id)
unfolding find_operation
found-In s operation_id o e =
    let (member, same) = first-In (λ x. same_text x.operation_id operation_id) s.operations o e in
    (member, holds_true (String-discrete o.operation_id operation_id) same)

matching_action_result-Effect :
    (s : Store) (o : OperationRow) (user_id : ℕ) (lab_id operation_id : String) (action : Action)
    (s' : Store) (r : ActionResult)
    → find_operation s operation_id ≡ some o
    → matching_action_result s o user_id lab_id action ≡ ok (s', r)
    → Effect s s' r lab_id operation_id (Asked user_id lab_id action)
unfolding matching_action_result created_of
matching_action_result-Effect s o user_id lab_id operation_id action s' r found e =
    let (member, named) = found-In s operation_id o found in
    repeated
      (record {
        row = o;
        stored = member;
        of_operation = named;
        same_request = (
          ground arith,
          ground arith,
          holds_true (Action-discrete o.action action) (ground arith),
        );
        told = ground arith;
        store_kept = ground arith;
      })
      (ground arith)

enqueue_by_action-Effect :
    (action : Action) (fails : Faults) (s : Store) (session : SessionRow) (user_id : ℕ)
    (lab_id operation_id : String) (reason : Option String) (now : ℕ) (s' : Store)
    (r : ActionResult)
    → enqueue_by_action action fails s session user_id lab_id operation_id reason now ≡ ok (s', r)
    → Effect s s' r lab_id operation_id (Asked user_id lab_id action)
unfolding enqueue_by_action
enqueue_by_action-Effect reset_lab fails s session user_id lab_id operation_id reason now s' r e =
    enqueue_reset-Effect fails s session user_id lab_id operation_id now _ s' r e
enqueue_by_action-Effect destroy_lab fails s session user_id lab_id operation_id reason now s' r e =
    enqueue_destroy-Effect fails s session user_id lab_id operation_id reason now _ s' r e
enqueue_by_action-Effect _ fails s session user_id lab_id operation_id reason now s' r e = cc

enqueue_locked-Effect :
    (fails : Faults) (s : Store) (user_id : ℕ) (lab_id operation_id : String) (action : Action)
    (reason : Option String) (now : ℕ) (s' : Store) (r : ActionResult)
    → enqueue_locked fails s user_id lab_id operation_id action reason now ≡ ok (s', r)
    → Effect s s' r lab_id operation_id (Asked user_id lab_id action)
unfolding enqueue_locked
enqueue_locked-Effect fails s user_id lab_id operation_id action reason now s' r e =
    elim (Option-cases (find_session s lab_id)) [
      | inl missing ↦ absurd (ground arith)
      | inr (session, found) ↦ elim (Option-cases (find_operation s operation_id)) [
        | inl absent ↦
            enqueue_by_action-Effect action fails s session user_id lab_id operation_id reason now
              s' r (ground arith)
        | inr (o, present) ↦
            matching_action_result-Effect s o user_id lab_id operation_id action s' r present
              (ground arith)
      ]
    ]

-- A successful `EnqueueAction` either repeats a request, where an operation of that identifier is stored
-- for the same lab, user and action, and answers that operation without touching the store, or adds and
-- answers one pending operation to a lab that had none in flight, moving sessions as the status table
-- allows.
pub enqueue_action-Effect :
    (fails : Faults) (s : Store) (user_id : ℕ) (lab_id operation_id : String) (action : Action)
    (reason : Option String) (now : ℕ) (s' : Store) (r : ActionResult)
    → enqueue_action fails s user_id lab_id operation_id action reason now ≡ ok (s', r)
    → Effect s s' r lab_id operation_id (Asked user_id lab_id action)
unfolding enqueue_action
enqueue_action-Effect fails s user_id lab_id operation_id action reason now s' r e =
    elim (Option-cases (find_operation s operation_id)) [
      | inl absent ↦
          enqueue_locked-Effect fails s user_id lab_id operation_id action reason now s' r
            (ground arith)
      | inr (o, present) ↦
          matching_action_result-Effect s o user_id lab_id operation_id action s' r present
            (ground arith)
    ]

matching_cache_action-Effect :
    (s : Store) (o : OperationRow) (user_id : ℕ) (lab_id : String) (input : ActionInput)
    (s' : Store) (r : ActionResult)
    → find_operation s input.operation_id ≡ some o
    → matching_cache_action s o user_id lab_id input ≡ ok (s', r)
    → Effect s s' r lab_id input.operation_id (AskedFor user_id lab_id input)
unfolding matching_cache_action created_of
matching_cache_action-Effect s o user_id lab_id input s' r found e =
    let (member, named) = found-In s input.operation_id o found in
    repeated
      (record {
        row = o;
        stored = member;
        of_operation = named;
        same_request = (
          ground arith,
          ground arith,
          holds_true (ActionInput-discrete (stored_request o.payload) input) (ground arith),
        );
        told = ground arith;
        store_kept = ground arith;
      })
      (ground arith)

enqueue_cache_locked-Effect :
    (fails : Faults) (s : Store) (user_id : ℕ) (lab_id : String) (input : ActionInput) (now : ℕ)
    (s' : Store) (r : ActionResult)
    → enqueue_cache_locked fails s user_id lab_id input now ≡ ok (s', r)
    → Effect s s' r lab_id input.operation_id (AskedFor user_id lab_id input)
unfolding enqueue_cache_locked
enqueue_cache_locked-Effect fails s user_id lab_id input now s' r e =
    elim (Option-cases (find_session s lab_id)) [
      | inl missing ↦ absurd (ground arith)
      | inr (session, found) ↦
          insert_and_commit fails s s s' input.operation_id lab_id user_id input.action_type
            input.target_instance_id (cache_payload session.scenario_template_id input) now _
            (attempt fails commit_tx) r (ground arith) (SessionMoves-refl s.sessions) refl
            (ground arith)
    ]

-- The same of a successful `EnqueueCacheAction`.
pub enqueue_cache_action-Effect :
    (fails : Faults) (s : Store) (user_id : ℕ) (lab_id : String) (input : ActionInput) (now : ℕ)
    (s' : Store) (r : ActionResult)
    → enqueue_cache_action fails s user_id lab_id input now ≡ ok (s', r)
    → Effect s s' r lab_id input.operation_id (AskedFor user_id lab_id input)
unfolding enqueue_cache_action
enqueue_cache_action-Effect fails s user_id lab_id input now s' r e =
    elim (Option-cases (find_operation s input.operation_id)) [
      | inl absent ↦
          enqueue_cache_locked-Effect fails s user_id lab_id input now s' r (ground arith)
      | inr (o, present) ↦
          matching_cache_action-Effect s o user_id lab_id input s' r present (ground arith)
    ]

matching_topology_action-Effect :
    (s : Store) (o : OperationRow) (user_id : ℕ) (lab_id : String) (input : ActionInput)
    (s' : Store) (r : ActionResult)
    → find_operation s input.operation_id ≡ some o
    → matching_topology_action s o user_id lab_id input ≡ ok (s', r)
    → Effect s s' r lab_id input.operation_id (AskedFor user_id lab_id input)
unfolding matching_topology_action created_of
matching_topology_action-Effect s o user_id lab_id input s' r found e =
    let (member, named) = found-In s input.operation_id o found in
    repeated
      (record {
        row = o;
        stored = member;
        of_operation = named;
        same_request = (
          ground arith,
          ground arith,
          holds_true (ActionInput-discrete (stored_request o.payload) input) (ground arith),
        );
        told = ground arith;
        store_kept = ground arith;
      })
      (ground arith)

topology_session_idle :
    (fails : Faults) (s : Store) (user_id : ℕ) (lab_id : String) (action : Action)
    (session : SessionRow)
    → topology_session fails s user_id lab_id action ≡ ok session
    → exists (in_flight_of lab_id) s.operations ≡ false
unfolding topology_session
topology_session_idle fails s user_id lab_id action session e = ground arith

enqueue_topology_locked-Effect :
    (fails : Faults) (s : Store) (user_id : ℕ) (lab_id : String) (input : ActionInput) (q : Quota)
    (now : ℕ) (s' : Store) (r : ActionResult)
    → enqueue_topology_locked fails s user_id lab_id input q now ≡ ok (s', r)
    → Effect s s' r lab_id input.operation_id (AskedFor user_id lab_id input)
unfolding enqueue_topology_locked
enqueue_topology_locked-Effect fails s user_id lab_id input q now s' r e =
    let (session, checked, lock) =
      >>=-ok (topology_session fails s user_id lab_id input.action_type) _ e in
    let (locked, scan) = >>-ok (attempt fails lock_instances) _ lock in
    let (instances, scanned, build) = >>=-ok (lock_topology_instances s lab_id) _ scan in
    let (built, payload, insert) =
      >>=-ok
        (build_topology_payload session.scenario_template_id session.balancing_mode instances input
          q (admit_global_temporary_container fails s q))
        _ build in
    insert_and_commit fails s s s' input.operation_id lab_id user_id input.action_type built.1
      (topology_payload built.0) now _ (attempt fails commit_tx) r
      (topology_session_idle fails s user_id lab_id input.action_type session checked)
      (SessionMoves-refl s.sessions) refl insert

-- The same of a successful transaction of `EnqueueTopologyAction`.
pub topology_transaction-Effect :
    (fails : Faults) (s : Store) (user_id : ℕ) (lab_id : String) (input : ActionInput) (q : Quota)
    (now : ℕ) (s' : Store) (r : ActionResult)
    → topology_transaction fails s user_id lab_id input q now ≡ ok (s', r)
    → Effect s s' r lab_id input.operation_id (AskedFor user_id lab_id input)
unfolding topology_transaction
topology_transaction-Effect fails s user_id lab_id input q now s' r e =
    elim (Option-cases (find_operation s input.operation_id)) [
      | inl absent ↦
          enqueue_topology_locked-Effect fails s user_id lab_id input q now s' r (ground arith)
      | inr (o, present) ↦
          matching_topology_action-Effect s o user_id lab_id input s' r present (ground arith)
    ]
