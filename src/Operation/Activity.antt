-- ===== src/Operation/Activity.antt =====
-- services/platform-api/internal/operation/repository.go: how the completion of the topology actions and of
-- the cache actions changes the sessions and the operations.
use website_go_based.Operation.Completions.{committed}
use website_go_based.Operation.Moves.{Moved, move_session-moves, complete_operation_record-moves}
use website_go_based.Operation.Queue.{incomplete, Record, complete_operation_record, run_statement}
use website_go_based.Operation.Provision.{ProvisionInstance, is_blank}
use website_go_based.Lab.Action.{Action, InstanceWeight, Mode}
use website_go_based.Store.Frame.{
  SessionsKept, SessionsKept-refl, SessionMove, SessionsKept-update_where, OperationMoves,
  kept_then_moves, operation_step, SessionMoves-refl,
}
use website_go_based.Lab.Status.{can_transition, Status}
use website_go_based.Store.{
  Faults, Store, running_or_expiring, SessionRow, OperationStatus, commit_tx, failed_op, succeeded,
  running_op,
}
use website_go_based.Operation.Changes.{
  active_session, apply_added, apply_mode, apply_performance, apply_removed, apply_topology_result,
  apply_weights, persist_weights, TopologyResult, CacheResult, complete_topology,
  complete_topology_success, complete_topology_error, is_adaptive,
}
use website_go_based.Operation.Caches.{
  apply_cache_result, remove_redis, add_redis, complete_cache, complete_cache_success,
  complete_cache_error, cache_session, redis_enabled_after,
}
use website_go_based.Lab.Action.{
  add_instance, remove_instance, set_instance_performance, set_instance_weights, set_balancing_mode,
  apply_adaptive_weights,
}
use website_go_based.Operation.Endings.{in_status, move_session}
use website_go_based.Operation.Caches.{is_running}
use website_go_based.Base.{
  ℕ, ◌≡◌, refl, sym, subst, inl, inr, Bool, true, false, List, [], ◌∷◌, String, arith, ok, or_fail,
  ◌>>=◌, ◌>>◌, if◌then◌else◌, Bool-cases, >>=-ok, >>-ok,
}

-- Before it completes the operation, a call keeps the sessions' statuses and the operations.
abbrev Prepared : Store → Store → Type 0
Prepared s s' = SessionsKept s.sessions s'.sessions × (s'.operations ≡ s.operations)

Prepared-of_same :
    (s s' : Store) → (s'.sessions ≡ s.sessions) × (s'.operations ≡ s.operations) → Prepared s s'
Prepared-of_same s s' (same, kept) =
    (subst (λ ss. SessionsKept s.sessions ss) (sym same) (SessionsKept-refl s.sessions), kept)

module _ (fails : Faults) where
  apply_added-same :
      (s : Store) (lab_id : String) (i : ProvisionInstance) (now : ℕ) (s' : Store)
      → apply_added fails s lab_id i now ≡ ok s'
      → (s'.sessions ≡ s.sessions) × (s'.operations ≡ s.operations)
  unfolding apply_added
  apply_added-same s lab_id i now s' e = ground arith

  apply_removed-same :
      (s : Store) (lab_id removed : String) (s' : Store)
      → apply_removed fails s lab_id removed ≡ ok s'
      → (s'.sessions ≡ s.sessions) × (s'.operations ≡ s.operations)
  unfolding apply_removed
  apply_removed-same s lab_id removed s' e = ground arith

  apply_performance-same :
      (s : Store) (lab_id : String) (i : ProvisionInstance) (now : ℕ) (s' : Store)
      → apply_performance fails s lab_id i now ≡ ok s'
      → (s'.sessions ≡ s.sessions) × (s'.operations ≡ s.operations)
  unfolding apply_performance
  apply_performance-same s lab_id i now s' e = ground arith

  persist_weights-same :
      (lab_id : String) (ws : List InstanceWeight) (now : ℕ) (s s' : Store)
      → persist_weights fails s lab_id ws now ≡ ok s'
      → (s'.sessions ≡ s.sessions) × (s'.operations ≡ s.operations)
  unfolding persist_weights
  persist_weights-same lab_id [] now s s' e = ground arith
  persist_weights-same lab_id (w ∷ ws) now s s' e =
      let (_, e1) = >>-ok _ _ e in
      let (_, e2) = >>-ok _ _ e1 in persist_weights-same lab_id ws now _ s' e2

  apply_weights-same :
      (s : Store) (lab_id : String) (ws : List InstanceWeight) (now : ℕ) (s' : Store)
      → apply_weights fails s lab_id ws now ≡ ok s'
      → (s'.sessions ≡ s.sessions) × (s'.operations ≡ s.operations)
  unfolding apply_weights
  apply_weights-same s lab_id ws now s' e = persist_weights-same lab_id ws now s s' (ground arith)

  move_session-kept :
      (s : Store) (lab_id : String) (p : Status → Bool) (f : SessionRow → SessionRow) (s' : Store)
      → ((x : SessionRow) → (f x).id ≡ x.id × (f x).user_id ≡ x.user_id × (f x).status ≡ x.status)
      → move_session fails s lab_id p f ≡ ok s'
      → Prepared s s'
  unfolding move_session
  move_session-kept s lab_id p f s' h e = (
    subst (λ ss. SessionsKept s.sessions ss) (ground arith)
        (SessionsKept-update_where (in_status lab_id p) f s.sessions h),
    ground arith,
  )

  apply_mode-Prepared :
      (s : Store) (lab_id : String) (mode : Mode) (now : ℕ) (s' : Store)
      → apply_mode fails s lab_id mode now ≡ ok s'
      → Prepared s s'
  unfolding apply_mode
  apply_mode-Prepared s lab_id mode now s' e =
      let (_, e1) = >>-ok _ _ e in
      move_session-kept s lab_id running_or_expiring
        (λ x. record x { balancing_mode = mode; updated_at = now }) s' (λ x. (refl, refl, refl)) e1

  apply_topology_result-Prepared :
      (s : Store) (lab_id : String) (a : Action) (v : TopologyResult) (now : ℕ) (s' : Store)
      → apply_topology_result fails s lab_id a v now ≡ ok s'
      → Prepared s s'
  unfolding apply_topology_result
  apply_topology_result-Prepared s lab_id add_instance v now s' e =
      let (i, _, e1) = >>=-ok (or_fail v.instance_row incomplete) _ e in
      Prepared-of_same s s' (apply_added-same s lab_id i now s' e1)
  apply_topology_result-Prepared s lab_id remove_instance v now s' e =
      Prepared-of_same s s' (apply_removed-same s lab_id v.removed_instance_id s' e)
  apply_topology_result-Prepared s lab_id set_instance_performance v now s' e =
      let (i, _, e1) = >>=-ok (or_fail v.instance_row incomplete) _ e in
      Prepared-of_same s s' (apply_performance-same s lab_id i now s' e1)
  apply_topology_result-Prepared s lab_id set_instance_weights v now s' e =
      Prepared-of_same s s' (apply_weights-same s lab_id v.weights now s' e)
  apply_topology_result-Prepared s lab_id apply_adaptive_weights v now s' e =
      elim (Bool-cases v.skipped) [
        | inl skip ↦ Prepared-of_same s s' (ground arith)
        | inr apply ↦
            Prepared-of_same s s' (apply_weights-same s lab_id v.weights now s' (ground arith))
      ]
  apply_topology_result-Prepared s lab_id set_balancing_mode v now s' e =
      apply_mode-Prepared s lab_id v.balancing_mode now s' e
  apply_topology_result-Prepared s lab_id _ v now s' e = absurd (ground arith)

  pub apply_cache_result-same :
      (a : Action) (s : Store) (lab_id : String) (v : CacheResult) (now : ℕ) (s' : Store)
      → apply_cache_result a fails s lab_id v now ≡ ok s'
      → (s'.sessions ≡ s.sessions) × (s'.operations ≡ s.operations)
  unfolding apply_cache_result remove_redis add_redis
  apply_cache_result-same a s lab_id v now s' e = ground arith

active-move :
    (now : ℕ) (x : SessionRow)
    → running_or_expiring x.status ≡ true
    → SessionMove x (active_session now x)
unfolding active_session can_transition running_or_expiring
active-move now x h = ground arith

cache-move :
    (enabled : Bool) (now : ℕ) (x : SessionRow)
    → is_running x.status ≡ true
    → SessionMove x (cache_session enabled now x)
unfolding cache_session
cache-move enabled now x h = (refl, refl, inl refl)

-- From a prepared store: complete the operation and, unless `quiet`, move the session.
complete-Prepared :
    (fails : Faults) (s mid done : Store) (r : Record) (status : OperationStatus) (skipped : Bool)
    (code message : String) (now : ℕ)
    → operation_step running_op status ≡ true
    → Prepared s mid
    → complete_operation_record fails mid r status skipped code message now ≡ ok done
    → SessionsKept s.sessions done.sessions × OperationMoves s.operations done.operations
complete-Prepared fails s mid done r status skipped code message now ends (kept, same) e =
    let (lives, still) =
      complete_operation_record-moves fails mid r status skipped code message now done ends e in
    (
      subst (λ ss. SessionsKept s.sessions ss) (sym still) kept,
      subst (λ os. OperationMoves os done.operations) same lives,
    )

then_session :
    (fails : Faults) (s done : Store) (lab_id : String) (p : Status → Bool)
    (f : SessionRow → SessionRow) (last : Store)
    → SessionsKept s.sessions done.sessions × OperationMoves s.operations done.operations
    → ((x : SessionRow) → p x.status ≡ true → SessionMove x (f x))
    → move_session fails done lab_id p f ≡ ok last
    → Moved s last
then_session fails s done lab_id p f last (kept, lives) legal e =
    let (moved, same) = move_session-moves fails done lab_id p f last legal e in
    (
      kept_then_moves s.sessions done.sessions last.sessions kept moved,
      subst (λ os. OperationMoves s.operations os) (sym same) lives,
    )

kept-Moved :
    (s done : Store)
    → SessionsKept s.sessions done.sessions × OperationMoves s.operations done.operations
    → Moved s done
kept-Moved s done (kept, lives) = (
  kept_then_moves s.sessions done.sessions done.sessions kept (SessionMoves-refl done.sessions),
  lives,
)

module _ (fails : Faults) (s : Store) (r : Record) (code message : String) (now : ℕ)
    (s' : Store) where
  error-moves :
      (do
        done ← complete_operation_record fails s r failed_op false code message now
        run_statement fails commit_tx
        ok done)
        ≡ ok s'
      → Moved s s'
  error-moves e =
      let (done, completed, e1) = >>=-ok _ _ e in
      subst (λ z. Moved s z) (committed fails done s' e1)
        (kept-Moved s done (
          complete-Prepared fails s s done r failed_op false code message now
            (unfold operation_step in refl) (SessionsKept-refl s.sessions, refl) completed))

  complete_topology_success-moves :
      (v : TopologyResult)
      → complete_topology_success fails s r v code message now ≡ ok s'
      → Moved s s'
  unfolding complete_topology_success
  complete_topology_success-moves v e =
      let (mid, applied, e1) = >>=-ok _ _ e in
      let (done, completed, e2) = >>=-ok _ _ e1 in
      let (last, moved, e3) =
        >>=-ok
          (if is_adaptive r.action
            then ok done
            else move_session fails done r.lab_id running_or_expiring (active_session now))
          _ e2 in
      let prepared =
        complete-Prepared fails s mid done r succeeded v.skipped code message now
          (unfold operation_step in refl)
          (apply_topology_result-Prepared fails s r.lab_id r.action v now mid applied) completed in
      subst (λ z. Moved s z) (committed fails last s' e3)
        (elim (Bool-cases (is_adaptive r.action)) [
          | inl quiet ↦
              let same : done ≡ last = ground arith in
              subst (λ z. Moved s z) same (kept-Moved s done prepared)
          | inr effective ↦
              then_session fails s done r.lab_id running_or_expiring (active_session now) last
                prepared (active-move now) (ground arith)
        ])

  -- A successful `CompleteTopology` moves sessions and operations as the tables allow.
  pub complete_topology-moves :
      (v : TopologyResult) → complete_topology fails s r v code message now ≡ ok s' → Moved s s'
  unfolding complete_topology complete_topology_error
  complete_topology-moves v e = elim (Bool-cases (is_blank code)) [
    | inl good ↦ complete_topology_success-moves v (ground arith)
    | inr bad ↦ error-moves (ground arith)
  ]

  complete_cache_success-moves :
      (v : CacheResult) → complete_cache_success fails s r v code message now ≡ ok s' → Moved s s'
  unfolding complete_cache_success
  complete_cache_success-moves v e =
      let (mid, applied, e1) = >>=-ok _ _ e in
      let (done, completed, e2) = >>=-ok _ _ e1 in
      let (enabled, flag, e3) = >>=-ok (redis_enabled_after r.action fails done r.lab_id) _ e2 in
      let (last, moved, e4) =
        >>=-ok (move_session fails done r.lab_id is_running (cache_session enabled now)) _ e3 in
      subst (λ z. Moved s z) (committed fails last s' e4)
        (then_session fails s done r.lab_id is_running (cache_session enabled now) last
          (complete-Prepared fails s mid done r succeeded false code message now
            (unfold operation_step in refl)
            (Prepared-of_same s mid
              (apply_cache_result-same fails r.action s r.lab_id v now mid applied))
            completed)
          (cache-move enabled now) moved)

  -- The same of `CompleteCache`.
  pub complete_cache-moves :
      (v : CacheResult) → complete_cache fails s r v code message now ≡ ok s' → Moved s s'
  unfolding complete_cache complete_cache_error
  complete_cache-moves v e = elim (Bool-cases (is_blank code)) [
    | inl good ↦ complete_cache_success-moves v (ground arith)
    | inr bad ↦ error-moves (ground arith)
  ]
