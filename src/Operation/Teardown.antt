-- ===== src/Operation/Teardown.antt =====
-- services/platform-api/internal/operation/repository.go: what the successful completion of DESTROY_LAB and of
-- a cache action says about the tables.
use website_go_based.Operation.Activity.{apply_cache_result-same}
use website_go_based.Operation.Completions.{committed}
use website_go_based.Operation.Moves.{detach-keeps}
use website_go_based.Lab.Status.{Status, terminating, terminated}
use website_go_based.Store.{
  Faults, InstanceRow, ResourceRow, Store, row_deleted, row_terminated, OperationStatus, SessionRow,
  begin_tx, succeeded,
}
use website_go_based.Base.{
  count_where_none, ℕ, ◌≡◌, refl, sym, ap, subst, ◌∙◌, ◌≢◌, ◌⊎◌, inl, inr, Bool, false, none, some,
  List, [], ◌∷◌, String, arith, ok, Bool-cases, All, select, update_where, count_where, exists,
  >>=-ok, >>-ok,
}
use website_go_based.Operation.Changes.{CacheResult}
use website_go_based.Operation.Caches.{
  is_running, complete_cache, complete_cache_success, apply_cache_result, redis_enabled_after,
  cache_session,
}
use website_go_based.Operation.Provision.{other_instance}
use website_go_based.Operation.Endings.{
  in_status, move_session, is_terminating, complete_destroy, complete_destroy_success, detach,
  terminated_session,
}
use website_go_based.Operation.Queue.{run_statement, complete_operation_record, Record}
use website_go_based.Base.Text.{same_text, String-discrete}

-- The rows of a lab after its end.
abbrev pub Released : String → List InstanceRow → Type 0
Released lab_id = All (λ i.
    (same_text i.lab_id lab_id ≡ false) ⊎ ((i.status ≡ row_terminated) × (i.container_id ≡ none)))

abbrev pub Deleted : String → List ResourceRow → Type 0
Deleted lab_id =
    All (λ x.
      (same_text x.lab_id lab_id ≡ false) ⊎ ((x.status ≡ row_deleted) × (x.external_id ≡ none)))

ended_instance : ℕ → InstanceRow → InstanceRow
ended_instance now i = record i { status = row_terminated; container_id = none; updated_at = now }

ended_resource : ℕ → ResourceRow → ResourceRow
ended_resource now x = record x { status = row_deleted; external_id = none; updated_at = now }

update-Released :
    (lab_id : String) (now : ℕ) (is : List InstanceRow)
    → Released lab_id (update_where (λ i. same_text i.lab_id lab_id) (ended_instance now) is)
unfolding update_where ended_instance
update-Released lab_id now [] = tt
update-Released lab_id now (i ∷ is) = (
  elim (Bool-cases (same_text i.lab_id lab_id)) [
    | inl hit ↦ rw hit (inr (refl, refl))
    | inr miss ↦ rw miss (inl miss)
  ],
  update-Released lab_id now is,
)

update-Deleted :
    (lab_id : String) (now : ℕ) (xs : List ResourceRow)
    → Deleted lab_id (update_where (λ x. same_text x.lab_id lab_id) (ended_resource now) xs)
unfolding update_where ended_resource
update-Deleted lab_id now [] = tt
update-Deleted lab_id now (x ∷ xs) = (
  elim (Bool-cases (same_text x.lab_id lab_id)) [
    | inl hit ↦ rw hit (inr (refl, refl))
    | inr miss ↦ rw miss (inl miss)
  ],
  update-Deleted lab_id now xs,
)

others-update :
    (lab_id : String) (now : ℕ) (is : List InstanceRow)
    → select
        (other_instance lab_id)
        (update_where (λ i. same_text i.lab_id lab_id) (ended_instance now) is)
      ≡ select (other_instance lab_id) is
unfolding update_where select other_instance ended_instance
others-update lab_id now [] = refl
others-update lab_id now (i ∷ is) = ground (arith, others-update lab_id now is)

-- What a teardown leaves in the instances and the resources.
abbrev pub TornDown : String → Store → Store → Type 0
TornDown lab_id s s' =
    Released lab_id s'.instances
    × Deleted lab_id s'.resources
    × (select (other_instance lab_id) s'.instances ≡ select (other_instance lab_id) s.instances)

detach-TornDown :
    (fails : Faults) (s : Store) (lab_id : String) (now : ℕ) (s' : Store)
    → detach fails s lab_id row_terminated row_deleted now ≡ ok s'
    → TornDown lab_id s s'
unfolding detach ended_instance ended_resource
detach-TornDown fails s lab_id now s' e = (
  subst (λ is. Released lab_id is) (ground arith) (update-Released lab_id now s.instances),
  subst (λ xs. Deleted lab_id xs) (ground arith) (update-Deleted lab_id now s.resources),
  subst (λ is. select (other_instance lab_id) is ≡ select (other_instance lab_id) s.instances)
      (ground arith) (others-update lab_id now s.instances),
)

-- The session of a lab ends: one row of it was terminating, and that row, and no other, has become
-- terminated, with the time and a reason.
abbrev pub Ended : String → ℕ → List SessionRow → List SessionRow → Type 0
Ended lab_id now [] [] = Unit
Ended lab_id now (x ∷ xs) (y ∷ ys) =
    (((x.id ≡ lab_id)
        × (x.status ≡ terminating)
        × (y.id ≡ x.id)
        × (y.user_id ≡ x.user_id)
        × (y.status ≡ terminated)
        × (y.terminated_at ≡ some now)
        × (y.termination_reason ≢ none))
      ⊎ ((¬ ((x.id ≡ lab_id) × (x.status ≡ terminating))) × (y ≡ x)))
    × Ended lab_id now xs ys
Ended lab_id now _ _ = ⊥

update-Ended :
    (lab_id : String) (now : ℕ) (xs : List SessionRow)
    → Ended lab_id now xs
        (update_where (in_status lab_id is_terminating) (terminated_session now) xs)
unfolding update_where in_status terminated_session
update-Ended lab_id now [] = tt
update-Ended lab_id now (x ∷ xs) = (ground arith, update-Ended lab_id now xs)

record-instances :
    (fails : Faults) (s : Store) (r : Record) (status : OperationStatus) (skipped : Bool)
    (code message : String) (now : ℕ) (s' : Store)
    → complete_operation_record fails s r status skipped code message now ≡ ok s'
    → (s'.instances ≡ s.instances) × (s'.sessions ≡ s.sessions)
unfolding complete_operation_record
record-instances fails s r status skipped code message now s' e = ground arith

move-rows :
    (fails : Faults) (s : Store) (lab_id : String) (p : Status → Bool) (f : SessionRow → SessionRow)
    (s' : Store)
    → move_session fails s lab_id p f ≡ ok s'
    → (s'.instances ≡ s.instances)
      × (s'.resources ≡ s.resources)
      × (count_where (in_status lab_id p) s.sessions ≡ 1)
      × (s'.sessions ≡ update_where (in_status lab_id p) f s.sessions)
unfolding move_session
move-rows fails s lab_id p f s' e = ground arith

success-TornDown :
    (fails : Faults) (s : Store) (r : Record) (code message : String) (now : ℕ) (s' : Store)
    → complete_destroy_success fails s r code message now ≡ ok s'
    → TornDown r.lab_id s s'
      × (count_where (in_status r.lab_id is_terminating) s.sessions ≡ 1)
      × Ended r.lab_id now s.sessions s'.sessions
unfolding complete_destroy_success
success-TornDown fails s r code message now s' e =
    let (done, completed, e1) =
      >>=-ok (complete_operation_record fails s r succeeded false code message now) _ e in
    let (cut, detached, e2) =
      >>=-ok (detach fails done r.lab_id row_terminated row_deleted now) _ e1 in
    let (last, moved, e3) =
      >>=-ok (move_session fails cut r.lab_id is_terminating (terminated_session now)) _ e2 in
    let (same, kept) = record-instances fails s r succeeded false code message now done completed in
    let (released, deleted, others) = detach-TornDown fails done r.lab_id now cut detached in
    let (is, xs, one, ss) =
      move-rows fails cut r.lab_id is_terminating (terminated_session now) last moved in
    let (still, _) = detach-keeps fails done r.lab_id row_terminated row_deleted now cut detached in
    (
      subst (λ z. TornDown r.lab_id s z) (committed fails last s' e3)
          (
            subst (λ l. Released r.lab_id l) (sym is) released,
            subst (λ l. Deleted r.lab_id l) (sym xs) deleted,
            ap (select (other_instance r.lab_id)) is
                ∙ others
                ∙ ap (select (other_instance r.lab_id)) same,
          ),
      subst (λ l. count_where (in_status r.lab_id is_terminating) l ≡ 1) (still ∙ kept) one,
      subst (λ z. Ended r.lab_id now s.sessions z.sessions) (committed fails last s' e3)
          (subst (λ l. Ended r.lab_id now s.sessions l) (sym ss)
            (subst
              (λ l.
                Ended r.lab_id now s.sessions
                  (update_where (in_status r.lab_id is_terminating) (terminated_session now) l))
              (sym (still ∙ kept)) (update-Ended r.lab_id now s.sessions))),
    )

-- A successful `CompleteDestroy` that reports no error ends a lab that was terminating: its one
-- terminating session becomes terminated, with the time and a reason, and no other session changes. It
-- leaves every instance of the lab terminated and without a container and every resource of it deleted
-- and without an external identifier, and the instances of the other labs as they were.
pub complete_destroy-TornDown :
    (fails : Faults) (s : Store) (r : Record) (message : String) (now : ℕ) (s' : Store)
    → complete_destroy fails s r "" message now ≡ ok s'
    → TornDown r.lab_id s s'
      × (count_where (in_status r.lab_id is_terminating) s.sessions ≡ 1)
      × Ended r.lab_id now s.sessions s'.sessions
unfolding complete_destroy String-discrete
complete_destroy-TornDown fails s r message now s' e =
    let (_, chosen) = >>-ok (run_statement fails begin_tx) _ e in
    success-TornDown fails s r "" message now s' chosen

cache-running :
    (fails : Faults) (s : Store) (r : Record) (v : CacheResult) (code message : String) (now : ℕ)
    (s' : Store)
    → complete_cache_success fails s r v code message now ≡ ok s'
    → count_where (in_status r.lab_id is_running) s.sessions ≡ 1
unfolding complete_cache_success
cache-running fails s r v code message now s' e =
    let (mid, applied, e1) = >>=-ok (apply_cache_result r.action fails s r.lab_id v now) _ e in
    let (done, completed, e2) =
      >>=-ok (complete_operation_record fails mid r succeeded false code message now) _ e1 in
    let (enabled, flag, e3) = >>=-ok (redis_enabled_after r.action fails done r.lab_id) _ e2 in
    let (last, moved, e4) =
      >>=-ok (move_session fails done r.lab_id is_running (cache_session enabled now)) _ e3 in
    let (_, kept) = record-instances fails mid r succeeded false code message now done completed in
    let (same, _) = apply_cache_result-same fails r.action s r.lab_id v now mid applied in
    let (_, _, one, _) =
      move-rows fails done r.lab_id is_running (cache_session enabled now) last moved in
    subst (λ l. count_where (in_status r.lab_id is_running) l ≡ 1) (kept ∙ same) one

-- `CompleteCache` never records a success for a lab of which no session is running: for a lab that has
-- become expiring while its cache action was in flight, a result without an error code is refused.
pub complete_cache_needs_running :
    (fails : Faults) (s : Store) (r : Record) (v : CacheResult) (message : String) (now : ℕ)
    (s' : Store)
    → exists (in_status r.lab_id is_running) s.sessions ≡ false
    → complete_cache fails s r v "" message now ≢ ok s'
unfolding complete_cache String-discrete
complete_cache_needs_running fails s r v message now s' none_running e =
    let (_, chosen) = >>-ok (run_statement fails begin_tx) _ e in
    let one = cache-running fails s r v "" message now s' chosen in
    ground (arith, count_where_none (in_status r.lab_id is_running) s.sessions none_running)
