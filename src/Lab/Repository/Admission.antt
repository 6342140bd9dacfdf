-- ===== src/Lab/Repository/Admission.antt =====
-- What a successful `Create` of services/platform-api/internal/lab/repository.go guarantees about the
-- whole platform.
use website_go_based.Base.{
  ℕ, ◌+◌, ◌≡◌, refl, ap, ◌∙◌, inl, inr, true, false, none, some, List, [], ◌∷◌, ◌++◌, String, arith,
  ok, reject, ◌>>=◌, ◌==◌, Option-cases, first, count_where, exists, count_where-append,
  count_where_none, >>=-ok, >>-ok, reject-ok,
}
use website_go_based.Base.Int.{pos, ◌≤ℤ◌, +ℤ_parts}
use website_go_based.Lab.Quota.{Quota, Admitted, admit_create, admit_create_iff}
use website_go_based.Lab.Repository.{attempt, insert_pending}
use website_go_based.Lab.Repository.Create.{
  CreateResult, find_existing_create, matching_create, user_active, containers_of, used_containers,
  load_usage_of, reservation_of, new_session, admit, insert_lab, create_locked, create_transaction,
}
use website_go_based.Lab.Repository.Effects.{insert_pending-Inserted}
use website_go_based.Lab.Scenario.{Scenario, scenario_for_course}
use website_go_based.Base.Text.{same_text}
use website_go_based.Lab.Action.{create_lab}
use website_go_based.Lab.Errors.{operation_conflict}
use website_go_based.Lab.Status.{active}
use website_go_based.Store.{
  Store, SessionRow, OperationRow, CourseRow, Faults, insert_session, pending, create_payload,
}

-- A successful call that is not a repetition: one new preparing session with its pending operation,
-- for a user with no active session, under a fresh identifier and within the quota.
pub record Created (s s' : Store) (user_id course_id : ℕ) (lab_id : String) (q : Quota) (now : ℕ)
    : Type 0 where
  pub scenario : Scenario
  pub row : OperationRow
  pub admitted : Admitted q (load_usage_of s) (reservation_of scenario)
  pub lone : exists (user_active user_id) s.sessions ≡ false
  pub containers_known : containers_of scenario.scenario_type ≡ scenario.temporary_containers
  pub fresh_id : exists (λ x. same_text x.id lab_id) s.sessions ≡ false
  pub sessions_added :
      s'.sessions ≡ s.sessions ++ new_session lab_id user_id course_id scenario now ∷ []
  pub operations_added : s'.operations ≡ s.operations ++ row ∷ []
  pub starts_pending : row.status ≡ pending
  pub of_lab : row.lab_id ≡ lab_id

scenario-containers :
    (slug status : String) (scenario : Scenario)
    → scenario_for_course slug status ≡ some scenario
    → containers_of scenario.scenario_type ≡ scenario.temporary_containers
unfolding scenario_for_course containers_of
scenario-containers slug status scenario e = ground arith

admit-ok :
    (fails : Faults) (s : Store) (user_id course_id : ℕ) (q : Quota) (scenario : Scenario)
    → admit fails s user_id course_id q ≡ ok scenario
    → (exists (user_active user_id) s.sessions ≡ false)
      × (containers_of scenario.scenario_type ≡ scenario.temporary_containers)
      × (admit_create q (load_usage_of s) (reservation_of scenario) ≡ ok tt)
unfolding admit
admit-ok fails s user_id course_id q scenario e =
    elim (Option-cases (first (λ (c : CourseRow). c.id == course_id) s.courses)) [
      | inl missing ↦ absurd (ground arith)
      | inr (course, found) ↦ elim (Option-cases (scenario_for_course course.slug course.status)) [
        | inl closed ↦ absurd (ground arith)
        | inr (sc, open_for) ↦
            let same : sc ≡ scenario = ground arith in
            (
              ground arith,
              scenario-containers course.slug course.status scenario (open_for ∙ ap some same),
              ground arith,
            )
      ]
    ]

insert_lab-Created :
    (fails : Faults) (s : Store) (user_id course_id : ℕ) (operation_id lab_id : String) (q : Quota)
    (scenario : Scenario) (now : ℕ) (s' : Store) (r : CreateResult)
    → admit fails s user_id course_id q ≡ ok scenario
    → insert_lab fails s user_id course_id operation_id lab_id scenario now ≡ ok (s', r)
    → Created s s' user_id course_id lab_id q now × (r.existing ≡ false)
unfolding insert_lab
insert_lab-Created fails s user_id course_id operation_id lab_id q scenario now s' r a e =
    let (free, inserts) = >>-ok (attempt fails insert_session) _ e in
    let (unused, pend) =
      >>-ok
        (reject (exists (λ (x : SessionRow). same_text x.id lab_id) s.sessions) operation_conflict)
        _ inserts in
    let mid = record s {
      sessions = s.sessions ++ new_session lab_id user_id course_id scenario now ∷ [];
    } in
    let payload =
      create_payload course_id scenario.scenario_type scenario.template_id
        scenario.initial_instances scenario.redis_required in
    let (p, inserted, rest) =
      >>=-ok (insert_pending fails mid operation_id lab_id user_id create_lab none payload now) _
        pend in
    let i =
      insert_pending-Inserted fails mid operation_id lab_id user_id create_lab none payload now p.0
        p.1 inserted in
    let (lone, known, quota_ok) = admit-ok fails s user_id course_id q scenario a in
    (
      record {
        scenario = scenario;
        row = p.1;
        admitted = (admit_create_iff q (load_usage_of s) (reservation_of scenario)).0 quota_ok;
        lone = lone;
        containers_known = known;
        fresh_id = reject-ok _ operation_conflict unused;
        sessions_added = ground arith;
        operations_added = ground arith;
        starts_pending = i.row_pending;
        of_lab = i.row_lab;
      },
      ground arith,
    )

matching_create-existing :
    (s : Store) (found : SessionRow × OperationRow) (user_id course_id : ℕ) (s' : Store)
    (r : CreateResult)
    → matching_create s found user_id course_id ≡ ok (s', r)
    → (r.existing ≡ true) × (s' ≡ s)
unfolding matching_create
matching_create-existing s (x, o) user_id course_id s' r e = ground arith

create_locked-Created :
    (fails : Faults) (s : Store) (user_id course_id : ℕ) (operation_id lab_id : String) (q : Quota)
    (now : ℕ) (s' : Store) (r : CreateResult)
    → create_locked fails s user_id course_id operation_id lab_id q now ≡ ok (s', r)
    → r.existing ≡ false
    → Created s s' user_id course_id lab_id q now
unfolding create_locked
create_locked-Created fails s user_id course_id operation_id lab_id q now s' r e fresh =
    elim (Option-cases (find_existing_create s operation_id)) [
      | inr (found, present) ↦
          absurd (ground (arith, matching_create-existing s found user_id course_id s' r))
      | inl absent ↦
          let chosen : (do
            scenario ← admit fails s user_id course_id q
            insert_lab fails s user_id course_id operation_id lab_id scenario now)
              ≡ ok (s', r) =
            ground arith in
          let (scenario, admitted, inserted) =
            >>=-ok (admit fails s user_id course_id q) _ chosen in
          (insert_lab-Created fails s user_id course_id operation_id lab_id q scenario now s' r
            admitted inserted).0
    ]

-- A `Create` that is not a repetition creates one lab.
pub create_transaction-Created :
    (fails : Faults) (s : Store) (user_id course_id : ℕ) (operation_id lab_id : String) (q : Quota)
    (now : ℕ) (s' : Store) (r : CreateResult)
    → create_transaction fails s user_id course_id operation_id lab_id q now ≡ ok (s', r)
    → r.existing ≡ false
    → Created s s' user_id course_id lab_id q now
unfolding create_transaction
create_transaction-Created fails s user_id course_id operation_id lab_id q now s' r e fresh =
    elim (Option-cases (find_existing_create s operation_id)) [
      | inr (found, present) ↦
          absurd (ground (arith, matching_create-existing s found user_id course_id s' r))
      | inl absent ↦
          create_locked-Created fails s user_id course_id operation_id lab_id q now s' r
            (ground arith) fresh
    ]

used_containers-append :
    (xs ys : List SessionRow) → used_containers (xs ++ ys) ≡ used_containers xs + used_containers ys
unfolding used_containers
used_containers-append [] ys = omega arith
used_containers-append (x ∷ xs) ys = omega (arith, used_containers-append xs ys)

-- The counts over the sessions, with the new one.
module _ (lab_id : String) (user_id course_id : ℕ) (scenario : Scenario) (now : ℕ) where
  active_added :
      (xs : List SessionRow)
      → count_where
          (λ x. active x.status)
          (xs ++ new_session lab_id user_id course_id scenario now ∷ [])
        ≡ count_where (λ x. active x.status) xs + 1
  active_added xs =
      count_where-append (λ (x : SessionRow). active x.status) xs
        (new_session lab_id user_id course_id scenario now ∷ [])
      ∙ ap (λ k. count_where (λ (x : SessionRow). active x.status) xs + k)
          (unfold count_where new_session active in refl)

  containers_added :
      (xs : List SessionRow)
      → used_containers (xs ++ new_session lab_id user_id course_id scenario now ∷ [])
        ≡ used_containers xs + containers_of scenario.scenario_type
  containers_added xs =
      used_containers-append xs (new_session lab_id user_id course_id scenario now ∷ [])
      ∙ ap (λ k. used_containers xs + k) (unfold used_containers new_session active in omega arith)

  user_added :
      (xs : List SessionRow)
      → count_where
          (user_active user_id)
          (xs ++ new_session lab_id user_id course_id scenario now ∷ [])
        ≡ count_where (user_active user_id) xs + 1
  user_added xs =
      count_where-append (user_active user_id) xs
        (new_session lab_id user_id course_id scenario now ∷ [])
      ∙ ap (λ k. count_where (user_active user_id) xs + k)
          (unfold count_where user_active new_session in ground arith)

-- After a `Create` that is not a repetition the platform is within the quota, with the new lab
-- counted, and the user has exactly one active lab.
pub create_within_limits :
    (fails : Faults) (s : Store) (user_id course_id : ℕ) (operation_id lab_id : String) (q : Quota)
    (now : ℕ) (s' : Store) (r : CreateResult)
    → create_transaction fails s user_id course_id operation_id lab_id q now ≡ ok (s', r)
    → r.existing ≡ false
    → ((load_usage_of s').active_labs ≤ℤ q.max_active_labs)
      × ((load_usage_of s').temporary_containers ≤ℤ q.max_temporary_containers)
      × (count_where (user_active user_id) s'.sessions ≡ 1)
unfolding load_usage_of reservation_of
create_within_limits fails s user_id course_id operation_id lab_id q now s' r e fresh =
    let c =
      create_transaction-Created fails s user_id course_id operation_id lab_id q now s' r e fresh in
    let a = c.admitted in
    (
      rw c.sessions_added (
          ground (
            arith,
            active_added lab_id user_id course_id c.scenario now s.sessions,
            a.labs_fit,
            +ℤ_parts (pos (count_where (λ (x : SessionRow). active x.status) s.sessions)) (pos 1),
          )),
      rw c.sessions_added (
          ground (
            arith,
            containers_added lab_id user_id course_id c.scenario now s.sessions,
            c.containers_known,
            a.containers_fit,
            +ℤ_parts (pos (used_containers s.sessions)) (pos c.scenario.temporary_containers),
          )),
      rw c.sessions_added (
          omega (
            arith,
            user_added lab_id user_id course_id c.scenario now s.sessions,
            count_where_none (user_active user_id) s.sessions c.lone,
          )),
    )
