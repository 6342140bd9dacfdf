-- ===== src/Lab/Repository/CreateRetry.antt =====
-- services/platform-api/internal/lab/repository.go: a request of `Create` that is sent again.
use website_go_based.Lab.Repository.Effects.{insert_pending-Inserted}
use website_go_based.Lab.Action.{create_lab}
use website_go_based.Lab.Scenario.{Scenario}
use website_go_based.Store.{Store, insert_session, create_payload}
use website_go_based.Lab.Repository.Create.{
  find_existing_create, insert_lab, matching_create, CreateResult, new_session, create_locked,
  create_transaction, admit,
}
use website_go_based.Lab.Repository.{
  insert_pending, Faults, SessionRow, find_operation, OperationRow, Payload, find_session, attempt,
  created_of, same_text, operation_conflict, Quota,
}
use website_go_based.Base.{
  first-append, ℕ, ◌≡◌, refl, sym, ap, subst, ◌∙◌, inl, inr, true, false, none, some, List, [], ◌∷◌,
  ◌++◌, String, arith, ok, reject, ◌>>=◌, Option-cases, first, exists, >>=-ok, >>-ok, reject-ok,
}

-- The lab and the operation that a call answers are those that the store holds.
record Kept (s : Store) (r : CreateResult) (user_id course_id : ℕ) (operation_id : String)
    : Type 0 where
  session : SessionRow
  row : OperationRow
  held : find_existing_create s operation_id ≡ some (session, row)
  answered : r.operation ≡ created_of row
  with_session : r.session ≡ session
  by_user : row.requested_by ≡ user_id
  of_course : session.course_id ≡ course_id
  as_create : row.action ≡ create_lab

matching_create-Kept :
    (s : Store) (x : SessionRow) (o : OperationRow) (user_id course_id : ℕ) (operation_id : String)
    (s' : Store) (r : CreateResult)
    → find_existing_create s operation_id ≡ some (x, o)
    → matching_create s (x, o) user_id course_id ≡ ok (s', r)
    → Kept s' r user_id course_id operation_id
unfolding matching_create
matching_create-Kept s x o user_id course_id operation_id s' r held e =
    let same : s ≡ s' = ground arith in
    record {
      session = x;
      row = o;
      held = subst (λ z. find_existing_create z operation_id ≡ some (x, o)) same held;
      answered = ground arith;
      with_session = ground arith;
      by_user = ground arith;
      of_course = ground arith;
      as_create = ground arith;
    }

-- The operation and the session that two inserts add are the ones that the join finds.
find_existing_create-added :
    (s : Store) (operation_id : String) (os : List OperationRow) (row : OperationRow)
    (xs : List SessionRow) (x : SessionRow)
    → s.operations ≡ os ++ row ∷ []
    → s.sessions ≡ xs ++ x ∷ []
    → exists (λ o. same_text o.operation_id operation_id) os ≡ false
    → exists (λ y. same_text y.id row.lab_id) xs ≡ false
    → row.operation_id ≡ operation_id
    → x.id ≡ row.lab_id
    → find_existing_create s operation_id ≡ some (x, row)
unfolding find_existing_create find_operation find_session
find_existing_create-added s operation_id os row xs x ops ses new fresh named of_lab =
    let found : first (λ o. same_text o.operation_id operation_id) s.operations ≡ some row =
      ap (first (λ (o : OperationRow). same_text o.operation_id operation_id)) ops
      ∙ first-append (λ o. same_text o.operation_id operation_id) os row new (ground arith) in
    let lab : first (λ y. same_text y.id row.lab_id) s.sessions ≡ some x =
      ap (first (λ (y : SessionRow). same_text y.id row.lab_id)) ses
      ∙ first-append (λ y. same_text y.id row.lab_id) xs x fresh (ground arith) in
    ground (arith, found, lab)

inserted-new :
    (fails : Faults) (s : Store) (operation_id lab_id : String) (user_id : ℕ) (payload : Payload)
    (now : ℕ) (s' : Store) (row : OperationRow)
    → insert_pending fails s operation_id lab_id user_id create_lab none payload now ≡ ok (s', row)
    → (exists (λ o. same_text o.operation_id operation_id) s.operations ≡ false)
      × (row.requested_by ≡ user_id)
      × (row.action ≡ create_lab)
unfolding insert_pending
inserted-new fails s operation_id lab_id user_id payload now s' row e = ground arith

insert_lab-Kept :
    (fails : Faults) (s : Store) (user_id course_id : ℕ) (operation_id lab_id : String)
    (scenario : Scenario) (now : ℕ) (s' : Store) (r : CreateResult)
    → insert_lab fails s user_id course_id operation_id lab_id scenario now ≡ ok (s', r)
    → Kept s' r user_id course_id operation_id
unfolding insert_lab
insert_lab-Kept fails s user_id course_id operation_id lab_id scenario now s' r e =
    let (free, inserts) = >>-ok (attempt fails insert_session) _ e in
    let (unused, pend) =
      >>-ok
        (reject (exists (λ (x : SessionRow). same_text x.id lab_id) s.sessions) operation_conflict)
        _ inserts in
    let session = new_session lab_id user_id course_id scenario now in
    let mid = record s { sessions = s.sessions ++ session ∷ [] } in
    let payload =
      create_payload course_id scenario.scenario_type scenario.template_id
        scenario.initial_instances scenario.redis_required in
    let (p, inserted, rest) =
      >>=-ok (insert_pending fails mid operation_id lab_id user_id create_lab none payload now) _
        pend in
    let i =
      insert_pending-Inserted fails mid operation_id lab_id user_id create_lab none payload now p.0
        p.1 inserted in
    let (new, user, action) =
      inserted-new fails mid operation_id lab_id user_id payload now p.0 p.1 inserted in
    let fresh = reject-ok _ operation_conflict unused in
    record {
      session = session;
      row = p.1;
      held =
          find_existing_create-added s' operation_id s.operations p.1 s.sessions session
            (ground arith) (ground arith) new
            (subst (λ l. exists (λ (y : SessionRow). same_text y.id l) s.sessions ≡ false)
              (sym i.row_lab) fresh)
            i.row_operation (unfold new_session in sym i.row_lab);
      answered = ground arith;
      with_session = ground arith;
      by_user = user;
      of_course = unfold new_session in refl;
      as_create = action;
    }

create_locked-Kept :
    (fails : Faults) (s : Store) (user_id course_id : ℕ) (operation_id lab_id : String) (q : Quota)
    (now : ℕ) (s' : Store) (r : CreateResult)
    → find_existing_create s operation_id ≡ none
    → create_locked fails s user_id course_id operation_id lab_id q now ≡ ok (s', r)
    → Kept s' r user_id course_id operation_id
unfolding create_locked
create_locked-Kept fails s user_id course_id operation_id lab_id q now s' r absent e =
    let chosen : (do
      scenario ← admit fails s user_id course_id q
      insert_lab fails s user_id course_id operation_id lab_id scenario now)
        ≡ ok (s', r) =
      ground arith in
    let (scenario, admitted, inserted) = >>=-ok (admit fails s user_id course_id q) _ chosen in
    insert_lab-Kept fails s user_id course_id operation_id lab_id scenario now s' r inserted

create_transaction-Kept :
    (fails : Faults) (s : Store) (user_id course_id : ℕ) (operation_id lab_id : String) (q : Quota)
    (now : ℕ) (s' : Store) (r : CreateResult)
    → create_transaction fails s user_id course_id operation_id lab_id q now ≡ ok (s', r)
    → Kept s' r user_id course_id operation_id
unfolding create_transaction
create_transaction-Kept fails s user_id course_id operation_id lab_id q now s' r e =
    elim (Option-cases (find_existing_create s operation_id)) [
      | inl absent ↦
          create_locked-Kept fails s user_id course_id operation_id lab_id q now s' r absent
            (ground arith)
      | inr (found, present) ↦
          matching_create-Kept s found.0 found.1 user_id course_id operation_id s' r present
            (ground arith)
    ]

-- After a successful transaction of `Create`, the same request sent again, at any later time, with any
-- new lab identifier and under any quota, on a database that answers, succeeds with the same session
-- and operation, marked as existing, and leaves the store as it is.
pub create_again :
    (fails : Faults) (s : Store) (user_id course_id : ℕ) (operation_id lab_id other_id : String)
    (q other : Quota) (now later : ℕ) (s' : Store) (r : CreateResult)
    → create_transaction fails s user_id course_id operation_id lab_id q now ≡ ok (s', r)
    → create_transaction (λ _. false) s' user_id course_id operation_id other_id other later
      ≡ ok (s', record r { existing = true })
unfolding create_transaction matching_create attempt
create_again fails s user_id course_id operation_id lab_id other_id q other now later s' r e =
    let k = create_transaction-Kept fails s user_id course_id operation_id lab_id q now s' r e in
    ground (arith, k.held, k.answered, k.with_session, k.by_user, k.of_course, k.as_create)
