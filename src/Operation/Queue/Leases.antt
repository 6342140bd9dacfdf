-- ===== src/Operation/Queue/Leases.antt =====
-- services/platform-api/internal/operation/repository.go: what the owner of a lease may do.
use website_go_based.Operation.Queue.Held.{
  claimed_rows, claimed_count, none_held_running, claim-rows, claim-ClaimedBy, same_text_of, HeldBy,
  Leased, leased-HeldBy, none_held,
}
use website_go_based.Base.{
  ℕ, ◌+◌, ◌<◌, ◌≡◌, refl, sym, ap, subst, ◌∙◌, ◌≢◌, Bool, false, List, [], ◌∷◌, String, arith, ok,
  err, All, update_where, count_where,
}
use website_go_based.Base.Text.{same_text}
use website_go_based.Operation.Queue.{
  running_row, lease_lost, Record, run_statement, claimable, claim, claimed_record, held_claimed,
  held_running, completed_row, mark_running, complete_operation_record, complete_failure, expired,
}
use website_go_based.Operation.Queue.Claims.{In-All, claim_choice}
use website_go_based.Store.{Store, OperationRow, OperationStatus, Faults}

-- The calls that a worker makes under its lease, on a database that answers.
abbrev pub LostBy : Store → Record → Type 0
LostBy s r =
    ((now expires : ℕ) → mark_running (λ _. false) s r now expires ≡ err lease_lost)
    × ((status : OperationStatus) (skipped : Bool) (code message : String) (now : ℕ)
        → complete_operation_record (λ _. false) s r status skipped code message now
          ≡ err lease_lost)
    × ((code message : String) (now : ℕ)
        → complete_failure (λ _. false) s r code message now ≡ err lease_lost)

-- While a worker holds a claimed operation, before and after it has marked it as running, the calls of
-- a worker with another name all answer that the lease is lost: with any record of the operation's
-- identifier it can neither mark the operation running nor complete it nor fail it.
pub reclaim_revokes :
    (fails : Faults) (s : Store) (locked : OperationRow → Bool) (owner : String)
    (now expires until : ℕ) (s' mid : Store) (fresh stale : Record)
    → claim fails s locked owner now expires ≡ ok (s', fresh)
    → Leased s' fresh expires mid until
    → stale.id ≡ fresh.id
    → same_text owner stale.lease_owner ≡ false
    → LostBy mid stale
unfolding mark_running complete_operation_record complete_failure run_statement
reclaim_revokes fails s locked owner now expires until s' mid fresh stale e lease same other =
    let owns = (claim-rows fails s locked owner now expires s' fresh e).1 in
    let held =
      leased-HeldBy owner expires until s' mid fresh (same_text_of owner fresh.lease_owner owns)
        (claim-ClaimedBy fails s locked owner now expires s' fresh e) lease in
    let (unclaimed, idle) =
      none_held stale owner until mid.operations other
        (subst (λ id. All (HeldBy id owner until) mid.operations) (sym same) held) in
    (
      λ now expires. ground arith,
      λ status skipped code message now. ground arith,
      λ code message now. ground arith,
    )

held_not_claimable :
    (id : ℕ) (owner : String) (until now : ℕ) (o : OperationRow)
    → HeldBy id owner until o
    → now < until
    → o.id ≡ id
    → claimable now o ≡ false
unfolding HeldBy claimable expired
held_not_claimable id owner until now o held early same = ground arith

-- Until its lease ends, which marking the operation as running prolongs, a claimed operation is not
-- taken again, by any worker: a claim takes an operation with another identifier.
pub lease_excludes :
    (fails fails' : Faults) (s : Store) (locked locked' : OperationRow → Bool)
    (owner owner' : String) (now expires until now' expires' : ℕ) (s' mid s'' : Store)
    (r r' : Record)
    → claim fails s locked owner now expires ≡ ok (s', r)
    → Leased s' r expires mid until
    → now' < until
    → claim fails' mid locked' owner' now' expires' ≡ ok (s'', r')
    → r'.id ≢ r.id
lease_excludes fails fails' s locked locked' owner owner' now expires until now' expires' s' mid s''
      r r' first_claim lease early second_claim same =
    let owns = (claim-rows fails s locked owner now expires s' r first_claim).1 in
    let held =
      leased-HeldBy owner expires until s' mid r (same_text_of owner r.lease_owner owns)
        (claim-ClaimedBy fails s locked owner now expires s' r first_claim) lease in
    let (o, member, ready, _, taken, _, _) =
      claim_choice fails' mid locked' owner' now' expires' s'' r' second_claim in
    let same_id : o.id ≡ r.id = unfold claimed_record in ground arith in
    let shut =
      held_not_claimable r.id owner until now' o
        (In-All (HeldBy r.id owner until) o mid.operations held member) early same_id in
    ground arith

running_count :
    (r : Record) (now expires : ℕ) (os : List OperationRow)
    → count_where (held_running r) (update_where (held_claimed r) (running_row now expires) os)
      ≡ count_where (held_claimed r) os + count_where (held_running r) os
unfolding update_where count_where held_claimed held_running running_row
running_count r now expires [] = refl
running_count r now expires (o ∷ os) = ground (arith, running_count r now expires os)

mark_running-rows :
    (s : Store) (r : Record) (now expires : ℕ)
    → count_where (held_claimed r) s.operations ≡ 1
    → (s' : Store) × (mark_running (λ _. false) s r now expires ≡ ok s')
      × (count_where (held_running r) s'.operations
          ≡ count_where (held_claimed r) s.operations + count_where (held_running r) s.operations)
unfolding mark_running run_statement
mark_running-rows s r now expires one = (
  record s { operations = update_where (held_claimed r) (running_row now expires) s.operations },
  ground arith,
  running_count r now expires s.operations,
)

complete-defined :
    (s : Store) (r : Record) (status : OperationStatus) (skipped : Bool) (code message : String)
    (now : ℕ)
    → count_where (held_running r) s.operations ≡ 1
    → (done : Store) × (complete_operation_record (λ _. false) s r status skipped code message now
        ≡ ok done)
unfolding complete_operation_record run_statement
complete-defined s r status skipped code message now one = (
  record s {
    operations =
        update_where (held_running r) (completed_row status skipped code message now) s.operations;
  },
  ground arith,
)

-- After a claim, on a database that answers, the owner's record can be marked running and the
-- operation then be completed, with any status and messages.
pub claimed_completes :
    (fails : Faults) (s : Store) (locked : OperationRow → Bool) (owner : String)
    (now expires later expires' : ℕ) (s' : Store) (r : Record) (status : OperationStatus)
    (skipped : Bool) (code message : String)
    → claim fails s locked owner now expires ≡ ok (s', r)
    → (marked : Store) × (mark_running (λ _. false) s' r later expires' ≡ ok marked)
      × ((end : ℕ)
          → (done : Store) × (complete_operation_record
                (λ _. false)
                marked
                r
                status
                skipped
                code
                message
                end
              ≡ ok done))
claimed_completes fails s locked owner now expires later expires' s' r status skipped code message
      e =
    let (rows, owns, one) = claim-rows fails s locked owner now expires s' r e in
    let held : count_where (held_claimed r) s'.operations ≡ 1 =
      ap (count_where (held_claimed r)) rows
      ∙ claimed_count owner now expires r.id r s.operations refl owns
      ∙ one in
    let idle : count_where (held_running r) s'.operations ≡ 0 =
      ap (count_where (held_running r)) rows
      ∙ none_held_running r owner expires _ (claimed_rows owner now expires r.id s.operations) in
    let (marked, runs, count) = mark_running-rows s' r later expires' held in
    (
      marked,
      runs,
      λ end.
          complete-defined marked r status skipped code message end
            (omega (arith, count, held, idle)),
    )
