-- ===== src/Operation/Queue/Held.antt =====
-- services/platform-api/internal/operation/repository.go: the rows of an operation that a worker holds.
use website_go_based.Base.{
  ℕ, ◌≡◌, refl, sym, subst, ◌≢◌, ◌⊎◌, inl, inr, Bool, false, not, ◌&&◌, some, List, [], ◌∷◌, String,
  arith, ok, Option-cases, All, select, update_where, count_where, true, All-map_pred,
}
use website_go_based.Base.Text.{same_text}
use website_go_based.Operation.Queue.{
  running_row, Record, claimable, claim, oldest, claimed_record, has_id, claimed_row, held_claimed,
  held_running, mark_running, running_op,
}
use website_go_based.Store.{claimed, Store, OperationRow, Faults}

-- The rows of the claimed operation, after the claim.
unfoldable pub ClaimedBy : ℕ → String → ℕ → OperationRow → Type 0
ClaimedBy id owner expires o =
    (o.id ≢ id)
    ⊎ ((o.status ≡ claimed) × (o.lease_owner ≡ some owner) × (o.lease_expires_at ≡ some expires))

pub claimed_rows :
    (owner : String) (now expires id : ℕ) (os : List OperationRow)
    → All (ClaimedBy id owner expires) (update_where (has_id id) (claimed_row owner now expires) os)
unfolding update_where ClaimedBy has_id claimed_row
claimed_rows owner now expires id [] = tt
claimed_rows owner now expires id (o ∷ os) = (ground arith, claimed_rows owner now expires id os)

pub claimed_count :
    (owner : String) (now expires id : ℕ) (r : Record) (os : List OperationRow)
    → r.id ≡ id
    → r.lease_owner ≡ owner
    → count_where (held_claimed r) (update_where (has_id id) (claimed_row owner now expires) os)
      ≡ count_where (has_id id) os
unfolding update_where count_where has_id claimed_row held_claimed
claimed_count owner now expires id r [] h k = refl
claimed_count owner now expires id r (o ∷ os) h k =
    ground (arith, claimed_count owner now expires id r os)

pub none_held_running :
    (r : Record) (owner : String) (expires : ℕ) (os : List OperationRow)
    → All (ClaimedBy r.id owner expires) os
    → count_where (held_running r) os ≡ 0
unfolding count_where held_running ClaimedBy
none_held_running r owner expires [] h = refl
none_held_running r owner expires (o ∷ os) h = ground (arith, none_held_running r owner expires os)

pub claim-rows :
    (fails : Faults) (s : Store) (locked : OperationRow → Bool) (owner : String) (now expires : ℕ)
    (s' : Store) (r : Record)
    → claim fails s locked owner now expires ≡ ok (s', r)
    → (s'.operations ≡ update_where (has_id r.id) (claimed_row owner now expires) s.operations)
      × (r.lease_owner ≡ owner)
      × (count_where (has_id r.id) s.operations ≡ 1)
unfolding claim
claim-rows fails s locked owner now expires s' r e =
    elim (Option-cases (oldest (select (λ o. claimable now o && not (locked o)) s.operations))) [
      | inl missing ↦ absurd (ground arith)
      | inr (o, found) ↦ unfold claimed_record in ground arith
    ]

pub same_text_of : (t u : String) → u ≡ t → same_text t u ≡ true
same_text_of t u e = ground arith

-- The stores of a worker under its lease: after its claim, and after it has marked the operation as
-- running, with the time at which its lease ends.
pub data Leased (s : Store) (r : Record) (expires : ℕ) : Store → ℕ → Type 0 where
  after_claim : Leased s r expires s expires
  after_mark :
      (fails : Faults) (now until : ℕ) (s' : Store)
      → mark_running fails s r now until ≡ ok s'
      → Leased s r expires s' until

-- The rows of an operation that a worker holds.
unfoldable pub HeldBy : ℕ → String → ℕ → OperationRow → Type 0
HeldBy id owner until o =
    (o.id ≢ id)
    ⊎ (((o.status ≡ claimed) ⊎ (o.status ≡ running_op))
        × (o.lease_owner ≡ some owner)
        × (o.lease_expires_at ≡ some until))

running_rows :
    (r : Record) (owner : String) (expires now until : ℕ) (os : List OperationRow)
    → same_text owner r.lease_owner ≡ true
    → All (ClaimedBy r.id owner expires) os
    → All (HeldBy r.id owner until) (update_where (held_claimed r) (running_row now until) os)
unfolding update_where ClaimedBy HeldBy held_claimed running_row
running_rows r owner expires now until [] same h = tt
running_rows r owner expires now until (o ∷ os) same h =
    (ground arith, running_rows r owner expires now until os same h.1)

claimed-HeldBy :
    (id : ℕ) (owner : String) (expires : ℕ) (o : OperationRow)
    → ClaimedBy id owner expires o
    → HeldBy id owner expires o
unfolding ClaimedBy HeldBy
claimed-HeldBy id owner expires o h = ground arith

pub claim-ClaimedBy :
    (fails : Faults) (s : Store) (locked : OperationRow → Bool) (owner : String) (now expires : ℕ)
    (s' : Store) (r : Record)
    → claim fails s locked owner now expires ≡ ok (s', r)
    → All (ClaimedBy r.id owner expires) s'.operations
claim-ClaimedBy fails s locked owner now expires s' r e =
    subst (λ os. All (ClaimedBy r.id owner expires) os)
      (sym (claim-rows fails s locked owner now expires s' r e).0)
      (claimed_rows owner now expires r.id s.operations)

pub leased-HeldBy :
    (owner : String) (expires until : ℕ) (s mid : Store) (r : Record)
    → same_text owner r.lease_owner ≡ true
    → All (ClaimedBy r.id owner expires) s.operations
    → Leased s r expires mid until
    → All (HeldBy r.id owner until) mid.operations
unfolding mark_running
leased-HeldBy owner expires until s mid r same h after_claim =
    All-map_pred {P = ClaimedBy r.id owner expires} {Q = HeldBy r.id owner expires} s.operations
      (claimed-HeldBy r.id owner expires) h
leased-HeldBy owner expires until s mid r same h (after_mark fails now _ _ e) =
    subst (λ os. All (HeldBy r.id owner until) os) (ground arith)
      (running_rows r owner expires now until s.operations same h)

pub none_held :
    (r : Record) (owner : String) (until : ℕ) (os : List OperationRow)
    → same_text owner r.lease_owner ≡ false
    → All (HeldBy r.id owner until) os
    → (count_where (held_claimed r) os ≡ 0) × (count_where (held_running r) os ≡ 0)
unfolding count_where held_claimed held_running HeldBy
none_held r owner until [] other h = (refl, refl)
none_held r owner until (o ∷ os) other h = ground (arith, none_held r owner until os)
