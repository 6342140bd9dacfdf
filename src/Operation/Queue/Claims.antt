-- ===== src/Operation/Queue/Claims.antt =====
-- services/platform-api/internal/operation/repository.go: which operation `Claim` takes.
use website_go_based.Base.{
  ℕ, ◌≡◌, refl, sym, subst, inl, inr, Bool, true, false, not, ◌&&◌, some, List, [], ◌∷◌, String,
  arith, ok, Bool-cases, Option-cases, All, select, update_where, In, select-In, ◌⊎◌, ◌≤◌, ◌<◌, ◌+◌,
  ◌==◌, All-map_pred,
}
use website_go_based.Operation.Queue.{
  Record, claimable, earlier, oldest_of, oldest, has_id, claimed_row, claimed_record, claim,
  expired,
}
use website_go_based.Store.{Store, OperationRow, Faults, pending, claimed, running_op}

-- No row is earlier than the one that is taken.
oldest_of-In : (best : OperationRow) (os : List OperationRow) → In (oldest_of best os) (best ∷ os)
unfolding oldest_of
oldest_of-In best [] = inl refl
oldest_of-In best (o ∷ os) = ground (arith, oldest_of-In best os, oldest_of-In o os)

not_earlier_trans :
    (a b c : OperationRow) → earlier c b ≡ false → earlier b a ≡ false → earlier c a ≡ false
unfolding earlier
not_earlier_trans a b c h k = ground arith

not_earlier_of_earlier : (a b : OperationRow) → earlier a b ≡ true → earlier b a ≡ false
unfolding earlier
not_earlier_of_earlier a b h = ground arith

oldest_of-best :
    (best : OperationRow) (os : List OperationRow) → earlier best (oldest_of best os) ≡ false
unfolding oldest_of
oldest_of-best best [] = unfold earlier in ground arith
oldest_of-best best (o ∷ os) = elim (Bool-cases (earlier o best)) [
  | inl before ↦
      rw (before, oldest_of)
        (not_earlier_trans (oldest_of o os) o best (not_earlier_of_earlier o best before)
          (oldest_of-best o os))
  | inr after ↦ rw (after, oldest_of) (oldest_of-best best os)
]

oldest_of-rest :
    (best : OperationRow) (os : List OperationRow)
    → All (λ o. earlier o (oldest_of best os) ≡ false) os
unfolding oldest_of
oldest_of-rest best [] = tt
oldest_of-rest best (o ∷ os) = elim (Bool-cases (earlier o best)) [
  | inl before ↦
      let same : oldest_of best (o ∷ os) ≡ oldest_of o os = rw (before, oldest_of) refl in
      subst (λ z. (earlier o z ≡ false) × All (λ x. earlier x z ≡ false) os) (sym same)
        (oldest_of-best o os, oldest_of-rest o os)
  | inr after ↦
      let same : oldest_of best (o ∷ os) ≡ oldest_of best os = rw (after, oldest_of) refl in
      subst (λ z. (earlier o z ≡ false) × All (λ x. earlier x z ≡ false) os) (sym same)
        (
          not_earlier_trans (oldest_of best os) best o after (oldest_of-best best os),
          oldest_of-rest best os,
        )
]

pub In-All :
    (P : OperationRow → Type 0) (o : OperationRow) (os : List OperationRow)
    → All P os
    → In o os
    → P o
In-All P o [] h m = absurd m
In-All P o (x ∷ xs) h (inl e) = subst P (sym e) h.0
In-All P o (x ∷ xs) h (inr m) = In-All P o xs h.1 m

oldest-first :
    (os : List OperationRow) (o : OperationRow)
    → oldest os ≡ some o
    → In o os × ((x : OperationRow) → In x os → earlier x o ≡ false)
unfolding oldest
oldest-first [] o e = ground arith
oldest-first (best ∷ os) o e =
    let taken : oldest_of best os ≡ o = ground arith in
    (
      subst (λ x. In x (best ∷ os)) taken (oldest_of-In best os),
      λ x m.
          subst (λ y. earlier x y ≡ false) taken
            (In-All (λ x. earlier x (oldest_of best os) ≡ false) x (best ∷ os)
              (oldest_of-best best os, oldest_of-rest best os) m),
    )

All-of_In :
    (P : OperationRow → Type 0) (os : List OperationRow)
    → ((x : OperationRow) → In x os → P x)
    → All P os
All-of_In P [] h = tt
All-of_In P (o ∷ os) h = (h o (inl refl), All-of_In P os (λ x m. h x (inr m)))

-- The choice of a claim, in the words of the code.
pub claim_choice :
    (fails : Faults) (s : Store) (locked : OperationRow → Bool) (owner : String)
    (now lease_expires : ℕ) (s' : Store) (r : Record)
    → claim fails s locked owner now lease_expires ≡ ok (s', r)
    → (o : OperationRow) × In o s.operations
      × (claimable now o ≡ true)
      × (locked o ≡ false)
      × (r ≡ claimed_record owner lease_expires o)
      × (s'.operations
          ≡ update_where (has_id o.id) (claimed_row owner now lease_expires) s.operations)
      × All (λ x. (claimable now x && not (locked x) && earlier x o) ≡ false) s.operations
unfolding claim
claim_choice fails s locked owner now lease_expires s' r e =
    elim (Option-cases (oldest (select (λ o. claimable now o && not (locked o)) s.operations))) [
      | inl missing ↦ absurd (ground arith)
      | inr (o, found) ↦
          let (member, first_of) = oldest-first _ o found in
          let (stored, test) =
            (select-In (λ o. claimable now o && not (locked o)) s.operations o).0 member in
          (
            o,
            stored,
            ground arith,
            ground arith,
            ground arith,
            ground arith,
            All-of_In (λ x. (claimable now x && not (locked x) && earlier x o) ≡ false) s.operations
                (λ x m. ground (
                  arith,
                  (select-In (λ o. claimable now o && not (locked o)) s.operations x).1,
                  first_of x,
                )),
          )
    ]

-- An operation that waits for a worker: pending, or in the hands of one whose lease has run out.
abbrev pub Waiting : ℕ → OperationRow → Type 0
Waiting now o =
    (o.status ≡ pending)
    ⊎ (((o.status ≡ claimed) ⊎ (o.status ≡ running_op))
        × ((t : ℕ) × (o.lease_expires_at ≡ some t) × (t ≤ now)))

-- The order of arrival.
abbrev pub Before : OperationRow → OperationRow → Type 0
Before a b = (a.created_at < b.created_at) ⊎ ((a.created_at ≡ b.created_at) × (a.id ≤ b.id))

-- What a worker is told of the operation that it has claimed.
abbrev pub Describes : String → ℕ → OperationRow → Record → Type 0
Describes owner expires o r =
    (r.id ≡ o.id)
    × (r.operation_id ≡ o.operation_id)
    × (r.lab_id ≡ o.lab_id)
    × (r.requested_by ≡ o.requested_by)
    × (r.action ≡ o.action)
    × (r.payload ≡ o.payload)
    × (r.status ≡ claimed)
    × (r.lease_owner ≡ owner)
    × (r.lease_expires ≡ expires)
    × (r.attempt_count ≡ o.attempt_count + 1)
    × (r.created_at ≡ o.created_at)

claimable-Waiting : (now : ℕ) (o : OperationRow) → claimable now o ≡ true → Waiting now o
unfolding claimable expired
claimable-Waiting now o h = elim (Option-cases o.lease_expires_at) [
  | inl free ↦ ground arith
  | inr (t, until) ↦ ground arith
]

Waiting-claimable : (now : ℕ) (o : OperationRow) → Waiting now o → claimable now o ≡ true
unfolding claimable expired
Waiting-claimable now o h = ground arith

not_earlier-Before : (a b : OperationRow) → earlier b a ≡ false → Before a b
unfolding earlier
not_earlier-Before a b h = ground arith

first_in_line :
    (now : ℕ) (locked : OperationRow → Bool) (o x : OperationRow)
    → (claimable now x && not (locked x) && earlier x o) ≡ false
    → (¬ Waiting now x) ⊎ (locked x ≡ true) ⊎ Before o x
first_in_line now locked o x h = elim (Bool-cases (claimable now x)) [
  | inr idle ↦ inl (λ w. ground (arith, Waiting-claimable now x w))
  | inl ready ↦ elim (Bool-cases (locked x)) [
    | inl held ↦ inr (inl held)
    | inr free ↦ inr (inr (not_earlier-Before o x (ground arith)))
  ]
]

claimed_record-Describes :
    (owner : String) (expires : ℕ) (o : OperationRow)
    → Describes owner expires o (claimed_record owner expires o)
unfolding claimed_record
claimed_record-Describes owner expires o =
    (refl, refl, refl, refl, refl, refl, refl, refl, refl, refl, refl)

-- A claim takes an operation of the table that is pending, or claimed or running under a lease that has
-- run out, and that no other worker has locked; every such operation of the table comes later, by the
-- time of its creation and then by its identifier. The answer has the identity, the request and the
-- payload of the operation, the caller as lease owner, the new expiry and one attempt more, and the
-- table holds the same lease in the rows with that identifier and is unchanged in all others.
pub claim_takes_oldest :
    (fails : Faults) (s : Store) (locked : OperationRow → Bool) (owner : String) (now expires : ℕ)
    (s' : Store) (r : Record)
    → claim fails s locked owner now expires ≡ ok (s', r)
    → (o : OperationRow) × In o s.operations
      × Waiting now o
      × (locked o ≡ false)
      × Describes owner expires o r
      × (s'.operations
          ≡ update_where
              (λ x. x.id == o.id)
              (λ x. record x {
                status = claimed;
                lease_owner = some owner;
                lease_expires_at = some expires;
                attempt_count = x.attempt_count + 1;
                updated_at = now;
              })
              s.operations)
      × All (λ x. (¬ Waiting now x) ⊎ (locked x ≡ true) ⊎ Before o x) s.operations
unfolding has_id claimed_row
claim_takes_oldest fails s locked owner now expires s' r e =
    let (o, member, ready, free, answer, rows, line) =
      claim_choice fails s locked owner now expires s' r e in
    (
      o,
      member,
      claimable-Waiting now o ready,
      free,
      subst (λ z. Describes owner expires o z) (sym answer)
          (claimed_record-Describes owner expires o),
      rows,
      All-map_pred {P = λ x. (claimable now x && not (locked x) && earlier x o) ≡ false}
          {Q = λ x. (¬ Waiting now x) ⊎ (locked x ≡ true) ⊎ Before o x} s.operations
          (first_in_line now locked o) line,
    )
