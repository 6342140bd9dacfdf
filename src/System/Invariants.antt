-- ===== src/System/Invariants.antt =====
-- What holds of every store that the platform can come to.
use website_go_based.Lab.Repository.Known.{Known}
use website_go_based.Store.Frame.{
  SessionMoves, OperationMoves, SessionMoves-append, in_flight-moves, session_known,
}
use website_go_based.Base.Text.{same_text}
use website_go_based.Store.{Store, in_flight_of, OperationRow, SessionRow, pending}
use website_go_based.System.Changes.{Change, worked, asked, founded, step-Change}
use website_go_based.System.{Reach, Step, begin, step}
use website_go_based.Base.{
  ◌≤◌, ◌≡◌, false, String, count_where, exists, ◌+◌, refl, sym, ap, subst, ◌∙◌, ◌⊎◌, inl, inr, List,
  [], ◌∷◌, ◌++◌, arith, if◌then◌else◌, count_where_none, count_where-append, true, Bool-cases,
}

-- No lab has two operations in flight, and a lab without a session has none.
pub record SingleFlight (s : Store) : Type 0 where
  pub at_most_one : (lab_id : String) → count_where (in_flight_of lab_id) s.operations ≤ 1
  pub of_sessions :
      (lab_id : String)
      → exists (λ x. same_text x.id lab_id) s.sessions ≡ false
      → count_where (in_flight_of lab_id) s.operations ≡ 0

added-count :
    (lab_id other : String) (os : List OperationRow) (row : OperationRow)
    → row.lab_id ≡ lab_id
    → row.status ≡ pending
    → count_where (in_flight_of other) (os ++ row ∷ [])
      ≡ count_where (in_flight_of other) os + (if same_text lab_id other then 1 else 0)
added-count lab_id other os row h k =
    count_where-append (in_flight_of other) os (row ∷ [])
    ∙ ap (λ n. count_where (in_flight_of other) os + n)
        (unfold count_where in_flight_of in ground arith)

-- A new pending operation of a lab that has none in flight.
added-at_most_one :
    (s s' : Store) (lab_id : String) (row : OperationRow)
    → SingleFlight s
    → count_where (in_flight_of lab_id) s.operations ≡ 0
    → s'.operations ≡ s.operations ++ row ∷ []
    → row.status ≡ pending
    → row.lab_id ≡ lab_id
    → (other : String) → count_where (in_flight_of other) s'.operations ≤ 1
added-at_most_one s s' lab_id row i idle added starts of_lab other =
    rw added
      (ground (arith, added-count lab_id other s.operations row of_lab starts, i.at_most_one other))

asked-of_sessions :
    (s s' : Store) (lab_id other : String) (row : OperationRow)
    → SingleFlight s
    → Known s lab_id
    → SessionMoves s.sessions s'.sessions
    → s'.operations ≡ s.operations ++ row ∷ []
    → row.status ≡ pending
    → row.lab_id ≡ lab_id
    → exists (λ x. same_text x.id other) s'.sessions ≡ false
    → count_where (in_flight_of other) s'.operations ≡ 0
asked-of_sessions s s' lab_id other row i known moves added starts of_lab gone = rw added (
    ground (
      arith,
      added-count lab_id other s.operations row of_lab starts,
      i.of_sessions other,
      session_known other s.sessions s'.sessions moves,
    ))

founded-gone :
    (xs : List SessionRow) (session : SessionRow) (other : String)
    → exists (λ x. same_text x.id other) (xs ++ session ∷ []) ≡ false
    → (exists (λ x. same_text x.id other) xs ≡ false) × (same_text session.id other ≡ false)
unfolding exists
founded-gone [] session other h = ground arith
founded-gone (x ∷ xs) session other h = ground (arith, founded-gone xs session other)

worked-SingleFlight :
    (s s' : Store)
    → SingleFlight s
    → SessionMoves s.sessions s'.sessions
    → OperationMoves s.operations s'.operations
    → SingleFlight s'
worked-SingleFlight s s' i moves lives = record {
  at_most_one = λ lab_id.
      omega (arith, in_flight-moves lab_id s.operations s'.operations lives, i.at_most_one lab_id);
  of_sessions = λ lab_id gone. ground (
    arith,
    in_flight-moves lab_id s.operations s'.operations lives,
    i.of_sessions lab_id,
    session_known lab_id s.sessions s'.sessions moves,
  );
}

Change-SingleFlight : (s s' : Store) → SingleFlight s → Change s s' → SingleFlight s'
Change-SingleFlight s s' i (worked moves lives) = worked-SingleFlight s s' i moves lives
Change-SingleFlight s s' i (asked lab_id known moves a) = record {
  at_most_one =
      added-at_most_one s s' lab_id a.row i
        (count_where_none (in_flight_of lab_id) s.operations a.lab_idle) a.added a.starts_pending
        a.of_lab;
  of_sessions = λ other gone.
      asked-of_sessions s s' lab_id other a.row i known moves a.added a.starts_pending a.of_lab
        gone;
}
Change-SingleFlight s s' i (founded lab_id x row fresh named prep sessions added starts of_lab) =
    record {
      at_most_one =
          added-at_most_one s s' lab_id row i (i.of_sessions lab_id fresh) added starts of_lab;
      of_sessions = λ other gone. rw added (
          ground (
            arith,
            added-count lab_id other s.operations row of_lab starts,
            i.of_sessions other,
            founded-gone s.sessions x other
                (subst (λ ss. exists (λ x. same_text x.id other) ss ≡ false) sessions gone),
          ));
    }

begin-SingleFlight : (s : Store) → s.operations ≡ [] → SingleFlight s
begin-SingleFlight s none_yet = record {
  at_most_one = λ lab_id. rw none_yet (unfold count_where in omega arith);
  of_sessions = λ lab_id gone. rw none_yet (unfold count_where in refl);
}

Reach-SingleFlight : (digest : String → String) (s : Store) → Reach digest s → SingleFlight s
Reach-SingleFlight digest s (begin _ empty none_yet) = begin-SingleFlight s none_yet
Reach-SingleFlight digest s' (step s _ before by) =
    Change-SingleFlight s s' (Reach-SingleFlight digest s before) (step-Change digest s s' by)

-- In every store that the platform can come to, from one without labs and operations, by any sequence
-- of its calls with any arguments and database faults, every lab has at most one operation in flight,
-- and where it has one, its session is in the table.
pub one_operation_in_flight :
    (digest : String → String) (s : Store) (lab_id : String)
    → Reach digest s
    → (count_where (in_flight_of lab_id) s.operations ≤ 1)
      × ((exists (λ x. same_text x.id lab_id) s.sessions ≡ true)
          ⊎ (count_where (in_flight_of lab_id) s.operations ≡ 0))
one_operation_in_flight digest s lab_id by =
    let i = Reach-SingleFlight digest s by in
    (
      i.at_most_one lab_id,
      elim (Bool-cases (exists (λ (x : SessionRow). same_text x.id lab_id) s.sessions)) [
        | inl there ↦ inl there
        | inr gone ↦ inr (i.of_sessions lab_id gone)
      ],
    )

Change-SessionMoves : (s s' : Store) → Change s s' → SessionMoves s.sessions s'.sessions
Change-SessionMoves s s' (worked moves lives) = moves
Change-SessionMoves s s' (asked lab_id known moves a) = moves
Change-SessionMoves s s' (founded lab_id x row fresh named prep sessions added starts of_lab) =
    subst (λ ss. SessionMoves s.sessions ss) (sym sessions) (SessionMoves-append s.sessions x prep)

-- Every step keeps each session's identity and owner and keeps its status or changes it as the status
-- table allows; a session that it adds is preparing, and it removes none.
pub step-SessionMoves :
    (digest : String → String) (s s' : Store)
    → Step digest s s'
    → SessionMoves s.sessions s'.sessions
step-SessionMoves digest s s' by = Change-SessionMoves s s' (step-Change digest s s' by)

-- The operations of a store after a step: those that were there, moved, and at most one pending one.
abbrev pub OperationLives : List OperationRow → List OperationRow → Type 0
OperationLives xs ys =
    OperationMoves xs ys ⊎ ((row : OperationRow) × (row.status ≡ pending) × (ys ≡ xs ++ row ∷ []))

Change-OperationLives : (s s' : Store) → Change s s' → OperationLives s.operations s'.operations
Change-OperationLives s s' (worked moves lives) = inl lives
Change-OperationLives s s' (asked lab_id known moves a) = inr (a.row, a.starts_pending, a.added)
Change-OperationLives s s' (founded lab_id x row fresh named prep sessions added starts of_lab) =
    inr (row, starts, added)

-- Every step either keeps each operation's identifier, lab and action and keeps its status or makes a
-- step of its life, or adds one pending operation and changes none.
pub step-OperationLives :
    (digest : String → String) (s s' : Store)
    → Step digest s s'
    → OperationLives s.operations s'.operations
step-OperationLives digest s s' by = Change-OperationLives s s' (step-Change digest s s' by)
