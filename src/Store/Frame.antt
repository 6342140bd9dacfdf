-- ===== src/Store/Frame.antt =====
-- How the rows of two stores relate: which moves of a session's status and of an operation's status
-- the program makes, and that `update_where` makes only those.
use website_go_based.Base.{
  In, ◌≤◌, ◌≡◌, refl, ◌⊎◌, inl, inr, Bool, true, false, List, [], ◌∷◌, ◌++◌, String, arith,
  Bool-cases, All, update_where, count_where, exists,
}
use website_go_based.Lab.Status.{preparing, can_transition}
use website_go_based.Base.Text.{same_text}
use website_go_based.Store.{
  in_flight_of, SessionRow, OperationRow, OperationStatus, pending, claimed, running_op, succeeded,
  failed_op,
}

-- A session keeps its identity and owner, and keeps its status or changes it as the table allows.
abbrev pub SessionMove : SessionRow → SessionRow → Type 0
SessionMove x y =
    (y.id ≡ x.id)
    × (y.user_id ≡ x.user_id)
    × ((y.status ≡ x.status) ⊎ (can_transition x.status y.status ≡ true))

-- Each session moves; sessions that were added are preparing.
abbrev pub SessionMoves : List SessionRow → List SessionRow → Type 0
SessionMoves [] ys = All (λ y. y.status ≡ preparing) ys
SessionMoves (x ∷ xs) [] = ⊥
SessionMoves (x ∷ xs) (y ∷ ys) = SessionMove x y × SessionMoves xs ys

pub SessionMoves-refl : (xs : List SessionRow) → SessionMoves xs xs
SessionMoves-refl [] = tt
SessionMoves-refl (x ∷ xs) = ((refl, refl, inl refl), SessionMoves-refl xs)

pub SessionMoves-append :
    (xs : List SessionRow) (y : SessionRow) → y.status ≡ preparing → SessionMoves xs (xs ++ y ∷ [])
SessionMoves-append [] y h = (h, tt)
SessionMoves-append (x ∷ xs) y h = ((refl, refl, inl refl), SessionMoves-append xs y h)

pub SessionMoves-update_where :
    (p : SessionRow → Bool) (f : SessionRow → SessionRow) (xs : List SessionRow)
    → ((x : SessionRow) → p x ≡ true → SessionMove x (f x))
    → SessionMoves xs (update_where p f xs)
unfolding update_where
SessionMoves-update_where p f [] h = tt
SessionMoves-update_where p f (x ∷ xs) h = (
  elim (Bool-cases (p x)) [
    | inl hit ↦ rw hit (h x hit)
    | inr miss ↦ rw miss (refl, refl, inl refl)
  ],
  SessionMoves-update_where p f xs h,
)

-- No session is added and each keeps its identity, owner and status.
abbrev pub SessionsKept : List SessionRow → List SessionRow → Type 0
SessionsKept [] [] = Unit
SessionsKept [] (y ∷ ys) = ⊥
SessionsKept (x ∷ xs) [] = ⊥
SessionsKept (x ∷ xs) (y ∷ ys) =
    ((y.id ≡ x.id) × (y.user_id ≡ x.user_id) × (y.status ≡ x.status)) × SessionsKept xs ys

pub SessionsKept-refl : (xs : List SessionRow) → SessionsKept xs xs
SessionsKept-refl [] = tt
SessionsKept-refl (x ∷ xs) = ((refl, refl, refl), SessionsKept-refl xs)

pub SessionsKept-update_where :
    (p : SessionRow → Bool) (f : SessionRow → SessionRow) (xs : List SessionRow)
    → ((x : SessionRow) → (f x).id ≡ x.id × (f x).user_id ≡ x.user_id × (f x).status ≡ x.status)
    → SessionsKept xs (update_where p f xs)
unfolding update_where
SessionsKept-update_where p f [] h = tt
SessionsKept-update_where p f (x ∷ xs) h = (
  elim (Bool-cases (p x)) [ inl hit ↦ rw hit (h x) | inr miss ↦ rw miss (refl, refl, refl) ],
  SessionsKept-update_where p f xs h,
)

pub kept_then_moves :
    (xs ys zs : List SessionRow) → SessionsKept xs ys → SessionMoves ys zs → SessionMoves xs zs
kept_then_moves [] [] zs k m = m
kept_then_moves [] (y ∷ ys) zs k m = absurd k
kept_then_moves (x ∷ xs) [] zs k m = absurd k
kept_then_moves (x ∷ xs) (y ∷ ys) [] k m = absurd m
kept_then_moves (x ∷ xs) (y ∷ ys) (z ∷ zs) k m =
    (ground (arith, k.0, m.0), kept_then_moves xs ys zs k.1 m.1)

-- The life of an operation.
unfoldable pub operation_step : OperationStatus → OperationStatus → Bool
operation_step pending claimed = true
operation_step claimed claimed = true
operation_step running_op claimed = true
operation_step claimed running_op = true
operation_step running_op succeeded = true
operation_step running_op failed_op = true
operation_step _ _ = false

-- An operation keeps what was asked for, and keeps its status or makes a step of its life.
abbrev pub OperationMove : OperationRow → OperationRow → Type 0
OperationMove x y =
    (y.id ≡ x.id)
    × (y.operation_id ≡ x.operation_id)
    × (y.lab_id ≡ x.lab_id)
    × (y.action ≡ x.action)
    × ((y.status ≡ x.status) ⊎ (operation_step x.status y.status ≡ true))

-- Each operation moves, and none is added.
abbrev pub OperationMoves : List OperationRow → List OperationRow → Type 0
OperationMoves [] [] = Unit
OperationMoves [] (y ∷ ys) = ⊥
OperationMoves (x ∷ xs) [] = ⊥
OperationMoves (x ∷ xs) (y ∷ ys) = OperationMove x y × OperationMoves xs ys

pub OperationMoves-refl : (xs : List OperationRow) → OperationMoves xs xs
OperationMoves-refl [] = tt
OperationMoves-refl (x ∷ xs) = ((refl, refl, refl, refl, inl refl), OperationMoves-refl xs)

pub OperationMoves-update_where-In :
    (p : OperationRow → Bool) (f : OperationRow → OperationRow) (xs : List OperationRow)
    → ((x : OperationRow) → In x xs → p x ≡ true → OperationMove x (f x))
    → OperationMoves xs (update_where p f xs)
unfolding update_where
OperationMoves-update_where-In p f [] h = tt
OperationMoves-update_where-In p f (x ∷ xs) h = (
  elim (Bool-cases (p x)) [
    | inl hit ↦ rw hit (h x (inl refl) hit)
    | inr miss ↦ rw miss (refl, refl, refl, refl, inl refl)
  ],
  OperationMoves-update_where-In p f xs (λ x m. h x (inr m)),
)

pub OperationMoves-update_where :
    (p : OperationRow → Bool) (f : OperationRow → OperationRow) (xs : List OperationRow)
    → ((x : OperationRow) → p x ≡ true → OperationMove x (f x))
    → OperationMoves xs (update_where p f xs)
OperationMoves-update_where p f xs h = OperationMoves-update_where-In p f xs (λ x m. h x)

-- A finished operation stays finished, so a move does not raise the number in flight.
in_flight-move :
    (lab_id : String) (x y : OperationRow)
    → OperationMove x y
    → in_flight_of lab_id y ≡ true
    → in_flight_of lab_id x ≡ true
unfolding in_flight_of operation_step
in_flight-move lab_id x y m h = ground arith

pub in_flight-moves :
    (lab_id : String) (xs ys : List OperationRow)
    → OperationMoves xs ys
    → count_where (in_flight_of lab_id) ys ≤ count_where (in_flight_of lab_id) xs
unfolding count_where
in_flight-moves lab_id [] [] m = omega arith
in_flight-moves lab_id [] (y ∷ ys) m = absurd m
in_flight-moves lab_id (x ∷ xs) [] m = absurd m
in_flight-moves lab_id (x ∷ xs) (y ∷ ys) m =
    ground (arith, in_flight-moves lab_id xs ys m.1, in_flight-move lab_id x y m.0)

-- The identifiers of the sessions that were there stay.
pub session_known :
    (lab_id : String) (xs ys : List SessionRow)
    → SessionMoves xs ys
    → exists (λ x. same_text x.id lab_id) xs ≡ true
    → exists (λ x. same_text x.id lab_id) ys ≡ true
unfolding exists
session_known lab_id [] ys m h = ground arith
session_known lab_id (x ∷ xs) [] m h = absurd m
session_known lab_id (x ∷ xs) (y ∷ ys) m h = ground (arith, session_known lab_id xs ys m.1)
