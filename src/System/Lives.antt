-- ===== src/System/Lives.antt =====
-- What becomes of a session over any sequence of the steps of the platform.
use website_go_based.Base.{
  ◌≡◌, refl, sym, subst, ◌≢◌, ◌⊎◌, inl, inr, String, List, [], ◌∷◌, In, arith,
}
use website_go_based.Lab.Status.{Status, failed, terminating, terminated, can_transition}
use website_go_based.Store.{Store, SessionRow}
use website_go_based.Store.Frame.{SessionMove, SessionMoves}
use website_go_based.System.{Step}
use website_go_based.System.Invariants.{step-SessionMoves}

-- The stores that come after a store.
pub data Later (digest : String → String) (s : Store) : Store → Type 0 where
  at_first : Later digest s s
  after_step : (mid s' : Store) → Later digest s mid → Step digest mid s' → Later digest s s'

-- The states after which nothing runs any more.
abbrev pub Ending : Status → Type 0
Ending x = (x ≡ failed) ⊎ (x ≡ terminating) ⊎ (x ≡ terminated)

-- What a session may have become, once it was ending.
abbrev pub StillEnding : SessionRow → SessionRow → Type 0
StillEnding x y =
    (y.id ≡ x.id)
    × (y.user_id ≡ x.user_id)
    × Ending y.status
    × ((x.status ≢ terminated) ⊎ (y.status ≡ terminated))

move-StillEnding :
    (x y z : SessionRow) → Ending x.status → StillEnding x y → SessionMove y z → StillEnding x z
unfolding can_transition
move-StillEnding x y z ending still move = ground arith

row_after :
    (x : SessionRow) (xs ys : List SessionRow)
    → SessionMoves xs ys
    → In x xs
    → (y : SessionRow) × In y ys × SessionMove x y
row_after x [] ys moves member = absurd member
row_after x (z ∷ zs) [] moves member = absurd moves
row_after x (z ∷ zs) (y ∷ ys) moves (inl same) =
    (y, inl refl, subst (λ w. SessionMove w y) (sym same) moves.0)
row_after x (z ∷ zs) (y ∷ ys) moves (inr member) =
    let (w, found, move) = row_after x zs ys moves.1 member in (w, inr found, move)

-- A session that has failed, is terminating or is terminated is, after any sequence of the calls of the
-- platform, still in the table with its identifier and owner, and is in one of these three states; a
-- terminated session is still terminated.
pub no_revival :
    (digest : String → String) (s s' : Store) (x : SessionRow)
    → Later digest s s'
    → In x s.sessions
    → Ending x.status
    → (y : SessionRow) × In y s'.sessions × StillEnding x y
no_revival digest s s' x at_first member ending = (x, member, (refl, refl, ending, ground arith))
no_revival digest s s' x (after_step mid _ before by) member ending =
    let (y, found, still) = no_revival digest s mid x before member ending in
    let (z, there, move) =
      row_after y mid.sessions s'.sessions (step-SessionMoves digest mid s' by) found in
    (z, there, move-StillEnding x y z ending still move)
