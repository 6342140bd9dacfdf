-- ===== src/Lab/Topology/Weights.antt =====
-- `validateWeights` of services/platform-api/internal/lab/topology.go: which requests pass and which
-- servers they stand for.
use mathlib.Core.List.{Perm}
use website_go_based.Base.{
  ◌≡◌, refl, subst, ◌≢◌, ◌⊎◌, inl, inr, true, false, some, List, [], ◌∷◌, String, ok, arith, length,
  All, Option-cases,
}
use website_go_based.Base.Int.{ℤ, pos, ◌≤ℤ◌}
use website_go_based.Base.Sorting.{sort_by, sort_by-perm}
use website_go_based.Lab.Action.{InstanceWeight}
use website_go_based.Lab.Topology.{
  Instance, value_of, is_zero, collect_weights, weigh, validate_weights,
}
use website_go_based.Store.{Server}

-- The request gives the weight `v` to the identifier `id`.
abbrev pub Listed : ℤ → String → List InstanceWeight → Type 0
Listed v id [] = ⊥
Listed v id (w ∷ ws) = ((w.instance_id ≡ id) × (w.weight ≡ v)) ⊎ Listed v id ws

abbrev pub InRange : ℤ → Type 0
InRange v = (pos 1 ≤ℤ v) × (v ≤ℤ pos 100)

-- One server for each instance, in order, under its name and with a weight that was asked for it.
abbrev pub Assigned : List InstanceWeight → List Instance → List Server → Type 0
Assigned ws [] [] = Unit
Assigned ws [] (s ∷ ss) = ⊥
Assigned ws (i ∷ is) [] = ⊥
Assigned ws (i ∷ is) (s ∷ ss) =
    (s.instance_name ≡ i.name) × Listed s.weight i.id ws × InRange s.weight × Assigned ws is ss

collect_weights-value :
    (m : List (String × ℤ)) (ws : List InstanceWeight) (m' : List (String × ℤ)) (id : String)
    → collect_weights m ws ≡ some m'
    → (value_of m' id ≡ value_of m id) ⊎ (Listed (value_of m' id) id ws × InRange (value_of m' id))
unfolding collect_weights
collect_weights-value m [] m' id e = inl (ground arith)
collect_weights-value m (w ∷ ws) m' id e = ground (
  arith,
  collect_weights-value ((w.instance_id, w.weight) ∷ m) ws m' id,
  value_of-cons w.instance_id w.weight m id,
)
  where
    value_of-cons :
        (k : String) (v : ℤ) (n : List (String × ℤ)) (j : String)
        → (value_of ((k, v) ∷ n) j ≡ value_of n j) ⊎ ((k ≡ j) × (value_of ((k, v) ∷ n) j ≡ v))
    value_of-cons k v n j = ground arith

weigh-Assigned :
    (ws : List InstanceWeight) (m : List (String × ℤ)) (is : List Instance) (plan : List Server)
    → collect_weights [] ws ≡ some m
    → weigh m is ≡ some plan
    → Assigned ws is plan
unfolding weigh
weigh-Assigned ws m [] [] e h = tt
weigh-Assigned ws m [] (s ∷ ss) e h = ground arith
weigh-Assigned ws m (i ∷ is) [] e h = ground arith
weigh-Assigned ws m (i ∷ is) (s ∷ ss) e h =
    ground (arith, collect_weights-value [] ws m i.id e, weigh-Assigned ws m is ss e)

validate_weights-ok :
    (is : List Instance) (ws : List InstanceWeight) (servers : List Server)
    → validate_weights is ws ≡ ok servers
    → (m : List (String × ℤ)) × (plan : List Server) × (collect_weights [] ws ≡ some m)
      × (weigh m is ≡ some plan)
      × (sort_by (λ s. s.instance_name) plan ≡ servers)
      × (length ws ≡ length is)
unfolding validate_weights
validate_weights-ok is ws servers e = elim (Option-cases (collect_weights [] ws)) [
  | inl refused ↦ absurd (ground arith)
  | inr (m, collected) ↦ elim (Option-cases (weigh m is)) [
    | inl missing ↦ absurd (ground arith)
    | inr (plan, weighed) ↦ (m, plan, collected, weighed, ground arith, ground arith)
  ]
]

-- An accepted request stands, up to the order of the servers, for one server per instance, under the
-- name of the instance and with a weight from 1 to 100 that the request gives to it; it has as many
-- weights as there are instances.
pub validate_weights_sound :
    (is : List Instance) (ws : List InstanceWeight) (servers : List Server)
    → validate_weights is ws ≡ ok servers
    → (plan : List Server) × Perm servers plan × Assigned ws is plan × (length ws ≡ length is)
validate_weights_sound is ws servers e =
    let (m, plan, collected, weighed, sorted, sizes) = validate_weights-ok is ws servers e in
    (
      plan,
      subst (λ l. Perm l plan) sorted (sort_by-perm (λ s. s.instance_name) plan),
      weigh-Assigned ws m is plan collected weighed,
      sizes,
    )

-- No identifier stands twice in the request.
abbrev pub Distinct : List InstanceWeight → Type 0
Distinct [] = Unit
Distinct (w ∷ ws) = All (λ v. v.instance_id ≢ w.instance_id) ws × Distinct ws

-- No weight of the list is known to the map yet.
abbrev Fresh : List (String × ℤ) → List InstanceWeight → Type 0
Fresh m = All (λ w. is_zero (value_of m w.instance_id) ≡ true)

Fresh-cons :
    (m : List (String × ℤ)) (w : InstanceWeight) (ws : List InstanceWeight)
    → All (λ v. v.instance_id ≢ w.instance_id) ws
    → Fresh m ws
    → Fresh ((w.instance_id, w.weight) ∷ m) ws
unfolding value_of
Fresh-cons m w [] d h = tt
Fresh-cons m w (v ∷ vs) d h = (ground arith, Fresh-cons m w vs d.1 h.1)

collect_weights-total :
    (m : List (String × ℤ)) (ws : List InstanceWeight)
    → All (λ w. InRange w.weight) ws
    → Distinct ws
    → Fresh m ws
    → (m' : List (String × ℤ)) × (collect_weights m ws ≡ some m')
unfolding collect_weights
collect_weights-total m [] r d h = (m, refl)
collect_weights-total m (w ∷ ws) r d h =
    let (m', e) =
      collect_weights-total ((w.instance_id, w.weight) ∷ m) ws r.1 d.1
        (Fresh-cons m w ws d.0 h.1) in
    (m', ground arith)

-- The request has a weight for the identifier.
abbrev pub Named : String → List InstanceWeight → Type 0
Named id [] = ⊥
Named id (w ∷ ws) = (w.instance_id ≡ id) ⊎ Named id ws

collect_weights-keeps :
    (m : List (String × ℤ)) (ws : List InstanceWeight) (m' : List (String × ℤ)) (id : String)
    → collect_weights m ws ≡ some m'
    → is_zero (value_of m id) ≡ false
    → is_zero (value_of m' id) ≡ false
unfolding collect_weights
collect_weights-keeps m [] m' id e h = ground arith
collect_weights-keeps m (w ∷ ws) m' id e h =
    ground (arith, collect_weights-keeps ((w.instance_id, w.weight) ∷ m) ws m' id)

collect_weights-Named :
    (m : List (String × ℤ)) (ws : List InstanceWeight) (m' : List (String × ℤ)) (id : String)
    → collect_weights m ws ≡ some m'
    → Named id ws
    → is_zero (value_of m' id) ≡ false
unfolding collect_weights
collect_weights-Named m [] m' id e h = absurd h
collect_weights-Named m (w ∷ ws) m' id e h = ground (
  arith,
  collect_weights-keeps ((w.instance_id, w.weight) ∷ m) ws m' id,
  collect_weights-Named ((w.instance_id, w.weight) ∷ m) ws m' id,
)

weigh-total :
    (ws : List InstanceWeight) (m : List (String × ℤ)) (is : List Instance)
    → collect_weights [] ws ≡ some m
    → All (λ i. Named i.id ws) is
    → (plan : List Server) × (weigh m is ≡ some plan)
unfolding weigh
weigh-total ws m [] e h = ([], refl)
weigh-total ws m (i ∷ is) e h =
    let (plan, rest) = weigh-total ws m is e h.1 in
    (
      record { instance_name = i.name; weight = value_of m i.id } ∷ plan,
      ground (arith, collect_weights-Named [] ws m i.id e h.0),
    )

Fresh-nil : (ws : List InstanceWeight) → Fresh [] ws
unfolding value_of
Fresh-nil [] = tt
Fresh-nil (w ∷ ws) = (refl, Fresh-nil ws)

-- A request with as many weights as instances, all from 1 to 100, for distinct identifiers that name
-- every instance, is accepted.
pub validate_weights_complete :
    (is : List Instance) (ws : List InstanceWeight)
    → length ws ≡ length is
    → All (λ w. InRange w.weight) ws
    → Distinct ws
    → All (λ i. Named i.id ws) is
    → (servers : List Server) × (validate_weights is ws ≡ ok servers)
unfolding validate_weights
validate_weights_complete is ws sizes range distinct named =
    let (m, collected) = collect_weights-total [] ws range distinct (Fresh-nil ws) in
    let (plan, weighed) = weigh-total ws m is collected named in
    (sort_by (λ s. s.instance_name) plan, ground arith)
