-- ===== src/Lab/Topology/Names.antt =====
-- `nextInstanceName` of services/platform-api/internal/lab/topology.go: a lab below its limit always
-- has a free name.
use website_go_based.Base.{
  ℕ, zero, suc, ◌+◌, ◌≤◌, ◌<◌, ◌≡◌, refl, ◌⊎◌, inl, inr, false, List, [], ◌∷◌, String, arith,
  if◌then◌else◌, length, exists, Bool-cases, ap,
}
use website_go_based.Base.Text.{same_text}
use website_go_based.Base.Decimal.{app_name, app_name-injective}
use website_go_based.Lab.Topology.{Instance, name_used, next_name_from, next_instance_name}

-- How many of the `rounds` names from `index` on are in use.
used_count : List Instance → ℕ → ℕ → ℕ
used_count is index zero = 0
used_count is index (suc rounds) =
    let later = used_count is (suc index) rounds in
    if name_used is (app_name index) then suc later else later

-- How many of those names are the given text.
hits : String → ℕ → ℕ → ℕ
hits name index zero = 0
hits name index (suc rounds) =
    let later = hits name (suc index) rounds in
    if same_text name (app_name index) then suc later else later

hits_after :
    (name : String) (k index rounds : ℕ)
    → name ≡ app_name k
    → k < index
    → hits name index rounds ≡ 0
unfolding hits
hits_after name k index zero e h = refl
hits_after name k index (suc rounds) e h =
    ground (arith, app_name-injective k index, hits_after name k (suc index) rounds e)

hits-le-one : (name : String) (index rounds : ℕ) → hits name index rounds ≤ 1
unfolding hits
hits-le-one name index zero = omega arith
hits-le-one name index (suc rounds) =
    ground (arith, hits_after name index (suc index) rounds, hits-le-one name (suc index) rounds)

used_count-nil : (index rounds : ℕ) → used_count [] index rounds ≡ 0
unfolding used_count name_used exists
used_count-nil index zero = refl
used_count-nil index (suc rounds) = used_count-nil (suc index) rounds

used_count-cons :
    (i : Instance) (is : List Instance) (index rounds : ℕ)
    → used_count (i ∷ is) index rounds ≤ used_count is index rounds + hits i.name index rounds
unfolding used_count hits name_used exists
used_count-cons i is index zero = omega arith
used_count-cons i is index (suc rounds) = ground (arith, used_count-cons i is (suc index) rounds)

used_count-le-length :
    (is : List Instance) (index rounds : ℕ) → used_count is index rounds ≤ length is
used_count-le-length [] index rounds = omega (arith, used_count-nil index rounds)
used_count-le-length (i ∷ is) index rounds = omega (
  arith,
  used_count-cons i is index rounds,
  used_count-le-length is index rounds,
  hits-le-one i.name index rounds,
)

-- The search finds the first free name of its range, or every name of the range is in use.
next_name_from-cases :
    (is : List Instance) (index rounds : ℕ)
    → ((j : ℕ) × (index ≤ j)
        × (j < index + rounds)
        × (next_name_from is index rounds ≡ app_name j)
        × (name_used is (app_name j) ≡ false))
      ⊎ (used_count is index rounds ≡ rounds)
unfolding next_name_from used_count
next_name_from-cases is index zero = inr refl
next_name_from-cases is index (suc rounds) = elim (Bool-cases (name_used is (app_name index))) [
  | inr free ↦ inl (index, omega arith, omega arith, rw (free, next_name_from) refl, free)
  | inl taken ↦ elim (next_name_from-cases is (suc index) rounds) [
    | inl (j, low, high, e, free) ↦ inl (j, omega arith, omega arith, rw taken e, free)
    | inr full ↦ inr (rw taken (ap suc full))
  ]
]

-- A lab with fewer instances than the maximum gets a name `app-j` with 1 ≤ j ≤ maximum that none of
-- its instances has.
pub next_instance_name_free :
    (is : List Instance) (maximum : ℕ)
    → length is < maximum
    → (j : ℕ) × (1 ≤ j)
      × (j ≤ maximum)
      × (next_instance_name is maximum ≡ app_name j)
      × (name_used is (next_instance_name is maximum) ≡ false)
unfolding next_instance_name
next_instance_name_free is maximum h = elim (next_name_from-cases is 1 maximum) [
  | inl (j, low, high, e, free) ↦ (j, low, omega arith, e, rw e free)
  | inr full ↦ absurd (omega (arith, used_count-le-length is 1 maximum))
]
