-- ===== src/Balancer.antt =====
-- services/platform-api/internal/balancer: the instances that the balancer samples, their fingerprints and
-- the comparison of weights (types.go, algorithm.go). A `Weight` has the fields of `lab.InstanceWeight`
-- and is modelled by the same record.
pub mod Repository
pub mod Adjustments
pub mod Lookup
pub mod Gcd
pub mod Weights
pub mod Bounds
pub mod Controller
pub mod Sampling
use website_go_based.Store.{OperationStatus}
use website_go_based.Base.{
  ℕ, zero, suc, ◌+◌, ◌-◌, ◌*◌, ◌/◌, ◌%◌, ◌≤◌, ◌<◌, ◌≡◌, refl, sym, ap, subst, ◌∙◌, ◌≢◌, ◌↔◌, ◌⊎◌,
  inl, inr, Bool, true, false, not, ◌&&◌, ◌||◌, Option, none, some, List, [], ◌∷◌, ◌++◌, map,
  String, arith, Result, ok, err, require, reject, or_fail, ◌>>=◌, ◌>>◌, ltb, leb, ◌==◌,
  if◌then◌else◌, Bool-cases, Option-cases, length, length-append, All, All-append, All-map_pred,
  select, first, update_where, count_where, exists, >>=-ok, >>-ok, require-ok, reject-ok,
}
use website_go_based.Base.Int.{ℤ, pos, negsuc, leb_ℤ}
use website_go_based.Base.Decimal.{decimal}
use website_go_based.Base.Sorting.{sort_by}
use website_go_based.Base.Text.{same_text}
use website_go_based.Lab.Action.{InstanceWeight}
use website_go_based.Lab.Topology.{value_of}
use Prim.Native.String.{◌++◌ as str_append}

pub data BalancerError : Type 0 where
  busy stale no_change database : BalancerError

pub record Instance : Type 0 where
  pub id : String
  pub container_id : String
  pub status : String
  pub processing_speed : ℤ
  pub max_load : ℤ
  pub current_weight : ℤ

pub record Lab : Type 0 where
  pub id : String
  pub user_id : ℕ
  pub instances : List Instance

pub record Adjustment : Type 0 where
  pub operation_id : String
  pub lab_id : String
  pub requested_by : ℕ
  pub topology_fingerprint : String
  pub weights : List InstanceWeight

pub record Operation : Type 0 where
  pub operation_id : String
  pub status : OperationStatus
  pub error_code : String
  pub error_message : String
  pub skipped : Bool

-- `strconv.Itoa`
unfoldable pub itoa : ℤ → String
itoa (pos n) = decimal n
itoa (negsuc n) = str_append "-" (decimal (suc n))

-- The field and the separator before it.
abbrev after_colon : String → String → String
after_colon field rest = str_append ":" (str_append field rest)

unfoldable pub fingerprint_field : Bool → Instance → String → String
unfolding itoa
fingerprint_field include_weight i rest = str_append i.id (
    after_colon i.container_id (
      after_colon i.status (
        after_colon (itoa i.processing_speed) (
          after_colon (itoa i.max_load) (
            if include_weight
            then after_colon (itoa i.current_weight) (str_append "|" rest)
            else str_append "|" rest)))))

unfoldable pub fingerprint_body : Bool → List Instance → String
unfolding fingerprint_field
fingerprint_body include_weight [] = ""
fingerprint_body include_weight (i ∷ is) =
    fingerprint_field include_weight i (fingerprint_body include_weight is)

-- `digest` is the hexadecimal text of the SHA-256 of a text.
unfoldable pub fingerprint : (String → String) → List Instance → Bool → String
fingerprint digest is include_weight =
    digest (fingerprint_body include_weight (sort_by (λ i. i.id) is))

unfoldable pub configuration_fingerprint : (String → String) → List Instance → String
configuration_fingerprint digest is = fingerprint digest is false

unfoldable pub topology_fingerprint : (String → String) → List Instance → String
topology_fingerprint digest is = fingerprint digest is true

abbrev pub nonzero : ℤ → Bool
nonzero (pos zero) = false
nonzero _ = true

abbrev pub same_int : ℤ → ℤ → Bool
same_int a b = leb_ℤ a b && leb_ℤ b a

-- The map from identifiers to weights, unless a weight fails the test or its identifier has a nonzero
-- weight already.
unfoldable pub weight_map :
    (InstanceWeight → Bool) → List (String × ℤ) → List InstanceWeight → Option (List (String × ℤ))
weight_map good m [] = some m
weight_map good m (w ∷ ws) =
    let rest = weight_map good ((w.instance_id, w.weight) ∷ m) ws in
    if same_text w.instance_id "" || not (good w) || nonzero (value_of m w.instance_id)
    then none
    else rest

unfoldable pub every : (Instance → Bool) → List Instance → Bool
every p [] = true
every p (i ∷ is) = p i && every p is

unfoldable pub weights_equal : List Instance → List InstanceWeight → Bool
unfolding weight_map every
weights_equal is ws =
    if not (length is == length ws) then false else elim (weight_map (λ w. true) [] ws) [
      | none ↦ false
      | some m ↦ every (λ i. same_int (value_of m i.id) i.current_weight) is
    ]

-- `eligibleInstances` of controller.go.
unfoldable pub eligible_instances : List Instance → Bool
unfolding every
eligible_instances is =
    not (length is == 0)
    && every
        (λ i.
          not (same_text i.id "")
          && same_text i.status "running"
          && not (same_text i.container_id "")
          && positive i.processing_speed
          && positive i.max_load
          && positive i.current_weight)
        is
  where
    positive : ℤ → Bool
    positive z = not (leb_ℤ z (pos 0))
