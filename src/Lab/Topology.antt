-- ===== src/Lab/Topology.antt =====
-- services/platform-api/internal/lab/topology.go: what one topology action asks the orchestrator to do.
-- `Instance` keeps the columns that the file reads. Its `ID` is its name, as `lockTopologyInstances`
-- sets it. A `map[string]int` is an association list whose missing keys read as 0.
pub mod Names
pub mod Weights
pub mod Payloads
use website_go_based.Base.{
  ℕ, zero, suc, ◌+◌, Bool, true, false, Option, none, some, List, [], ◌∷◌, ◌++◌, map, String,
  Result, ok, err, reject, require, or_fail, ◌>>=◌, ◌>>◌, if◌then◌else◌, ◌==◌, not, ◌&&◌, ◌||◌, leb,
  length, first, exists,
}
use website_go_based.Base.Int.{ℤ, pos, negsuc, pos_part, ltb_ℤ, leb_ℤ}
use website_go_based.Base.Text.{same_text}
use website_go_based.Base.Decimal.{app_name}
use website_go_based.Base.Sorting.{sort_by}
use website_go_based.Lab.Action.{
  Action, add_instance, remove_instance, set_instance_performance, set_instance_weights,
  set_balancing_mode, Mode, fixed, adaptive, other_mode, ActionInput, InstanceWeight, elements,
}
use website_go_based.Lab.Errors.{
  LabError, action_not_allowed, instance_not_found, min_instance_limit, max_instance_limit,
  weight_invalid, capacity_exceeded_error, nil_pointer,
}
use website_go_based.Lab.Quota.{Quota}
use mathlib.Core.Option
use website_go_based.Store.{Server, TopologyPayload}

pub record Instance : Type 0 where
  pub id : String
  pub name : String
  pub performance_percent : ℤ
  pub current_weight : ℤ

unfoldable pub topology_servers : List Instance → List Server
topology_servers [] = []
topology_servers (i ∷ is) =
    record { instance_name = i.name; weight = i.current_weight } ∷ topology_servers is

unfoldable pub topology_servers_without : List Instance → String → List Server
topology_servers_without [] excluded = []
topology_servers_without (i ∷ is) excluded =
    let rest = topology_servers_without is excluded in
    if same_text i.name excluded
    then rest
    else record { instance_name = i.name; weight = i.current_weight } ∷ rest

-- `used[name]`
unfoldable pub name_used : List Instance → String → Bool
name_used is name = exists (λ i. same_text i.name name) is

-- The loop of `nextInstanceName` from `index`, with the rounds left.
unfoldable pub next_name_from : List Instance → ℕ → ℕ → String
unfolding name_used
next_name_from is index zero = ""
next_name_from is index (suc rounds) =
    let later = next_name_from is (suc index) rounds in
    if name_used is (app_name index) then later else app_name index

unfoldable pub next_instance_name : List Instance → ℕ → String
unfolding next_name_from
next_instance_name is maximum = next_name_from is 1 maximum

unfoldable pub find_topology_instance : List Instance → String → Option Instance
find_topology_instance is target = first (λ i. same_text i.id target || same_text i.name target) is

unfoldable pub contains_instance : List Instance → String → Bool
contains_instance is target = exists (λ i. same_text i.id target || same_text i.name target) is

-- `values[id]`
unfoldable pub value_of : List (String × ℤ) → String → ℤ
value_of [] id = pos 0
value_of ((k, v) ∷ m) id = let rest = value_of m id in if same_text k id then v else rest

abbrev pub is_zero : ℤ → Bool
is_zero (pos zero) = true
is_zero (pos (suc n)) = false
is_zero (negsuc n) = false

abbrev pub is_fixed : Mode → Bool
is_fixed fixed = true
is_fixed adaptive = false
is_fixed (other_mode m) = false

-- The first loop of `validateWeights`.
unfoldable pub collect_weights :
    List (String × ℤ) → List InstanceWeight → Option (List (String × ℤ))
unfolding value_of
collect_weights m [] = some m
collect_weights m (w ∷ ws) =
    let rest = collect_weights ((w.instance_id, w.weight) ∷ m) ws in
    if ltb_ℤ w.weight (pos 1)
      || ltb_ℤ (pos 100) w.weight
      || not (is_zero (value_of m w.instance_id))
    then none
    else rest

-- The second loop of `validateWeights`.
unfoldable pub weigh : List (String × ℤ) → List Instance → Option (List Server)
unfolding value_of
weigh m [] = some []
weigh m (i ∷ is) =
    let weight = value_of m i.id in
    if is_zero weight
    then none
    else Option.map (λ rest. record { instance_name = i.name; weight = weight } ∷ rest) (weigh m is)

unfoldable pub validate_weights :
    List Instance → List InstanceWeight → Result LabError (List Server)
unfolding collect_weights weigh
validate_weights is weights = do
  require (length weights == length is) weight_invalid
  values ← or_fail (collect_weights [] weights) weight_invalid
  servers ← or_fail (weigh values is) weight_invalid
  ok (sort_by (λ s. s.instance_name) servers)

-- The cases of the `switch` of `buildTopologyPayload` fill in a payload and name a target.
-- `admission` is the answer of `admitGlobalTemporaryContainer`; a nil dereference is a panic.
unfoldable pub fill_payload :
    Action
    → Mode
    → List Instance
    → ActionInput
    → Quota
    → Result LabError (Unit {0})
    → TopologyPayload
    → Result LabError (TopologyPayload × Option String)
fill_payload add_instance mode is input quota admission p = do
  reject (leb_ℤ quota.max_instances_per_lab (pos (length is))) max_instance_limit
  admission
  let name = next_instance_name is (pos_part quota.max_instances_per_lab)
  ok (
    record p {
      instance_name = name;
      performance_percent = pos 100;
      servers = topology_servers is ++ record { instance_name = name; weight = pos 100 } ∷ [];
    },
    none,
  )
fill_payload remove_instance mode is input quota admission p = do
  reject (leb (length is) 1) min_instance_limit
  target ← or_fail input.target_instance_id nil_pointer
  require (contains_instance is target) instance_not_found
  ok (
    record p { instance_name = target; servers = topology_servers_without is target },
    input.target_instance_id,
  )
fill_payload set_instance_performance mode is input quota admission p = do
  target ← or_fail input.target_instance_id nil_pointer
  instance_row ← or_fail (find_topology_instance is target) instance_not_found
  percent ← or_fail input.performance_percent nil_pointer
  ok (
    record p {
      instance_name = target;
      performance_percent = percent;
      previous_performance_percent = instance_row.performance_percent;
      servers = topology_servers is;
    },
    input.target_instance_id,
  )
fill_payload set_instance_weights mode is input quota admission p = do
  require (is_fixed mode) action_not_allowed
  servers ← validate_weights is (elements input.weights)
  ok (record p { servers = servers }, none)
fill_payload set_balancing_mode mode is input quota admission p = ok (p, none)
fill_payload _ mode is input quota admission p = err action_not_allowed

unfoldable pub build_topology_payload :
    String
    → Mode
    → List Instance
    → ActionInput
    → Quota
    → Result LabError (Unit {0})
    → Result LabError (TopologyPayload × Option String)
unfolding fill_payload
build_topology_payload template mode is input quota admission =
    fill_payload input.action_type mode is input quota admission (record {
      request = input;
      scenario_template_id = template;
      instance_name = "";
      performance_percent = pos 0;
      previous_performance_percent = pos 0;
      servers = [];
      previous_servers = topology_servers is;
    })
