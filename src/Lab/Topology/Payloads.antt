-- ===== src/Lab/Topology/Payloads.antt =====
-- `buildTopologyPayload` of services/platform-api/internal/lab/topology.go, after the validation of
-- session.go.
use website_go_based.Base.{
  In, ◌⊎◌, ◌||◌, exists, Bool-cases, inl, inr, suc, ◌+◌, ◌≤◌, ◌≡◌, refl, ◌≢◌, true, false, Option,
  some, List, [], ◌∷◌, ◌++◌, String, arith, Result, ok, err, length, All, map, select, not, ap, ◌∙◌,
}
use website_go_based.Base.Int.{pos, pos_part, ◌≤ℤ◌}
use website_go_based.Base.Text.{same_text}
use website_go_based.Lab.Action.{
  Action, add_instance, remove_instance, set_instance_weights, ActionInput, InstanceWeight, Mode,
  elements, valid_fields, valid_action_input,
}
use website_go_based.Lab.Errors.{LabError, nil_pointer}
use website_go_based.Lab.Quota.{Quota}
use website_go_based.Lab.Topology.{
  Instance, topology_servers, topology_servers_without, name_used, contains_instance,
  validate_weights, fill_payload, build_topology_payload,
}
use website_go_based.Lab.Topology.Names.{next_instance_name_free}
use website_go_based.Store.{Server, TopologyPayload}

validate_weights_no_panic :
    (is : List Instance) (ws : List InstanceWeight) → validate_weights is ws ≢ err nil_pointer
unfolding validate_weights
validate_weights_no_panic is ws e = ground arith

fill_payload_no_panic :
    (a : Action) (mode : Mode) (is : List Instance) (input : ActionInput) (q : Quota)
    (admission : Result LabError (Unit {0})) (p : TopologyPayload)
    → valid_fields a input ≡ true
    → admission ≢ err nil_pointer
    → fill_payload a mode is input q admission p ≢ err nil_pointer
unfolding fill_payload valid_fields
fill_payload_no_panic set_instance_weights mode is input q admission p v h e =
    ground (arith, validate_weights_no_panic is (elements input.weights))
fill_payload_no_panic _ mode is input q admission p v h e = ground arith

-- An input that `validActionInput` accepted never makes the builder dereference a nil pointer.
pub build_topology_payload_no_panic :
    (template : String) (mode : Mode) (is : List Instance) (input : ActionInput) (q : Quota)
    (admission : Result LabError (Unit {0}))
    → valid_action_input input ≡ true
    → admission ≢ err nil_pointer
    → build_topology_payload template mode is input q admission ≢ err nil_pointer
unfolding build_topology_payload valid_action_input
build_topology_payload_no_panic template mode is input q admission v a =
    fill_payload_no_panic input.action_type mode is input q admission _ v a

-- The server of an instance.
abbrev pub server_of : Instance → Server
server_of i = record { instance_name = i.name; weight = i.current_weight }

topology_servers_lem : (is : List Instance) → topology_servers is ≡ map server_of is
unfolding topology_servers
topology_servers_lem [] = refl
topology_servers_lem (i ∷ is) = ap (◌∷◌ (server_of i)) (topology_servers_lem is)

fill_add_instance :
    (a : Action) (mode : Mode) (is : List Instance) (input : ActionInput) (q : Quota)
    (admission : Result LabError (Unit {0})) (p p' : TopologyPayload) (target : Option String)
    → a ≡ add_instance
    → fill_payload a mode is input q admission p ≡ ok (p', target)
    → (admission ≡ ok tt)
      × (pos (suc (length is)) ≤ℤ q.max_instances_per_lab)
      × (name_used is p'.instance_name ≡ false)
      × (p'.servers
          ≡ topology_servers is
            ++ record { instance_name = p'.instance_name; weight = pos 100 } ∷ [])
unfolding fill_payload
fill_add_instance a mode is input q admission p p' target h e =
    ground (arith, next_instance_name_free is (pos_part q.max_instances_per_lab))

-- An accepted ADD_INSTANCE stays within the limit of the lab, takes a name that no instance has, keeps
-- the server of every instance, with its weight, and adds one of weight 100 under the new name.
pub build_add_instance :
    (template : String) (mode : Mode) (is : List Instance) (input : ActionInput) (q : Quota)
    (admission : Result LabError (Unit {0})) (p : TopologyPayload) (target : Option String)
    → input.action_type ≡ add_instance
    → build_topology_payload template mode is input q admission ≡ ok (p, target)
    → (admission ≡ ok tt)
      × (pos (suc (length is)) ≤ℤ q.max_instances_per_lab)
      × (name_used is p.instance_name ≡ false)
      × (p.servers
          ≡ map server_of is ++ record { instance_name = p.instance_name; weight = pos 100 } ∷ [])
unfolding build_topology_payload
build_add_instance template mode is input q admission p target a e =
    let (admitted, fits, free, servers) =
      fill_add_instance input.action_type mode is input q admission _ p target a e in
    (
      admitted,
      fits,
      free,
      servers
          ∙ ap (λ l. l ++ record { instance_name = p.instance_name; weight = pos 100 } ∷ [])
              (topology_servers_lem is),
    )

topology_servers_without_lem :
    (is : List Instance) (target : String)
    → topology_servers_without is target
      ≡ map server_of (select (λ i. not (same_text i.name target)) is)
unfolding topology_servers_without select
topology_servers_without_lem [] target = refl
topology_servers_without_lem (i ∷ is) target =
    ground (arith, topology_servers_without_lem is target)

-- The names of the instances are distinct, as the unique key of the table demands.
abbrev pub DistinctNames : List Instance → Type 0
DistinctNames [] = Unit
DistinctNames (i ∷ is) = All (λ j. j.name ≢ i.name) is × DistinctNames is

-- Of instances with distinct names, at most one is left out.
none_named :
    (is : List Instance) (i : Instance) (target : String)
    → All (λ j. j.name ≢ i.name) is
    → i.name ≡ target
    → length (select (λ i. not (same_text i.name target)) is) ≡ length is
unfolding select
none_named [] i target h e = refl
none_named (j ∷ js) i target h e = ground (arith, none_named js i target h.1)

one_left_out :
    (is : List Instance) (target : String)
    → DistinctNames is
    → length is ≤ length (select (λ i. not (same_text i.name target)) is) + 1
unfolding select
one_left_out [] target h = omega arith
one_left_out (i ∷ is) target h =
    ground (arith, none_named is i target h.0, one_left_out is target h.1)

length-servers : (is : List Instance) → length (map server_of is) ≡ length is
length-servers [] = refl
length-servers (i ∷ is) = omega (arith, length-servers is)

fill_remove_instance :
    (a : Action) (mode : Mode) (is : List Instance) (input : ActionInput) (q : Quota)
    (admission : Result LabError (Unit {0})) (p p' : TopologyPayload) (target : Option String)
    → a ≡ remove_instance
    → fill_payload a mode is input q admission p ≡ ok (p', target)
    → (target ≡ some p'.instance_name)
      × (contains_instance is p'.instance_name ≡ true)
      × (2 ≤ length is)
      × (p'.servers ≡ topology_servers_without is p'.instance_name)
unfolding fill_payload
fill_remove_instance a mode is input q admission p p' target h e = ground arith

contained :
    (is : List Instance) (target : String)
    → contains_instance is target ≡ true
    → (i : Instance) × In i is × ((i.id ≡ target) ⊎ (i.name ≡ target))
unfolding contains_instance exists
contained [] target h = cc
contained (i ∷ is) target h = elim (Bool-cases (same_text i.id target || same_text i.name target)) [
  | inl hit ↦ (i, inl refl, ground arith)
  | inr miss ↦ let (j, member, same) = contained is target (ground arith) in (j, inr member, same)
]

-- An accepted REMOVE_INSTANCE names an instance of the lab, by its identifier or name, and its servers are those of the instances
-- with another name, in their order and with the weights that they have; at least one is left.
pub build_remove_instance :
    (template : String) (mode : Mode) (is : List Instance) (input : ActionInput) (q : Quota)
    (admission : Result LabError (Unit {0})) (p : TopologyPayload) (target : Option String)
    → input.action_type ≡ remove_instance
    → DistinctNames is
    → build_topology_payload template mode is input q admission ≡ ok (p, target)
    → (target ≡ some p.instance_name)
      × ((i : Instance) × In i is × ((i.id ≡ p.instance_name) ⊎ (i.name ≡ p.instance_name)))
      × (p.servers ≡ map server_of (select (λ i. not (same_text i.name p.instance_name)) is))
      × (1 ≤ length p.servers)
unfolding build_topology_payload
build_remove_instance template mode is input q admission p target a d e =
    let (named_target, present, two, servers) =
      fill_remove_instance input.action_type mode is input q admission _ p target a e in
    let others = servers ∙ topology_servers_without_lem is p.instance_name in
    (
      named_target,
      contained is p.instance_name present,
      others,
      rw others (
          omega (
            arith,
            two,
            one_left_out is p.instance_name d,
            length-servers (select (λ i. not (same_text i.name p.instance_name)) is),
          )),
    )
