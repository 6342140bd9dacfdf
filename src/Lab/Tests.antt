-- ===== src/Lab/Tests.antt =====
-- Runs of the rules of services/platform-api/internal/lab.
use website_go_based.Lab.Identity.Shape.{
  LabChar, OperationChar, Starts, Alphanumeric, Lower, valid_lab_id_iff, valid_operation_id_iff,
}
use website_go_based.Lab.Topology.Names.{next_instance_name_free}
use Prim.Native.String.{len}
use mathlib.Core.List.{Perm}
use website_go_based.Base.Text.{String-discrete, same_text, codes}
use website_go_based.Base.Decimal.{app_name}
use website_go_based.Store.{Server, TopologyPayload}
use website_go_based.Lab.Topology.Weights.{
  Distinct, InRange, Named, validate_weights_complete, Assigned, validate_weights_sound,
}
use website_go_based.Lab.Topology.Payloads.{
  DistinctNames, server_of, build_remove_instance, build_topology_payload_no_panic,
  build_add_instance,
}
use website_go_based.Lab.Topology.{
  Instance, build_topology_payload, contains_instance, next_instance_name, validate_weights,
  name_used, topology_servers,
}
use website_go_based.Lab.Status.Machine.{Life, reach_terminated}
use website_go_based.Lab.Status.{valid, terminated, preparing}
use website_go_based.Lab.Quota.{Quota, Reservation, Usage, admit_instance_count}
use website_go_based.Lab.Identity.{valid_lab_id, valid_operation_id}
use website_go_based.Lab.Errors.{LabError, nil_pointer}
use website_go_based.Lab.Action.{
  ActionInput, InstanceWeight, valid_action_input, add_instance, fixed, remove_instance,
}
use website_go_based.Base.{
  In, ℕ, zero, suc, ◌+◌, ◌-◌, ◌*◌, ◌/◌, ◌%◌, ◌≤◌, ◌<◌, ◌≡◌, refl, sym, ap, subst, ◌∙◌, ◌≢◌, ◌↔◌,
  ◌⊎◌, inl, inr, Bool, true, false, not, ◌&&◌, ◌||◌, Option, none, some, List, [], ◌∷◌, ◌++◌, map,
  String, arith, Result, ok, err, require, reject, or_fail, ◌>>=◌, ◌>>◌, ltb, leb, ◌==◌,
  if◌then◌else◌, Bool-cases, Option-cases, length, length-append, All, All-append, All-map_pred,
  select, first, update_where, count_where, exists, >>=-ok, >>-ok, require-ok, reject-ok,
}
use website_go_based.Base.Int.{pos, negsuc, ◌≤ℤ◌, ◌+ℤ◌}

reach_terminated_example : Life preparing terminated
unfolding valid
reach_terminated_example = reach_terminated preparing refl

abbrev limits : Quota
limits = record {
  max_active_labs = pos 3;
  max_temporary_containers = pos 10;
  max_instances_per_lab = pos 4;
}

abbrev usage : Usage
usage = record { active_labs = pos 2; temporary_containers = pos 9 }

abbrev reservation : Reservation
reservation = record { temporary_containers = pos 1; instances = pos 1 }

-- The sum of the count and the change wraps around, as Go's int does.
count_fits_test : admit_instance_count limits (pos 3) (pos 1) ≡ ok tt
unfolding admit_instance_count ◌+ℤ◌
count_fits_test = refl

count_wraps_test :
    admit_instance_count limits (negsuc 9223372036854775807) (negsuc 9223372036854775806) ≡ ok tt
unfolding admit_instance_count ◌+ℤ◌
count_wraps_test = refl

valid_lab_id_iff_example : (valid_lab_id "lab-01" ≡ true) ↔ (
    (4 ≤ len "lab-01")
    × (len "lab-01" ≤ 64)
    × All LabChar (codes "lab-01")
    × Starts Lower (codes "lab-01"))
valid_lab_id_iff_example = valid_lab_id_iff "lab-01"

valid_operation_id_iff_example : (valid_operation_id "Op_1.a" ≡ true) ↔ (
    (1 ≤ len "Op_1.a")
    × (len "Op_1.a" ≤ 64)
    × All OperationChar (codes "Op_1.a")
    × Starts Alphanumeric (codes "Op_1.a"))
valid_operation_id_iff_example = valid_operation_id_iff "Op_1.a"

abbrev instance_1 : Instance
instance_1 = record {
  id = "app-1";
  name = "app-1";
  performance_percent = pos 100;
  current_weight = pos 100;
}

abbrev instance_2 : Instance
instance_2 = record instance_1 { id = "app-2"; name = "app-2" }

next_instance_name_free_example :
    (j : ℕ) × (1 ≤ j)
    × (j ≤ 4)
    × (next_instance_name (instance_1 ∷ []) 4 ≡ app_name j)
    × (name_used (instance_1 ∷ []) (next_instance_name (instance_1 ∷ []) 4) ≡ false)
next_instance_name_free_example = next_instance_name_free (instance_1 ∷ []) 4 (omega arith)

abbrev two : List Instance
two = instance_2 ∷ instance_1 ∷ []

abbrev weights : List InstanceWeight
weights =
    record { instance_id = "app-1"; weight = pos 30 }
    ∷ record { instance_id = "app-2"; weight = pos 70 }
    ∷ []

abbrev servers : List Server
servers =
    record { instance_name = "app-1"; weight = pos 30 }
    ∷ record { instance_name = "app-2"; weight = pos 70 }
    ∷ []

weights_test : validate_weights two weights ≡ ok servers
unfolding validate_weights website_go_based.Base.Text.String-discrete
    website_go_based.Base.Sorting.sort_by
weights_test = refl

validate_weights_sound_example :
    (plan : List Server) × Perm servers plan
    × Assigned weights two plan
    × (length weights ≡ length two)
validate_weights_sound_example = validate_weights_sound two weights servers weights_test

names_differ : (s t : String) → same_text s t ≡ false → s ≢ t
names_differ s t h e = ground arith

weights-InRange : All (λ w. InRange w.weight) weights
weights-InRange = ground arith

weights-Distinct : Distinct weights
unfolding String-discrete
weights-Distinct = ((names_differ "app-2" "app-1" refl, tt), (tt, tt))

weights-Named : All (λ i. Named i.id weights) two
weights-Named = ground arith

validate_weights_complete_example :
    (answer : List Server) × (validate_weights two weights ≡ ok answer)
validate_weights_complete_example =
    validate_weights_complete two weights refl weights-InRange weights-Distinct weights-Named

abbrev free_place : Result LabError (Unit {0})
free_place = ok tt

abbrev add_input : ActionInput
add_input = record {
  operation_id = "op-3";
  action_type = add_instance;
  target_instance_id = none;
  performance_percent = none;
  weights = none;
  balancing_mode = none;
}

abbrev add_payload : TopologyPayload
add_payload = record {
  request = add_input;
  scenario_template_id = "template";
  instance_name = "app-2";
  performance_percent = pos 100;
  previous_performance_percent = pos 0;
  servers =
      record { instance_name = "app-1"; weight = pos 100 }
      ∷ record { instance_name = "app-2"; weight = pos 100 }
      ∷ [];
  previous_servers = record { instance_name = "app-1"; weight = pos 100 } ∷ [];
}

add_test :
    build_topology_payload "template" fixed (instance_1 ∷ []) add_input limits free_place
    ≡ ok (add_payload, none)
unfolding build_topology_payload next_instance_name topology_servers exists
    website_go_based.Base.Text.String-discrete app_name
add_test = refl

build_add_instance_example :
    (free_place ≡ ok tt)
    × (pos (suc (length (instance_1 ∷ []))) ≤ℤ limits.max_instances_per_lab)
    × (name_used (instance_1 ∷ []) add_payload.instance_name ≡ false)
    × (add_payload.servers
        ≡ map server_of (instance_1 ∷ [])
          ++ record { instance_name = add_payload.instance_name; weight = pos 100 } ∷ [])
build_add_instance_example =
    build_add_instance "template" fixed (instance_1 ∷ []) add_input limits free_place add_payload
      none refl add_test

abbrev remove_input : ActionInput
remove_input = record add_input { action_type = remove_instance; target_instance_id = some "app-2" }

abbrev remove_payload : TopologyPayload
remove_payload = record add_payload {
  request = remove_input;
  performance_percent = pos 0;
  servers = record { instance_name = "app-1"; weight = pos 100 } ∷ [];
  previous_servers =
      record { instance_name = "app-2"; weight = pos 100 }
      ∷ record { instance_name = "app-1"; weight = pos 100 }
      ∷ [];
}

remove_test :
    build_topology_payload "template" fixed two remove_input limits free_place
    ≡ ok (remove_payload, some "app-2")
unfolding build_topology_payload contains_instance exists website_go_based.Base.Text.String-discrete
    website_go_based.Lab.Topology.topology_servers_without topology_servers
remove_test = refl

two_names : DistinctNames two
unfolding String-discrete
two_names = ((names_differ "app-1" "app-2" refl, tt), (tt, tt))

build_remove_instance_example :
    (some "app-2" ≡ some remove_payload.instance_name)
    × ((i : Instance) × In i two
        × ((i.id ≡ remove_payload.instance_name) ⊎ (i.name ≡ remove_payload.instance_name)))
    × (remove_payload.servers
        ≡ map server_of (select (λ i. not (same_text i.name remove_payload.instance_name)) two))
    × (1 ≤ length remove_payload.servers)
build_remove_instance_example =
    build_remove_instance "template" fixed two remove_input limits free_place remove_payload
      (some "app-2") refl two_names remove_test

admission_open : free_place ≢ err nil_pointer
admission_open = λ e. ground arith

add_input_test : valid_action_input add_input ≡ true
unfolding valid_action_input
add_input_test = refl

build_topology_payload_no_panic_example :
    build_topology_payload "template" fixed two add_input limits free_place ≢ err nil_pointer
build_topology_payload_no_panic_example =
    build_topology_payload_no_panic "template" fixed two add_input limits free_place add_input_test
      admission_open
