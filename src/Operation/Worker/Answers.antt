-- ===== src/Operation/Worker/Answers.antt =====
-- services/platform-api/internal/operation/worker.go: a worker tells the queue that an operation succeeded only
-- when the orchestrator answered its last command with "succeeded".
pub mod Handlers
pub mod Commands
use website_go_based.Operation.Worker.Changes.{
  route_performance, after_update, set_performance_command, weights_command, validate_weights,
  after_validation, adaptive_command,
}
use website_go_based.Base.{
  ◌≡◌, refl, sym, ap, subst, ◌∙◌, inl, inr, Bool, true, false, not, ◌&&◌, Option, none, some, List,
  String, arith, Result, ok, err, if◌then◌else◌, Bool-cases, Option-cases, ℕ, zero, suc, ◌+◌, ◌-◌,
  ◌*◌, ◌/◌, ◌%◌, ◌≤◌, ◌<◌, ◌≢◌, ◌↔◌, ◌⊎◌, ◌||◌, [], ◌∷◌, ◌++◌, map, require, reject, or_fail, ◌>>◌,
  ltb, leb, ◌==◌, length, length-append, All, All-append, All-map_pred, select, first, update_where,
  count_where, exists, >>=-ok, >>-ok, require-ok, reject-ok,
}
use website_go_based.Base.Text.{String-discrete}
use website_go_based.Operation.Worker.{
  Outside, Machine, Act, Response, Command, CommandPayload, with_id, topology_command, fresh_id,
  send, command_of, give, ◌>>=◌,
}
use website_go_based.Operation.Worker.Decoding.{
  TopologyView, text_or, error_message, error_code, decode_instance,
}
use website_go_based.Operation.Worker.Topology.{
  Completion, topology_done, cancelled, topology_failure, is_success, applied_by, apply_servers,
  route_added, after_create, add_instance_command, instance_reply, removal_failure, after_delete,
  delete_instance, pause, remove_instance_command,
}
use website_go_based.Operation.Worker.Rollback.{last_of, last_of-append, reports_success}
use website_go_based.Balancer.{BalancerError}
use website_go_based.Operation.Worker.Topology.{empty_topology}
use website_go_based.Operation.Provision.{ProvisionInstance, is_blank}
use website_go_based.Operation.Queue.{Record}
use website_go_based.Store.{Server}

-- The last command was answered with "succeeded".
abbrev pub Replied : {V W : Type 0} → Machine V W → Type 0
Replied {V} m =
    (c : Command) × (x : Response V) × (last_of m.log ≡ some (c, some x)) × (is_success x ≡ true)

-- A success that skips nothing.
unfoldable pub reports_change : Completion → Bool
unfolding reports_success
reports_change (topology_done v code message) = is_blank code && not v.skipped
reports_change c = reports_success c

-- A handler that reports a change only after such a reply.
abbrev pub Honest : {V W : Type 0} → Act V W Completion → Type 0
Honest {V} {W} f = (m : Machine V W) → reports_change (f m).1 ≡ true → Replied (f m).0

text_or-is_blank :
    (t : Option String) (fallback : String)
    → is_blank fallback ≡ false
    → is_blank (text_or t fallback) ≡ false
unfolding text_or
text_or-is_blank none fallback h = h
text_or-is_blank (some t) fallback h = ground arith

command_failed : is_blank "ORCHESTRATOR_COMMAND_FAILED" ≡ false
unfolding String-discrete
command_failed = refl

pub error_code-is_blank :
    {V W : Type 0} (o : Outside V W) (v : V) → is_blank (error_code o v) ≡ false
unfolding error_code
error_code-is_blank o v = text_or-is_blank _ "ORCHESTRATOR_COMMAND_FAILED" command_failed

pub unavailable : is_blank "ORCHESTRATOR_UNAVAILABLE" ≡ false
unfolding String-discrete
unavailable = refl

pub response_incomplete : is_blank "ORCHESTRATOR_RESPONSE_INCOMPLETE" ≡ false
unfolding String-discrete
response_incomplete = refl

pub config_invalid : is_blank "NGINX_CONFIG_INVALID" ≡ false
unfolding String-discrete
config_invalid = refl

pub internal_error : is_blank "INTERNAL_ERROR" ≡ false
unfolding String-discrete
internal_error = refl

pub invalid_operation : is_blank "INVALID_OPERATION" ≡ false
unfolding String-discrete
invalid_operation = refl

pub failure-reports_change :
    (code message : String)
    → is_blank code ≡ false
    → reports_change (topology_failure code message) ≡ false
unfolding reports_change
failure-reports_change code message h = ground arith

module _ {V W : Type 0} (o : Outside V W) where
  pub send-Replied :
      (c : Command) (m : Machine V W) (x : Response V)
      → (send o c m).1 ≡ some x
      → is_success x ≡ true
      → Replied (send o c m).0
  unfolding send
  send-Replied c m x answered succeeded =
      (c, x, last_of-append m.log _ ∙ ap (λ a. some (c, a)) answered, succeeded)

  pub with_id-Replied :
      (r : Record) (typ : String) (payload : CommandPayload) (made : Result String String)
      (m : Machine V W) (x : Response V)
      → (with_id o r typ payload made m).1 ≡ some x
      → is_success x ≡ true
      → Replied (with_id o r typ payload made m).0
  unfolding with_id give
  with_id-Replied r typ payload (err failure) m x answered succeeded = absurd (ground arith)
  with_id-Replied r typ payload (ok id) m x answered succeeded =
      send-Replied (command_of r typ id payload) m x answered succeeded

  pub topology_command-Replied :
      (r : Record) (typ : String) (payload : CommandPayload) (m : Machine V W) (x : Response V)
      → (topology_command o r typ payload m).1 ≡ some x
      → is_success x ≡ true
      → Replied (topology_command o r typ payload m).0
  unfolding topology_command ◌>>=◌
  topology_command-Replied r typ payload m x answered succeeded =
      with_id-Replied r typ payload (fresh_id o m).1 (fresh_id o m).0 x answered succeeded

  pub applied_by-some :
      (answer : Option (Response V))
      → applied_by answer ≡ true
      → (x : Response V) × (answer ≡ some x) × (is_success x ≡ true)
  unfolding applied_by
  applied_by-some none e = absurd (ground arith)
  applied_by-some (some x) e = (x, refl, e)

  pub apply_servers-Replied :
      (r : Record) (servers : List Server) (m : Machine V W)
      → (apply_servers o r servers m).1 ≡ true
      → Replied (apply_servers o r servers m).0
  unfolding apply_servers ◌>>=◌ give
  apply_servers-Replied r servers m e =
      let (x, answered, succeeded) = applied_by-some _ e in
      topology_command-Replied r _ _ m x answered succeeded

  -- A failure is not a change.
  pub failing :
      (code message : String) (m : Machine V W)
      → is_blank code ≡ false
      → reports_change (topology_failure code message) ≡ true
      → Replied m
  failing code message m h e = absurd (ground (arith, failure-reports_change code message h))

  pub failing-Honest :
      (code message : String)
      → is_blank code ≡ false
      → Honest {V = V} {W = W} (give (topology_failure code message))
  unfolding give
  failing-Honest code message h m e = failing code message m h e

  pub bind-Honest :
      {A : Type 0} (f : Act V W A) (k : A → Act V W Completion)
      → ((a : A) → Honest (k a))
      → Honest (f >>= k)
  unfolding ◌>>=◌
  bind-Honest f k each m e = each (f m).1 (f m).0 e

  pub applied-Honest :
      (b : Bool) (k : Bool → Act V W Completion) (m : Machine V W)
      → (b ≡ true → Replied m)
      → ((z : Machine V W) → Replied z → reports_change (k true z).1 ≡ true → Replied (k true z).0)
      → Honest (k false)
      → reports_change (k b m).1 ≡ true
      → Replied (k b m).0
  applied-Honest true k m replied yes_case no_case e = yes_case m (replied refl) e
  applied-Honest false k m replied yes_case no_case e = no_case m e

  -- A handler that goes on after `applyTopologyServers`.
  pub apply-Honest :
      (r : Record) (servers : List Server) (k : Bool → Act V W Completion)
      → ((z : Machine V W) → Replied z → reports_change (k true z).1 ≡ true → Replied (k true z).0)
      → Honest (k false)
      → Honest (apply_servers o r servers >>= k)
  unfolding ◌>>=◌
  apply-Honest r servers k yes_case no_case m e =
      applied-Honest _ k _ (apply_servers-Replied r servers m) yes_case no_case e

  pub given-Replied :
      (c : Completion) (z : Machine V W)
      → Replied z
      → reports_change (give {V = V} {W = W} c z).1 ≡ true
      → Replied (give {V = V} {W = W} c z).0
  unfolding give
  given-Replied c z replied e = replied

  pub if-Honest :
      (t : Bool) (f g : Act V W Completion) → Honest f → Honest g → Honest (if t then f else g)
  if-Honest true f g left right = left
  if-Honest false f g left right = right
