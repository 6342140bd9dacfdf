-- ===== src/Operation/Worker/Rollback.antt =====
-- services/platform-api/internal/operation/worker.go: an instance that the orchestrator created is recorded or
-- deleted again.
use website_go_based.Base.{
  ◌≡◌, refl, sym, subst, ◌⊎◌, inl, inr, Bool, true, false, Option, none, some, List, [], ◌∷◌, ◌++◌,
  String, arith, Result, ok, err, Bool-cases,
}
use website_go_based.Operation.Worker.{
  Outside, Machine, Response, Command, CommandPayload, named_app, new_app, topology_command,
  fresh_id, send, command_of, give, ◌>>=◌, with_id,
}
use website_go_based.Operation.Worker.Decoding.{TopologyView, decode_instance}
use website_go_based.Operation.Worker.Topology.{
  Completion, provision_done, reset_done, destroy_done, failure_done, topology_done, cache_done,
  cancelled, is_success, apply_servers, route_added, add_instance_command, instance_reply,
  after_create,
}
use website_go_based.Operation.Provision.{ProvisionInstance, is_blank}
use website_go_based.Base.Text.{String-discrete}
use website_go_based.Operation.Queue.{Record}

-- What a handler tells the queue: an empty error code is a success.
unfoldable pub reports_success : Completion → Bool
reports_success (provision_done v code message) = is_blank code
reports_success (reset_done v code message) = is_blank code
reports_success (destroy_done code message) = is_blank code
reports_success (failure_done code message) = false
reports_success (topology_done v code message) = is_blank code
reports_success (cache_done v code message) = is_blank code
reports_success cancelled = false

unfoldable pub last_of : {A : Type 0} → List A → Option A
last_of [] = none
last_of (a ∷ []) = some a
last_of (a ∷ b ∷ rest) = last_of (b ∷ rest)

pub last_of-append : {A : Type 0} (xs : List A) (a : A) → last_of (xs ++ a ∷ []) ≡ some a
unfolding last_of
last_of-append [] a = refl
last_of-append (x ∷ []) a = refl
last_of-append (x ∷ y ∷ rest) a = last_of-append (y ∷ rest) a

-- The command that was sent last, with its answer.
abbrev pub Sent :
    {V W : Type 0} → Machine V W → String → CommandPayload → Option (Response V) → Type 0
Sent {V} m typ payload answer =
    (c : Command) × (last_of m.log ≡ some (c, answer))
    × (c.command_type ≡ typ)
    × (c.payload ≡ payload)

-- `newCommandID` finds random bytes.
abbrev pub Ids : {V W : Type 0} → Outside V W → Type 0
Ids {V} {W} o = (w : W) → (id : String) × ((o.new_id w).1 ≡ ok id)

module _ {V W : Type 0} (o : Outside V W) (ids : Ids o) where
  with_id-Sent :
      (r : Record) (typ : String) (payload : CommandPayload) (id : String) (m : Machine V W)
      → Sent (with_id o r typ payload (ok id) m).0 typ payload (with_id o r typ payload (ok id) m).1
  unfolding with_id send command_of
  with_id-Sent r typ payload id m =
      (command_of r typ id payload, last_of-append m.log _, refl, refl)

  pub topology_command-Sent :
      (r : Record) (typ : String) (payload : CommandPayload) (m : Machine V W)
      → Sent
          (topology_command o r typ payload m).0
          typ
          payload
          (topology_command o r typ payload m).1
  unfolding topology_command fresh_id ◌>>=◌
  topology_command-Sent r typ payload m =
      let (id, made) = ids m.world in
      let m1 = record m { world = (o.new_id m.world).0 } in
      subst
        (λ z. Sent (with_id o r typ payload z m1).0 typ payload (with_id o r typ payload z m1).1)
        (sym made) (with_id-Sent r typ payload id m1)

  success_reported : is_blank "" ≡ true
  unfolding String-discrete
  success_reported = refl

  route_added-rolled_back :
      (r : Record) (p : TopologyView) (i : ProvisionInstance) (m : Machine V W)
      → (reports_success (route_added o r p i m).1 ≡ true)
        ⊎ ((answer : Option (Response V)) × Sent
              (route_added o r p i m).0
              "DELETE_APP_INSTANCE"
              (named_app p.instance_name)
              answer)
  unfolding route_added reports_success give ◌>>=◌
  route_added-rolled_back r p i m = elim (Bool-cases (apply_servers o r p.servers m).1) [
    | inl applied ↦ rw applied (inl success_reported)
    | inr refused ↦ rw refused (
        inr (
          _,
          topology_command-Sent r "DELETE_APP_INSTANCE" (named_app p.instance_name)
              (apply_servers o r p.servers m).0,
        ))
  ]

  after_create-rolled_back :
      (r : Record) (p : TopologyView) (x : Result Completion ProvisionInstance)
      (i : ProvisionInstance) (m : Machine V W)
      → x ≡ ok i
      → (reports_success (after_create o r p x m).1 ≡ true)
        ⊎ ((answer : Option (Response V)) × Sent
              (after_create o r p x m).0
              "DELETE_APP_INSTANCE"
              (named_app p.instance_name)
              answer)
  unfolding after_create
  after_create-rolled_back r p (err failure) i m e = absurd (ground arith)
  after_create-rolled_back r p (ok j) i m e = route_added-rolled_back r p j m

  instance_reply-usable :
      (answer : Option (Response V)) (x : Response V) (i : ProvisionInstance)
      (unavailable incomplete : String)
      → answer ≡ some x
      → is_success x ≡ true
      → decode_instance o x.result ≡ some i
      → instance_reply o answer unavailable incomplete ≡ ok i
  unfolding instance_reply
  instance_reply-usable none x i unavailable incomplete e succeeded decoded = absurd (ground arith)
  instance_reply-usable (some y) x i unavailable incomplete e succeeded decoded =
      let same : y ≡ x = ground arith in rw (same, succeeded, decoded) refl

  -- When command ids can be made and the orchestrator answers CREATE_APP_INSTANCE with a usable
  -- instance, `addInstance` reports success to the queue or the last command that it sent is
  -- DELETE_APP_INSTANCE of that instance's name.
  pub created_or_deleted :
      (r : Record) (p : TopologyView) (m : Machine V W) (x : Response V) (i : ProvisionInstance)
      → (topology_command o r "CREATE_APP_INSTANCE"
          (new_app p.scenario_template_id p.instance_name p.performance_percent)
          m).1
        ≡ some x
      → is_success x ≡ true
      → decode_instance o x.result ≡ some i
      → (reports_success (add_instance_command o r p m).1 ≡ true)
        ⊎ ((answer : Option (Response V)) × Sent
              (add_instance_command o r p m).0
              "DELETE_APP_INSTANCE"
              (named_app p.instance_name)
              answer)
  unfolding add_instance_command ◌>>=◌
  created_or_deleted r p m x i answered succeeded decoded =
      after_create-rolled_back r p _ i _
        (instance_reply-usable _ x i _ _ answered succeeded decoded)
