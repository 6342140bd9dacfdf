-- ===== src/Operation/Worker.antt =====
-- services/platform-api/internal/operation/worker.go: what a worker sends and reads. The orchestrator, the
-- runtime of the caches, the clock, the source of command ids, the database's faults and the JSON
-- library are a parameter, `Outside`; its world `W` is passed along with the store. A call of the
-- orchestrator may come back to another store, which the other workers wrote in the meantime.
pub mod Configuration
pub mod Decoding
pub mod Topology
pub mod Changes
pub mod Commands
pub mod Process
pub mod Rollback
pub mod Answers
use website_go_based.Base.{
  ℕ, Bool, Option, none, List, [], ◌∷◌, ◌++◌, String, Result, ok, err, zero, suc, ◌+◌, ◌-◌, ◌*◌,
  ◌/◌, ◌%◌, ◌≤◌, ◌<◌, ◌≡◌, refl, sym, ap, subst, ◌∙◌, ◌≢◌, ◌↔◌, ◌⊎◌, inl, inr, true, false, not,
  ◌&&◌, ◌||◌, some, map, arith, require, reject, or_fail, ◌>>◌, ltb, leb, ◌==◌, if◌then◌else◌,
  Bool-cases, Option-cases, length, length-append, All, All-append, All-map_pred, select, first,
  update_where, count_where, exists, >>=-ok, >>-ok, require-ok, reject-ok,
}
use website_go_based.Base.Decimal.{decimal}
use website_go_based.Base.Int.{ℤ}
use website_go_based.Operation.Provision.{ProvisionInstance, ProvisionRedis, ProvisionResult}
use website_go_based.Operation.Queue.{Record}
use website_go_based.Store.{OperationRow, Store, Server, Payload, Faults}

-- The payload of a command, one constructor for each body that the worker encodes.
pub data CommandPayload : Type 0 where
  stored : Payload → CommandPayload
  empty_object : CommandPayload
  redis_template : String → CommandPayload
  new_app : String → String → ℤ → CommandPayload
  named_app : String → CommandPayload
  capacity : String → String → ℤ → ℤ → CommandPayload
  upstream : List Server → CommandPayload

-- The three structures into which a stored payload is unmarshalled.
pub data Reader : Type 0 where
  topology_reader cache_reader identity_reader : Reader

-- `protocol.Command`.
pub record Command : Type 0 where
  pub command_type : String
  pub command_id : String
  pub operation_id : String
  pub lab_id : String
  pub requested_by : String
  pub payload : CommandPayload

-- `protocol.CommandResponse`: a value of type `any` is a `V`.
pub record Response (V : Type 0) : Type 0 where
  pub status : String
  pub result : V
  pub error : V

-- `log` is what was handed to `Execute` so far, in order, with the answers; the code does not keep it. A
-- command that fails before it leaves the worker, as under a cancelled context, stands there too, with
-- no answer.
pub record Machine (V W : Type 0) : Type 0 where
  pub store : Store
  pub world : W
  pub log : List (Command × Option (Response V))

pub record Outside (V W : Type 0) : Type 0 where
  -- `time.Now`, in microseconds
  pub clock : W → ℕ
  pub faults : W → Faults
  -- the rows that another transaction holds when the claim skips them
  pub locked : W → OperationRow → Bool
  -- what happens between two calls of the queue
  pub meantime : Store → W → Store × W
  -- `newCommandID`: the text of the error, or the id
  pub new_id : W → W × Result String String
  -- `Execute`: `none` is an error
  pub execute : Store → W → Command → (Store × W) × Option (Response V)
  -- `SetL1` of the lab, the instance and the state, where a runtime is configured
  pub set_l1 : Option (Store → W → String → String → Bool → (Store × W) × Bool)
  -- the wait of 200 ms: whether the context was cancelled
  pub wait : Store → W → (Store × W) × Bool
  -- `json.Unmarshal` of the stored payload
  pub readable : Reader → Payload → Bool
  -- `json.Unmarshal` of an encoded reply
  pub read_instance : V → Option ProvisionInstance
  pub read_provision : V → Option ProvisionResult
  pub read_redis : V → Option ProvisionRedis
  -- the field of a `map[string]any`, where the value is a map and the field a string
  pub text_field : V → String → Option String

-- A part of a handler: it moves the machine and returns a value.
abbrev pub Act : Type 0 → Type 0 → Type 0 → Type 0
Act V W A = Machine V W → Machine V W × A

unfoldable pub give : {V W A : Type 0} → A → Act V W A
give a m = (m, a)

infixl 5 ◌>>=◌
unfoldable pub ◌>>=◌ : {V W A B : Type 0} → Act V W A → (A → Act V W B) → Act V W B
◌>>=◌ f k m = let p = f m in k p.1 p.0

-- The fields of every command of an operation.
unfoldable pub command_of : Record → String → String → CommandPayload → Command
command_of r typ id payload = record {
  command_type = typ;
  command_id = id;
  operation_id = r.operation_id;
  lab_id = r.lab_id;
  requested_by = decimal r.requested_by;
  payload = payload;
}

-- `Execute` under the command's timeout.
unfoldable pub send : {V W : Type 0} → Outside V W → Command → Act V W (Option (Response V))
send o c m =
    let p = o.execute m.store m.world c in
    (record { store = p.0.0; world = p.0.1; log = m.log ++ (c, p.1) ∷ [] }, p.1)

-- `newCommandID`.
unfoldable pub fresh_id : {V W : Type 0} → Outside V W → Act V W (Result String String)
fresh_id o m = let p = o.new_id m.world in (record m { world = p.0 }, p.1)

-- `executeTopologyCommand`, once a command id was asked for.
unfoldable pub with_id :
    {V W : Type 0}
    → Outside V W
    → Record
    → String
    → CommandPayload
    → Result String String
    → Act V W (Option (Response V))
unfolding send command_of
with_id o r typ payload (err failure) = give none
with_id o r typ payload (ok id) = send o (command_of r typ id payload)

-- `executeTopologyCommand`.
unfoldable pub topology_command :
    {V W : Type 0} → Outside V W → Record → String → CommandPayload → Act V W (Option (Response V))
unfolding fresh_id with_id
topology_command o r typ payload = do made ← fresh_id o; with_id o r typ payload made
