-- ===== src/Operation/Worker/Process.antt =====
-- services/platform-api/internal/operation/worker.go: `processOne` and `Run`. A pass claims an operation, marks
-- it as running, works on it and completes it; between two of these the other workers go on.
use website_go_based.Base.{
  ℕ, zero, suc, ◌+◌, Bool, true, false, Option, none, some, String, Result, ok, err,
}
use website_go_based.Operation.Worker.{Outside, Machine}
use website_go_based.Operation.Worker.Topology.{
  Completion, provision_done, reset_done, destroy_done, failure_done, topology_done, cache_done,
  cancelled,
}
use website_go_based.Operation.Worker.Commands.{outcome}
use website_go_based.Operation.Queue.{
  QueueError, no_pending, Record, claim, mark_running, complete_failure,
}
use website_go_based.Operation.Endings.{complete_provision, complete_reset, complete_destroy}
use website_go_based.Operation.Changes.{complete_topology}
use website_go_based.Operation.Caches.{complete_cache}
use website_go_based.Store.{Store, Faults}

-- The error that a pass returns: of the queue, or of the cancelled context.
pub data PassError : Type 0 where
  queue_error : QueueError → PassError
  context_cancelled : PassError

-- Whether an operation was processed, and the error.
pub record Pass : Type 0 where
  pub processed : Bool
  pub error : Option PassError

abbrev pub queue_result : Result QueueError Store → Result PassError Store
queue_result (ok s) = ok s
queue_result (err e) = err (queue_error e)

-- The call of the queue that a handler ends with.
unfoldable pub finish : Completion → Faults → Store → Record → ℕ → Result PassError Store
finish (provision_done v code message) fails s r now =
    queue_result (complete_provision fails s r v code message now)
finish (reset_done v code message) fails s r now =
    queue_result (complete_reset fails s r v code message now)
finish (destroy_done code message) fails s r now =
    queue_result (complete_destroy fails s r code message now)
finish (failure_done code message) fails s r now =
    queue_result (complete_failure fails s r code message now)
finish (topology_done v code message) fails s r now =
    queue_result (complete_topology fails s r v code message now)
finish (cache_done v code message) fails s r now =
    queue_result (complete_cache fails s r v code message now)
finish cancelled fails s r now = err context_cancelled

unfoldable pub after : {V W : Type 0} → Outside V W → Store → Machine V W → Machine V W
after o s m = let p = o.meantime s m.world in record m { store = p.0; world = p.1 }

unfoldable pub finished : {V W : Type 0} → Machine V W → Result PassError Store → Machine V W × Pass
finished m (err e) = (m, record { processed = true; error = some e })
finished m (ok s) = (record m { store = s }, record { processed = true; error = none })

-- The end of a pass: complete the operation.
unfoldable pub finish_pass :
    {V W : Type 0} → Outside V W → Record → Machine V W → Completion → Machine V W × Pass
unfolding finish finished
finish_pass o r m c = finished m (finish c (o.faults m.world) m.store r (o.clock m.world))

unfoldable pub worked_on :
    {V W : Type 0}
    → (String → String)
    → Outside V W
    → Record
    → Machine V W
    → Result QueueError Store
    → Machine V W × Pass
unfolding finish_pass after
worked_on digest o r m (err e) = (m, record { processed = true; error = some (queue_error e) })
worked_on digest o r m (ok s) =
    let p = outcome digest o r (after o s m) in finish_pass o r (after o p.0.store p.0) p.1

-- The middle of a pass: mark the claimed operation as running and work on it.
unfoldable pub work_on :
    {V W : Type 0}
    → (String → String)
    → Outside V W
    → ℕ
    → Record
    → ℕ
    → Machine V W
    → Machine V W × Pass
unfolding worked_on
work_on digest o lease r now m =
    worked_on digest o r m (mark_running (o.faults m.world) m.store r now (now + lease))

unfoldable pub after_claim :
    {V W : Type 0}
    → (String → String)
    → Outside V W
    → ℕ
    → ℕ
    → Machine V W
    → Result QueueError (Store × Record)
    → Machine V W × Pass
unfolding work_on after
after_claim digest o lease now m (err no_pending) = (m, record { processed = false; error = none })
after_claim digest o lease now m (err e) =
    (m, record { processed = false; error = some (queue_error e) })
after_claim digest o lease now m (ok p) = work_on digest o lease p.1 now (after o p.0 m)

-- `processOne`.
unfoldable pub process_one :
    {V W : Type 0} → (String → String) → Outside V W → String → ℕ → Machine V W → Machine V W × Pass
unfolding after_claim
process_one digest o owner lease m =
    let now = o.clock m.world in
    after_claim digest o lease now m
      (claim (o.faults m.world) m.store (o.locked m.world) owner now (now + lease))

-- `Run`, for a number of passes: an error is logged, and the next pass follows, after the poll
-- interval where nothing was processed.
unfoldable pub run :
    {V W : Type 0} → ℕ → (String → String) → Outside V W → String → ℕ → Machine V W → Machine V W
unfolding process_one after
run zero digest o owner lease m = m
run (suc n) digest o owner lease m =
    let p = process_one digest o owner lease m in run n digest o owner lease (after o p.0.store p.0)
