-- ===== src/Order.antt =====
-- services/lab-app/internal/order: the load of one application server and its statistics (processor.go,
-- repository.go). The numbers of Go's `float64` are a parameter; an instant is a number of nanoseconds
-- since Go's zero time, which is 0. The product table is a test on product identifiers.
pub mod Totals
mod Tests
use website_go_based.Base.{
  ℕ, zero, suc, ◌+◌, ◌-◌, ◌*◌, ◌/◌, ◌%◌, ◌≤◌, ◌<◌, ◌≡◌, refl, sym, ap, subst, ◌∙◌, ◌≢◌, ◌↔◌, ◌⊎◌,
  inl, inr, Bool, true, false, not, ◌&&◌, ◌||◌, Option, none, some, List, [], ◌∷◌, ◌++◌, map,
  String, arith, Result, ok, err, require, reject, or_fail, ◌>>=◌, ◌>>◌, ltb, leb, ◌==◌,
  if◌then◌else◌, Bool-cases, Option-cases, length, length-append, All, All-append, All-map_pred,
  select, first, update_where, count_where, exists, >>=-ok, >>-ok, require-ok, reject-ok,
}
use website_go_based.Base.Int.{ℤ, pos, negsuc, ◌+ℤ◌, pos_part, neg_part, sub_ℕ, ltb_ℤ}
use website_go_based.Base.Text.{same_text}

pub record Loads : Type 1 where
  pub Float : Type 0
  pub of_int : ℤ → Float
  -- `Duration.Seconds`
  pub seconds : ℕ → Float
  pub plus : Float → Float → Float
  pub minus : Float → Float → Float
  pub times : Float → Float → Float
  pub over : Float → Float → Float
  pub minimum : Float → Float → Float
  pub maximum : Float → Float → Float
  pub less : Float → Float → Bool
  pub at_most : Float → Float → Bool
  -- `int(math.Floor(x))`
  pub floor : Float → ℤ
  pub round_three : Float → Float
  -- 1e-9, 0.3 and 0.7
  pub slack : Float
  pub idle_limit : Float
  pub normal_limit : Float

-- `protocol.TrafficBatchRequest`.
pub record Request : Type 0 where
  pub batch_id : String
  pub product_id : ℕ
  pub request_units : ℤ

pub record Config : Type 0 where
  pub lab_id : String
  pub instance_id : String
  pub processing_speed : ℤ
  pub max_load : ℤ

pub data BatchStatus : Type 0 where
  accepted partially_accepted dropped : BatchStatus

pub data LoadState : Type 0 where
  idle normal high overloaded : LoadState

-- A row of `order_stats`.
pub record Aggregate : Type 0 where
  pub product_id : ℕ
  pub instance_id : String
  pub time_bucket : ℕ
  pub received_units : ℤ
  pub accepted_units : ℤ
  pub dropped_units : ℤ

pub data OrderError : Type 0 where
  invalid_batch unknown_product statistics_failed incomplete_config : OrderError

abbrev pub same_bucket : Aggregate → Aggregate → Bool
same_bucket a b =
    (a.product_id == b.product_id)
    && same_text a.instance_id b.instance_id
    && (a.time_bucket == b.time_bucket)

unfoldable pub add_counts : Aggregate → Aggregate → Aggregate
add_counts value row = record row {
  received_units = row.received_units +ℤ value.received_units;
  accepted_units = row.accepted_units +ℤ value.accepted_units;
  dropped_units = row.dropped_units +ℤ value.dropped_units;
}

-- `Add`: INSERT ... ON DUPLICATE KEY UPDATE.
unfoldable pub add_aggregate : Aggregate → List Aggregate → List Aggregate
unfolding add_counts
add_aggregate value rows =
    if exists (λ row. same_bucket row value) rows
    then update_where (λ row. same_bucket row value) (add_counts value) rows
    else rows ++ value ∷ []

unfoldable pub minus_ℤ : ℤ → ℤ → ℤ
minus_ℤ a b = sub_ℕ (pos_part a + neg_part b) (pos_part b + neg_part a)

abbrev pub valid_request : Request → Bool
valid_request r =
    not (same_text r.batch_id "") && not (r.product_id == 0) && ltb_ℤ (pos 0) r.request_units

module _ (F : Loads) where
  -- The load of a processor and the instant at which it was settled.
  pub record Processor : Type 0 where
    pub current_load : F.Float
    pub last_updated_at : ℕ

  -- `NewProcessor`, by whether its product table and its statistics are given.
  unfoldable pub new_processor : Bool → Bool → Config → Result OrderError Processor
  new_processor products stats c = do
    reject
        (not products
          || not stats
          || same_text c.lab_id ""
          || same_text c.instance_id ""
          || not (ltb_ℤ (pos 0) c.processing_speed)
          || not (ltb_ℤ (pos 0) c.max_load))
        incomplete_config
    ok (record { current_load = F.of_int (pos 0); last_updated_at = 0 })

  -- `TrafficBatchResult` with its `InstanceState`, which repeats the configuration and the instant.
  pub record BatchResult : Type 0 where
    pub batch_id : String
    pub status : BatchStatus
    pub occurred_at : ℕ
    pub received_units : ℤ
    pub accepted_units : ℤ
    pub dropped_units : ℤ
    pub current_load : F.Float
    pub load_ratio : F.Float
    pub load_state : LoadState

  unfoldable pub load_state_of : F.Float → LoadState
  load_state_of ratio =
      if F.at_most ratio F.idle_limit
      then idle
      else if F.at_most ratio F.normal_limit
      then normal
      else if F.less ratio (F.of_int (pos 1))
      then high
      else overloaded

  unfoldable pub elapsed : ℕ → ℕ → F.Float
  elapsed last now =
      if not (last == 0) && ltb last now then F.seconds (now - last) else F.of_int (pos 0)

  unfoldable pub settled_load : Config → Processor → ℕ → F.Float
  unfolding elapsed
  settled_load c p now = F.maximum (F.of_int (pos 0)) (
      F.minus p.current_load
        (F.times (F.of_int c.processing_speed) (elapsed p.last_updated_at now)))

  -- `min(request.RequestUnits, availableUnits)`
  unfoldable pub accepted_of : Config → F.Float → ℤ → ℤ
  accepted_of c settled units =
      let room =
        F.floor
          (F.plus (F.maximum (F.of_int (pos 0)) (F.minus (F.of_int c.max_load) settled)) F.slack) in
      if ltb_ℤ room units then room else units

  unfoldable pub status_of : ℤ → ℤ → BatchStatus
  status_of (pos zero) lost = dropped
  status_of taken lost = if ltb_ℤ (pos 0) lost then partially_accepted else accepted

  -- `allocate`: the result and the next load.
  unfoldable pub allocate : Config → Processor → Request → ℕ → BatchResult × F.Float
  unfolding load_state_of settled_load accepted_of status_of minus_ℤ
  allocate c p r now =
      let settled = settled_load c p now in
      let taken = accepted_of c settled r.request_units in
      let lost = minus_ℤ r.request_units taken in
      let next = F.minimum (F.of_int c.max_load) (F.plus settled (F.of_int taken)) in
      let ratio = F.round_three (F.over next (F.of_int c.max_load)) in
      (
        record {
          batch_id = r.batch_id;
          status = status_of taken lost;
          occurred_at = now;
          received_units = r.request_units;
          accepted_units = taken;
          dropped_units = lost;
          current_load = F.round_three next;
          load_ratio = ratio;
          load_state = load_state_of ratio;
        },
        next,
      )

  -- The aggregate of a result, in the bucket of its second.
  unfoldable pub aggregate_of : Config → Request → ℕ → BatchResult → Aggregate
  aggregate_of c r now x = record {
    product_id = r.product_id;
    instance_id = c.instance_id;
    time_bucket = now - now % 1000000000;
    received_units = x.received_units;
    accepted_units = x.accepted_units;
    dropped_units = x.dropped_units;
  }

  -- `Process`, by whether the product exists and whether the database refuses the statistics.
  unfoldable pub process :
      Config
      → (ℕ → Bool)
      → Bool
      → Processor
      → List Aggregate
      → Request
      → ℕ
      → Result OrderError ((Processor × List Aggregate) × BatchResult)
  unfolding allocate aggregate_of add_aggregate
  process c known fails p rows r now = do
    require (valid_request r) invalid_batch
    require (known r.product_id) unknown_product
    reject fails statistics_failed
    ok (
      (
        record { current_load = (allocate c p r now).1; last_updated_at = now },
        add_aggregate (aggregate_of c r now (allocate c p r now).0) rows,
      ),
      (allocate c p r now).0,
    )
