-- ===== src/Order/Tests.antt =====
-- services/lab-app/internal/order: a run of the processor over whole numbers.
use website_go_based.Base.Int.{◌+ℤ◌}
use website_go_based.Base.{
  ◌≡◌, refl, ◌==◌, List, [], ◌∷◌, ℕ, zero, suc, ◌+◌, ◌-◌, ◌*◌, ◌/◌, ◌%◌, ◌≤◌, ◌<◌, sym, ap, subst,
  ◌∙◌, ◌≢◌, ◌↔◌, ◌⊎◌, inl, inr, Bool, true, false, not, ◌&&◌, ◌||◌, Option, none, some, ◌++◌, map,
  String, arith, Result, ok, err, require, reject, or_fail, ◌>>=◌, ◌>>◌, ltb, leb, if◌then◌else◌,
  Bool-cases, Option-cases, length, length-append, All, All-append, All-map_pred, select, first,
  update_where, count_where, exists, >>=-ok, >>-ok, require-ok, reject-ok,
}
use website_go_based.Order.Totals.{AddsUp, process-AddsUp}
use website_go_based.Order.{
  BatchResult, Config, Loads, Processor, Request, process, Aggregate, partially_accepted,
  unknown_product, overloaded, new_processor, incomplete_config,
}
use website_go_based.Base.Int.{ℤ, pos, pos_part}
use website_go_based.Base.{
  ℕ, zero, suc, ◌+◌, ◌-◌, ◌*◌, ◌/◌, ◌%◌, ◌≤◌, ◌<◌, ◌≡◌, refl, sym, ap, subst, ◌∙◌, ◌≢◌, ◌↔◌, ◌⊎◌,
  inl, inr, Bool, true, false, not, ◌&&◌, ◌||◌, Option, none, some, List, [], ◌∷◌, ◌++◌, map,
  String, arith, Result, ok, err, require, reject, or_fail, ◌>>=◌, ◌>>◌, ltb, leb, ◌==◌,
  if◌then◌else◌, Bool-cases, Option-cases, length, length-append, All, All-append, All-map_pred,
  select, first, update_where, count_where, exists, >>=-ok, >>-ok, require-ok, reject-ok,
}

abbrev whole : Loads
whole = record {
  Float = ℕ;
  of_int = pos_part;
  seconds = λ n. n / 1000000000;
  plus = λ a b. a + b;
  minus = λ a b. a - b;
  times = λ a b. a * b;
  over = λ a b. a / b;
  minimum = λ a b. if ltb a b then a else b;
  maximum = λ a b. if ltb a b then b else a;
  less = ltb;
  at_most = leb;
  floor = pos;
  round_three = λ a. a;
  slack = 0;
  idle_limit = 0;
  normal_limit = 0;
}

abbrev config : Config
config = record {
  lab_id = "lab1";
  instance_id = "app-1";
  processing_speed = pos 2;
  max_load = pos 10;
}

abbrev batch : Request
batch = record { batch_id = "b1"; product_id = 7; request_units = pos 6 }

abbrev before : Processor whole
before = record { current_load = 9; last_updated_at = 1000000000 }

abbrev row : ℤ → ℤ → ℤ → Aggregate
row a b d = record {
  product_id = 7;
  instance_id = "app-1";
  time_bucket = 2000000000;
  received_units = a;
  accepted_units = b;
  dropped_units = d;
}

abbrev answer : BatchResult whole
answer = record {
  batch_id = "b1";
  status = partially_accepted;
  occurred_at = 2000000005;
  received_units = pos 6;
  accepted_units = pos 3;
  dropped_units = pos 3;
  current_load = 10;
  load_ratio = 1;
  load_state = overloaded;
}

fresh_test :
    new_processor whole true true config ≡ ok (record { current_load = 0; last_updated_at = 0 })
unfolding new_processor website_go_based.Base.Text.String-discrete
fresh_test = refl

incomplete_test :
    new_processor whole true true (record config { max_load = pos 0 }) ≡ err incomplete_config
unfolding new_processor website_go_based.Base.Text.String-discrete
incomplete_test = refl

process_test :
    process whole config
      (λ n. n == 7)
      false
      before
      (row (pos 2) (pos 2) (pos 0) ∷ [])
      batch
      2000000005
    ≡ ok (
      (
        record { current_load = 10; last_updated_at = 2000000005 },
        row (pos 8) (pos 5) (pos 3) ∷ [],
      ),
      answer,
    )
unfolding process website_go_based.Base.Text.String-discrete exists update_where
    website_go_based.Base.Int.◌+ℤ◌
process_test = refl

refused_test :
    process whole config (λ n. false) false before [] batch 2000000005 ≡ err unknown_product
unfolding process website_go_based.Base.Text.String-discrete
refused_test = refl

process-AddsUp_example :
    All AddsUp (row (pos 8) (pos 5) (pos 3) ∷ [])
    × (answer.received_units ≡ pos 6)
    × (answer.received_units ≡ answer.accepted_units +ℤ answer.dropped_units)
unfolding ◌+ℤ◌
process-AddsUp_example =
    process-AddsUp whole config (λ n. n == 7) false before
      (record { current_load = 10; last_updated_at = 2000000005 })
      (row (pos 2) (pos 2) (pos 0) ∷ []) (row (pos 8) (pos 5) (pos 3) ∷ []) batch 2000000005 answer
      process_test (refl, tt)
