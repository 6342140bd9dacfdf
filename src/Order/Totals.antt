-- ===== src/Order/Totals.antt =====
-- services/lab-app/internal/order/processor.go: the statistics add up, whatever the floating-point numbers are.
use website_go_based.Base.{
  ◌+◌, ◌≡◌, ap, inl, inr, List, [], ◌∷◌, arith, Bool-cases, All, All-append, update_where, exists,
  ℕ, refl, sym, subst, Bool, Result, ok, require, reject, >>-ok,
}
use website_go_based.Base.Int.{ℤ, pos, negsuc, ◌+ℤ◌, pos_part, neg_part, +ℤ_parts}
use website_go_based.Order.{
  Aggregate, minus_ℤ, add_counts, add_aggregate, same_bucket, process, allocate, aggregate_of,
  Loads, Config, Processor, Request, BatchResult, valid_request, invalid_batch, unknown_product,
  statistics_failed,
}

-- What was received was accepted or dropped.
abbrev pub AddsUp : Aggregate → Type 0
AddsUp a = a.received_units ≡ a.accepted_units +ℤ a.dropped_units

same_parts : (a b : ℤ) → pos_part a + neg_part b ≡ pos_part b + neg_part a → a ≡ b
same_parts (pos m) (pos n) h = ap pos (omega (arith, h))
same_parts (pos m) (negsuc n) h = absurd (omega (arith, h))
same_parts (negsuc m) (pos n) h = absurd (omega (arith, h))
same_parts (negsuc m) (negsuc n) h = ap negsuc (omega (arith, h))

minus_parts :
    (a b : ℤ)
    → pos_part (minus_ℤ a b) + pos_part b + neg_part a
      ≡ neg_part (minus_ℤ a b) + pos_part a + neg_part b
unfolding minus_ℤ
minus_parts a b = ground arith

minus-plus : (a b : ℤ) → a ≡ b +ℤ minus_ℤ a b
minus-plus a b =
    same_parts a (b +ℤ minus_ℤ a b) (omega (arith, minus_parts a b, +ℤ_parts b (minus_ℤ a b)))

plus-AddsUp : (value row : Aggregate) → AddsUp value → AddsUp row → AddsUp (add_counts value row)
unfolding add_counts
plus-AddsUp value row hv hr = same_parts _ _ (
    omega (
      arith,
      +ℤ_parts row.received_units value.received_units,
      +ℤ_parts row.accepted_units value.accepted_units,
      +ℤ_parts row.dropped_units value.dropped_units,
      +ℤ_parts (row.accepted_units +ℤ value.accepted_units)
          (row.dropped_units +ℤ value.dropped_units),
      +ℤ_parts row.accepted_units row.dropped_units,
      +ℤ_parts value.accepted_units value.dropped_units,
      ap pos_part hv,
      ap neg_part hv,
      ap pos_part hr,
      ap neg_part hr,
    ))

update-AddsUp :
    (value : Aggregate) (rows : List Aggregate)
    → AddsUp value
    → All AddsUp rows
    → All AddsUp (update_where (λ row. same_bucket row value) (add_counts value) rows)
unfolding update_where
update-AddsUp value [] hv h = tt
update-AddsUp value (row ∷ rows) hv h = elim (Bool-cases (same_bucket row value)) [
  | inl here ↦ rw here (plus-AddsUp value row hv h.0, update-AddsUp value rows hv h.1)
  | inr there ↦ rw there (h.0, update-AddsUp value rows hv h.1)
]

add_aggregate-AddsUp :
    (value : Aggregate) (rows : List Aggregate)
    → AddsUp value
    → All AddsUp rows
    → All AddsUp (add_aggregate value rows)
unfolding add_aggregate
add_aggregate-AddsUp value rows hv h =
    elim (Bool-cases (exists (λ row. same_bucket row value) rows)) [
      | inl here ↦ rw here (update-AddsUp value rows hv h)
      | inr there ↦ rw there (All-append AddsUp rows (value ∷ []) h (hv, tt))
    ]

ok_injective : {E A : Type 0} {a b : A} (x : Result E A) → x ≡ ok a → x ≡ ok b → a ≡ b
ok_injective x h k = cc

-- A batch that is processed accounts for every unit: what its result received is what it accepted and
-- dropped, it received the units of the request, and when every row of the statistics added up before,
-- every row does after.
pub process-AddsUp :
    (F : Loads) (c : Config) (known : ℕ → Bool) (fails : Bool) (p p' : Processor F)
    (rows rows' : List Aggregate) (r : Request) (now : ℕ) (x : BatchResult F)
    → process F c known fails p rows r now ≡ ok ((p', rows'), x)
    → All AddsUp rows
    → All AddsUp rows'
      × (x.received_units ≡ r.request_units)
      × (x.received_units ≡ x.accepted_units +ℤ x.dropped_units)
unfolding process allocate aggregate_of
process-AddsUp F c known fails p p' rows rows' r now x e h =
    let e1 = >>-ok (require (valid_request r) invalid_batch) _ e in
    let e2 = >>-ok (require (known r.product_id) unknown_product) _ e1.1 in
    let e3 = >>-ok (reject fails statistics_failed) _ e2.1 in
    let same = ok_injective _ refl e3.1 in
    let whole = minus-plus r.request_units (allocate F c p r now).0.accepted_units in
    (
      subst (All AddsUp) (ap (λ z. z.0.1) same)
          (add_aggregate-AddsUp (aggregate_of F c r now (allocate F c p r now).0) rows whole h),
      sym (ap (λ z. z.1.received_units) same),
      subst (λ z. z.received_units ≡ z.accepted_units +ℤ z.dropped_units) (ap (λ z. z.1) same)
          whole,
    )
