-- ===== src/Balancer/Controller/Checks.antt =====
-- services/platform-api/internal/balancer/controller.go: what `sampleLab` asks before an adjustment, without
-- the functions of the code.
use website_go_based.Base.{
  ℕ, suc, ◌+◌, ◌≢◌, ◌≤◌, ◌≡◌, refl, ◌⊎◌, inl, inr, false, none, some, List, String, arith, ok, err,
  Bool-cases, Option-cases, suc, ◌+◌, ◌≢◌,
}
use website_go_based.Balancer.{Operation, BalancerError}
use website_go_based.Balancer.Controller.{
  on_status, backoff, Config, ControlState, count_sample, must_wait, check_operation, goes_on,
}
use website_go_based.Balancer.Repository.{find_adjustment}
use website_go_based.Base.Text.{same_text}
use website_go_based.Lab.Action.{InstanceWeight}
use website_go_based.Store.{Store, Faults, OperationStatus, failed_op}

-- A new adjustment may be considered in the state `s'`: none was under way in the state `s`, or the one
-- that was has failed, and the next try is put off.
abbrev pub Idle : Faults → Store → Config → ℕ → ControlState → ControlState → Type 0
Idle fails db c now s s' =
    ((s.operation_id ≡ "") × (s' ≡ s))
    ⊎ ((o : Operation) × (find_adjustment fails db s.operation_id ≡ ok o)
        × ((o.status ≡ failed_op)
            × (s'.configuration_fingerprint ≡ s.configuration_fingerprint)
            × (s'.configuration_samples ≡ s.configuration_samples)
            × (s'.next_retry ≡ some (now + backoff c (suc s.failure_count)))))

-- With this sample, the configuration was sampled as often as the configuration demands: it is that of
-- the samples before, or one sample is enough.
abbrev pub Sampled : Config → String → ControlState → Type 0
Sampled c fingerprint s =
    ((fingerprint ≡ s.configuration_fingerprint) × (c.stable_samples ≤ s.configuration_samples + 1))
    ⊎ ((fingerprint ≢ s.configuration_fingerprint) × (c.stable_samples ≤ 1))

-- The time of a retry has come, none is waited for, or the configuration is a new one.
abbrev pub Free : ℕ → String → ControlState → Type 0
Free now fingerprint s =
    (fingerprint ≢ s.configuration_fingerprint)
    ⊎ (s.next_retry ≡ none)
    ⊎ ((t : ℕ) × (s.next_retry ≡ some t) × (t ≤ now))

pub count_sample-Sampled :
    (c : Config) (fingerprint : String) (target : List InstanceWeight) (s : ControlState)
    → c.stable_samples ≤ (count_sample c fingerprint target s).configuration_samples
    → Sampled c fingerprint s
unfolding count_sample
count_sample-Sampled c fingerprint target s often = ground arith

pub count_sample-Free :
    (c : Config) (fingerprint : String) (target : List InstanceWeight) (s : ControlState) (now : ℕ)
    → must_wait (count_sample c fingerprint target s).next_retry now ≡ false
    → Free now fingerprint s
unfolding count_sample
count_sample-Free c fingerprint target s now free = elim (Option-cases s.next_retry) [
  | inl never ↦ inr (inl never)
  | inr (t, set) ↦ ground arith
]

on_status-Idle :
    (status : OperationStatus) (o : Operation) (c : Config) (now : ℕ) (s s' : ControlState)
    → on_status status o c now s ≡ goes_on s'
    → (status ≡ failed_op)
      × (s'.configuration_fingerprint ≡ s.configuration_fingerprint)
      × (s'.configuration_samples ≡ s.configuration_samples)
      × (s'.next_retry ≡ some (now + backoff c (suc s.failure_count)))
unfolding on_status
on_status-Idle status o c now s s' e = ground arith

find_adjustment-cases :
    (fails : Faults) (db : Store) (id : String)
    → ((e : BalancerError) × (find_adjustment fails db id ≡ err e))
      ⊎ ((o : Operation) × (find_adjustment fails db id ≡ ok o))
find_adjustment-cases fails db id =
    elim (find_adjustment fails db id)
      as (λ x. ((e : BalancerError) × (x ≡ err e)) ⊎ ((o : Operation) × (x ≡ ok o))) [
        | err e ↦ inl (e, refl)
        | ok o ↦ inr (o, refl)
      ]

pub check_operation-Idle :
    (fails : Faults) (db : Store) (c : Config) (now : ℕ) (s s' : ControlState)
    → check_operation fails db c now s ≡ goes_on s'
    → Idle fails db c now s s'
unfolding check_operation
check_operation-Idle fails db c now s s' e = elim (Bool-cases (same_text s.operation_id "")) [
  | inl unset ↦ inl (ground arith)
  | inr under_way ↦ elim (find_adjustment-cases fails db s.operation_id) [
    | inl (problem, missing) ↦ absurd (ground arith)
    | inr (o, found) ↦ inr (o, found, on_status-Idle o.status o c now s s' (ground arith))
  ]
]
