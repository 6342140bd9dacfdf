-- ===== src/Balancer/Controller/Safety.antt =====
-- services/platform-api/internal/balancer/controller.go: when a sample changes the tables.
use website_go_based.Balancer.Controller.Checks.{
  Idle, Sampled, Free, count_sample-Sampled, count_sample-Free, check_operation-Idle,
}
use website_go_based.Balancer.Sampling.{
  after_check, on_enqueued, adjust_lab, adjustment_of, decide, sample_configuration, sample_lab,
}
use website_go_based.Base.{
  ℕ, ◌≤◌, ◌≡◌, refl, ◌⊎◌, inl, inr, true, false, Option, none, some, List, String, arith, Result,
  ok, err, ltb, Bool-cases, ap, subst, ◌∙◌, Option-cases,
}
use website_go_based.Balancer.{
  Lab, Operation, BalancerError, busy, stale, no_change, database, eligible_instances,
  configuration_fingerprint,
}
use website_go_based.Balancer.Bounds.{Good, target_weights-Good}
use website_go_based.Balancer.Controller.{
  Config, ControlState, count_sample, must_wait, Progress, check_operation, goes_on, saved, refused,
}
use website_go_based.Balancer.Repository.{enqueue_adjustment}
use website_go_based.Balancer.Weights.{Floats, target_weights, weights_within_share_threshold}
use website_go_based.Lab.Action.{InstanceWeight}
use website_go_based.Store.{Store, Faults}

-- An adjustment was queued: the store is what `EnqueueAdjustment` wrote.
pub record Queued (digest : String → String) (fails : Faults) (db : Store) (now : ℕ) (lab : Lab)
    (id : Option String) (target : List InstanceWeight) (db' : Store) : Type 0 where
  pub operation_id : String
  pub operation : Operation
  pub made : id ≡ some operation_id
  pub queued :
      enqueue_adjustment digest fails db (adjustment_of digest lab target operation_id) now
      ≡ ok (db', operation)

on_enqueued-store :
    (c : Config) (now : ℕ) (db : Store) (s : ControlState)
    (x : Result BalancerError (Store × Operation))
    → ((on_enqueued c now db s x).store ≡ db)
      ⊎ ((o : Operation) × (x ≡ ok ((on_enqueued c now db s x).store, o)))
unfolding on_enqueued
on_enqueued-store c now db s (ok (db', o)) = inr (o, refl)
on_enqueued-store c now db s (err busy) = inl refl
on_enqueued-store c now db s (err no_change) = inl refl
on_enqueued-store c now db s (err stale) = inl refl
on_enqueued-store c now db s (err database) = inl refl

adjust_lab-store :
    (digest : String → String) (fails : Faults) (db : Store) (c : Config) (now : ℕ) (lab : Lab)
    (id : Option String) (s : ControlState)
    → ((adjust_lab digest fails db c now lab id s).store ≡ db)
      ⊎ Queued digest fails db now lab id s.target_weights
          (adjust_lab digest fails db c now lab id s).store
unfolding adjust_lab
adjust_lab-store digest fails db c now lab none s = inl refl
adjust_lab-store digest fails db c now lab (some id) s =
    elim (on_enqueued-store c now db s
      (enqueue_adjustment digest fails db (adjustment_of digest lab s.target_weights id) now)) [
        | inl same ↦ inl same
        | inr (o, e) ↦ inr (record { operation_id = id; operation = o; made = refl; queued = e })
      ]

-- The configuration was sampled often enough, the target differs from the weights, and no retry is
-- waited for.
pub record Due (F : Floats) (digest : String → String) (c : Config) (now : ℕ) (lab : Lab)
    (ratios : String → F.Float) (s : ControlState) (target : List InstanceWeight) : Type 0 where
  pub eligible : eligible_instances lab.instances ≡ true
  pub calculated : target_weights F lab.instances ratios ≡ some target
  pub usable : Good F lab.instances target
  pub sampled : Sampled c (configuration_fingerprint digest lab.instances) s
  pub apart : weights_within_share_threshold F lab.instances target ≡ false
  pub not_waiting : Free now (configuration_fingerprint digest lab.instances) s

module _ (F : Floats) where
  decide-store :
      (digest : String → String) (fails : Faults) (db : Store) (c : Config) (now : ℕ) (lab : Lab)
      (id : Option String) (s : ControlState)
      → ((decide F digest fails db c now lab id s).store ≡ db)
        ⊎ ((c.stable_samples ≤ s.configuration_samples)
            × (weights_within_share_threshold F lab.instances s.target_weights ≡ false)
            × (must_wait s.next_retry now ≡ false)
            × Queued digest fails db now lab id s.target_weights
                (decide F digest fails db c now lab id s).store)
  unfolding decide
  decide-store digest fails db c now lab id s =
      elim (Bool-cases (ltb s.configuration_samples c.stable_samples)) [
        | inl few ↦ rw few (inl refl)
        | inr enough ↦
            rw enough
              (elim (Bool-cases (weights_within_share_threshold F lab.instances s.target_weights)) [
                | inl close ↦ rw close (inl refl)
                | inr apart ↦ rw apart (elim (Bool-cases (must_wait s.next_retry now)) [
                  | inl waiting ↦ rw waiting (inl refl)
                  | inr free ↦
                      rw free
                        (elim (adjust_lab-store digest fails db c now lab id
                          (record s { stable_samples = 0 })) [
                            | inl same ↦ inl same
                            | inr queued ↦ inr (ground arith, refl, refl, queued)
                          ])
                ])
              ])
      ]

  count_sample-target :
      (c : Config) (fingerprint : String) (target : List InstanceWeight) (s : ControlState)
      → (count_sample c fingerprint target s).target_weights ≡ target
  unfolding count_sample
  count_sample-target c fingerprint target s = ground arith

  -- A sample that goes on from the state `s` and queues an adjustment for the target.
  pub record Decided (digest : String → String) (fails : Faults) (db : Store) (c : Config) (now : ℕ)
      (lab : Lab) (id : Option String) (ratios : String → F.Float) (s : ControlState) (db' : Store)
      : Type 0 where
    pub target : List InstanceWeight
    pub due : Due F digest c now lab ratios s target
    pub queued : Queued digest fails db now lab id target db'

  decided :
      (digest : String → String) (fails : Faults) (db : Store) (c : Config) (now : ℕ) (lab : Lab)
      (id : Option String) (ratios : String → F.Float) (s : ControlState)
      (target : List InstanceWeight)
      → eligible_instances lab.instances ≡ true
      → target_weights F lab.instances ratios ≡ some target
      → (z : ControlState)
      → z ≡ count_sample c (configuration_fingerprint digest lab.instances) target s
      → ((decide F digest fails db c now lab id z).store ≡ db)
        ⊎ Decided digest fails db c now lab id ratios s
            (decide F digest fails db c now lab id z).store
  decided digest fails db c now lab id ratios s target eligible calculated z same =
      let aim : z.target_weights ≡ target =
        ap (λ y. y.target_weights) same
        ∙ count_sample-target c (configuration_fingerprint digest lab.instances) target s in
      elim (decide-store digest fails db c now lab id z) [
        | inl kept ↦ inl kept
        | inr (often, apart, free, queued) ↦ inr (record {
          target = target;
          due = record {
            eligible = eligible;
            calculated = calculated;
            usable = target_weights-Good F lab.instances ratios target calculated;
            sampled =
                count_sample-Sampled c (configuration_fingerprint digest lab.instances) target s
                  (subst (λ y. c.stable_samples ≤ y.configuration_samples) same often);
            apart = subst (λ t. weights_within_share_threshold F lab.instances t ≡ false) aim apart;
            not_waiting =
                count_sample-Free c (configuration_fingerprint digest lab.instances) target s now
                  (subst (λ y. must_wait y.next_retry now ≡ false) same free);
          };
          queued =
              subst
                (λ t.
                  Queued digest fails db now lab id t
                    (decide F digest fails db c now lab id z).store)
                aim queued;
        })
      ]

  sample_configuration-store :
      (digest : String → String) (fails : Faults) (db : Store) (c : Config) (now : ℕ) (lab : Lab)
      (id : Option String) (ratios : String → F.Float) (s : ControlState)
      → ((sample_configuration F digest fails db c now lab id ratios s).store ≡ db)
        ⊎ Decided digest fails db c now lab id ratios s
            (sample_configuration F digest fails db c now lab id ratios s).store
  unfolding sample_configuration
  sample_configuration-store digest fails db c now lab id ratios s =
      elim (Bool-cases (eligible_instances lab.instances)) [
        | inl eligible ↦ rw eligible (elim (Option-cases (target_weights F lab.instances ratios)) [
          | inl impossible ↦ rw impossible (inl refl)
          | inr (target, calculated) ↦ rw calculated (
              decided digest fails db c now lab id ratios s target eligible calculated
                (count_sample c (configuration_fingerprint digest lab.instances) target s) refl)
        ])
        | inr unfit ↦ rw unfit (inl refl)
      ]

  progress-store :
      (digest : String → String) (fails : Faults) (db : Store) (c : Config) (now : ℕ) (lab : Lab)
      (id : Option String) (ratios : String → F.Float) (p : Progress)
      → ((after_check F digest fails db c now lab id ratios p).store ≡ db)
        ⊎ ((s' : ControlState) × (p ≡ goes_on s')
            × Decided digest fails db c now lab id ratios s'
                (after_check F digest fails db c now lab id ratios p).store)
  unfolding after_check
  progress-store digest fails db c now lab id ratios (saved s) = inl refl
  progress-store digest fails db c now lab id ratios (refused e) = inl refl
  progress-store digest fails db c now lab id ratios (goes_on s) =
      elim (sample_configuration-store digest fails db c now lab id ratios s) [
        | inl kept ↦ inl kept
        | inr made ↦ inr (s, refl, made)
      ]

  -- A sample of a lab leaves the tables as they were, or exactly what `EnqueueAdjustment` wrote is added.
  -- In that case no adjustment was under way, or the one that was has failed; the instances are
  -- eligible, the target is what `TargetWeights` answers and differs from the weights by more than the
  -- threshold; the configuration is that of the samples before, and with this one it was sampled often
  -- enough, or one sample is enough; and no retry is waited for, unless the configuration is a new one.
  pub adjustment_when_due :
      (digest : String → String) (fails : Faults) (db : Store) (c : Config) (now : ℕ) (lab : Lab)
      (id : Option String) (ratios : String → F.Float) (s : ControlState)
      → ((sample_lab F digest fails db c now lab id ratios s).store ≡ db)
        ⊎ ((s' : ControlState) × Idle fails db c now s s'
            × Decided digest fails db c now lab id ratios s'
                (sample_lab F digest fails db c now lab id ratios s).store)
  unfolding sample_lab
  adjustment_when_due digest fails db c now lab id ratios s =
      elim (progress-store digest fails db c now lab id ratios (check_operation fails db c now s)) [
        | inl kept ↦ inl kept
        | inr (s', passed, made) ↦ inr (s', check_operation-Idle fails db c now s s' passed, made)
      ]
