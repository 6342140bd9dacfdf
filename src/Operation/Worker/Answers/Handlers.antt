-- ===== src/Operation/Worker/Answers/Handlers.antt =====
-- services/platform-api/internal/operation/worker.go: the handlers of the topology actions report a change only
-- after a reply "succeeded".
use website_go_based.Operation.Worker.Changes.{
  route_performance, after_update, set_performance_command, weights_command, validate_weights,
  after_validation, adaptive_command,
}
use website_go_based.Operation.Worker.Answers.{
  Replied, Honest, reports_change, error_code-is_blank, unavailable, response_incomplete,
  config_invalid, internal_error, invalid_operation, failure-reports_change,
  topology_command-Replied, failing-Honest, bind-Honest, apply-Honest, given-Replied, if-Honest,
}
use website_go_based.Base.{
  ◌≡◌, refl, sym, subst, inl, inr, Bool, true, false, Option, none, some, String, arith, Result, ok,
  err, Bool-cases, Option-cases,
}
use website_go_based.Operation.Worker.{Outside, Machine, Act, Response, give, ◌>>=◌}
use website_go_based.Operation.Worker.Decoding.{
  TopologyView, error_message, error_code, decode_instance,
}
use website_go_based.Operation.Worker.Topology.{
  Completion, topology_done, cancelled, topology_failure, is_success, route_added, after_create,
  add_instance_command, instance_reply, removal_failure, after_delete, delete_instance, pause,
  remove_instance_command,
}
use website_go_based.Operation.Worker.Rollback.{reports_success}
use website_go_based.Balancer.{BalancerError}
use website_go_based.Operation.Worker.Topology.{empty_topology}
use website_go_based.Operation.Provision.{ProvisionInstance, is_blank}
use website_go_based.Operation.Queue.{Record}

module _ {V W : Type 0} (o : Outside V W) where
  route_added-Honest :
      (r : Record) (p : TopologyView) (i : ProvisionInstance) → Honest (route_added o r p i)
  unfolding route_added
  route_added-Honest r p i =
      apply-Honest o r p.servers _ (given-Replied o _)
        (bind-Honest o _ _ (λ answer. failing-Honest o _ _ config_invalid))

  instance_reply-failure :
      (answer : Option (Response V)) (a b : String) (c : Completion)
      → instance_reply o answer a b ≡ err c
      → (code : String) × (message : String) × (c ≡ topology_failure code message)
        × (is_blank code ≡ false)
  unfolding instance_reply
  instance_reply-failure none a b c e = ("ORCHESTRATOR_UNAVAILABLE", a, ground arith, unavailable)
  instance_reply-failure (some x) a b c e = elim (Bool-cases (is_success x)) [
    | inl good ↦ elim (Option-cases (decode_instance o x.result)) [
      | inl bad ↦ ("ORCHESTRATOR_RESPONSE_INCOMPLETE", b, ground arith, response_incomplete)
      | inr (i, decoded) ↦ absurd (ground arith)
    ]
    | inr refused ↦
        (error_code o x.error, error_message o x.error, ground arith, error_code-is_blank o x.error)
  ]

  reply-Honest :
      (x : Result Completion ProvisionInstance)
      (k : Result Completion ProvisionInstance → Act V W Completion)
      → ((c : Completion) → x ≡ err c → Honest (k (err c)))
      → ((i : ProvisionInstance) → Honest (k (ok i)))
      → Honest (k x)
  reply-Honest (err c) k bad good = bad c refl
  reply-Honest (ok i) k bad good = good i

  failure-Honest :
      (answer : Option (Response V)) (a b : String) (c : Completion)
      → instance_reply o answer a b ≡ err c
      → Honest {V = V} {W = W} (give c)
  failure-Honest answer a b c e =
      let (code, message, same, h) = instance_reply-failure answer a b c e in
      subst (λ z. Honest {V = V} {W = W} (give z)) (sym same) (failing-Honest o code message h)

  pub add_instance_command-Honest :
      (r : Record) (p : TopologyView) → Honest (add_instance_command o r p)
  unfolding add_instance_command after_create
  add_instance_command-Honest r p = bind-Honest o _ _ (λ answer.
      reply-Honest (instance_reply o answer _ _) (after_create o r p)
        (λ c e. failure-Honest answer _ _ c e) (λ i. route_added-Honest r p i))

  route_performance-Honest :
      (r : Record) (p : TopologyView) (i : ProvisionInstance) → Honest (route_performance o r p i)
  unfolding route_performance
  route_performance-Honest r p i = apply-Honest o r p.servers _ (given-Replied o _) (
      bind-Honest o _ _ (λ answer. bind-Honest o _ _ (λ back. failing-Honest o _ _ config_invalid)))

  pub set_performance_command-Honest :
      (r : Record) (p : TopologyView) → Honest (set_performance_command o r p)
  unfolding set_performance_command after_update
  set_performance_command-Honest r p = bind-Honest o _ _ (λ answer.
      reply-Honest (instance_reply o answer _ _) (after_update o r p)
        (λ c e. failure-Honest answer _ _ c e) (λ i. route_performance-Honest r p i))

  pub weights_command-Honest :
      (r : Record) (p : TopologyView) (message : String) → Honest (weights_command o r p message)
  unfolding weights_command
  weights_command-Honest r p message =
      apply-Honest o r p.servers _ (given-Replied o _) (failing-Honest o _ _ config_invalid)

  removal_failure-none :
      (answer : Option (Response V))
      → removal_failure o answer ≡ none
      → (x : Response V) × (answer ≡ some x) × (is_success x ≡ true)
  unfolding removal_failure
  removal_failure-none none e = absurd (ground arith)
  removal_failure-none (some x) e = (x, refl, ground arith)

  removal_failure-some :
      (answer : Option (Response V)) (c : Completion)
      → removal_failure o answer ≡ some c
      → reports_change c ≡ false
  unfolding removal_failure
  removal_failure-some none c e =
      let same : topology_failure "ORCHESTRATOR_UNAVAILABLE"
            "application instance could not be removed"
          ≡ c =
        ground arith in
      subst (λ z. reports_change z ≡ false) same
        (failure-reports_change "ORCHESTRATOR_UNAVAILABLE"
          "application instance could not be removed" unavailable)
  removal_failure-some (some x) c e = elim (Bool-cases (is_success x)) [
    | inl good ↦ absurd (ground arith)
    | inr refused ↦
        let same : topology_failure (error_code o x.error) (error_message o x.error) ≡ c =
          ground arith in
        subst (λ z. reports_change z ≡ false) same
          (failure-reports_change _ _ (error_code-is_blank o x.error))
  ]

  after_delete-Replied :
      (r : Record) (p : TopologyView) (x : Option Completion) (m : Machine V W)
      → (x ≡ none → Replied m)
      → ((c : Completion) → x ≡ some c → reports_change c ≡ false)
      → reports_change (after_delete o r p x m).1 ≡ true
      → Replied (after_delete o r p x m).0
  unfolding after_delete give ◌>>=◌
  after_delete-Replied r p (some c) m good bad e = absurd (ground (arith, bad c refl))
  after_delete-Replied r p none m good bad e = good refl

  delete_instance-Honest : (r : Record) (p : TopologyView) → Honest (delete_instance o r p)
  unfolding delete_instance ◌>>=◌
  delete_instance-Honest r p m e =
      after_delete-Replied r p _ _
        (λ same.
          let (x, answered, succeeded) = removal_failure-none _ same in
          topology_command-Replied o r _ _ m x answered succeeded)
        (λ c same. removal_failure-some _ c same) e

  cancelled-Honest : Honest {V = V} {W = W} (give cancelled)
  unfolding give reports_change reports_success
  cancelled-Honest m e = absurd (ground arith)

  pub remove_instance_command-Honest :
      (r : Record) (p : TopologyView) → Honest (remove_instance_command o r p)
  unfolding remove_instance_command
  remove_instance_command-Honest r p =
      apply-Honest o r p.servers _
        (λ z replied.
          bind-Honest o (pause o) _
            (λ stopped.
              if-Honest o stopped _ _ (bind-Honest o _ _ (λ back. cancelled-Honest))
                (delete_instance-Honest r p))
            z)
        (failing-Honest o _ _ config_invalid)

  skipped-Honest :
      Honest {V = V} {W = W} (give (topology_done (record empty_topology { skipped = true }) "" ""))
  unfolding give reports_change
  skipped-Honest m e = absurd (ground arith)

  after_validation-Honest :
      (r : Record) (p : TopologyView) (valid : Result BalancerError Bool)
      → Honest (after_validation o r p valid)
  unfolding after_validation
  after_validation-Honest r p (err failure) = failing-Honest o _ _ internal_error
  after_validation-Honest r p (ok false) = skipped-Honest
  after_validation-Honest r p (ok true) = weights_command-Honest r p _

  pub adaptive_command-Honest :
      (digest : String → String) (r : Record) (p : TopologyView)
      → Honest (adaptive_command digest o r p)
  unfolding adaptive_command
  adaptive_command-Honest digest r p =
      if-Honest o _ _ _
        (bind-Honest o (validate_weights digest o r p) _
          (λ valid. after_validation-Honest r p valid))
        (failing-Honest o _ _ invalid_operation)
