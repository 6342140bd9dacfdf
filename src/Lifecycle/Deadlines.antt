-- ===== src/Lifecycle/Deadlines.antt =====
-- services/platform-api/internal/lifecycle/decision.go: when `evaluate` decides what.
use website_go_based.Base.{ℕ, ◌+◌, ◌≤◌, ◌<◌, ◌≡◌, ◌↔◌, ◌⊎◌, some, arith}
use website_go_based.Base.Int.{pos}
use website_go_based.Lab.Status.{Status, running, expiring}
use website_go_based.Lifecycle.{
  Config, decision_expiring, decision_running, decision_terminating, evaluate, evaluate_started,
  decide_at, add_duration, sub_duration,
}

-- The durations of a configuration, as numbers of nanoseconds.
abbrev pub durations : ℕ → ℕ → ℕ → Config
durations idle longest lead = record {
  idle_timeout = pos idle;
  max_duration = pos longest;
  expiring_lead = pos lead;
}

module _ (idle longest lead now started last : ℕ) (status : Status) where
  -- `evaluate` ends a lab with both of its instants exactly when it has been idle for the idle timeout
  -- or has run for the maximum duration.
  pub terminating_iff :
      (evaluate now status (some started) (some last) (durations idle longest lead)).kind
        ≡ decision_terminating
      ↔ ((last + idle ≤ now) ⊎ (started + longest ≤ now))
  unfolding evaluate evaluate_started decide_at add_duration
  terminating_iff = (λ e. ground arith, λ h. ground arith)

  -- `evaluate` warns exactly for a running lab that neither deadline has ended and that is within the
  -- lead of one of them.
  pub expiring_iff :
      (evaluate now status (some started) (some last) (durations idle longest lead)).kind
        ≡ decision_expiring
      ↔ ((status ≡ running)
          × (now < last + idle)
          × (now < started + longest)
          × ((last + idle ≤ now + lead) ⊎ (started + longest ≤ now + lead)))
  unfolding evaluate evaluate_started decide_at add_duration sub_duration
  expiring_iff = (λ e. ground arith, λ h. ground arith)

  -- `evaluate` restores exactly an expiring lab of which neither deadline is within the lead.
  pub running_iff :
      (evaluate now status (some started) (some last) (durations idle longest lead)).kind
        ≡ decision_running
      ↔ ((status ≡ expiring) × (now + lead < last + idle) × (now + lead < started + longest))
  unfolding evaluate evaluate_started decide_at add_duration sub_duration
  running_iff = (λ e. ground arith, λ h. ground arith)
