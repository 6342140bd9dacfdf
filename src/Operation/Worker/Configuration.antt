-- ===== src/Operation/Worker/Configuration.antt =====
-- services/platform-api/internal/operation/worker.go: the configuration that newWorker accepts. Durations
-- count nanoseconds.
use website_go_based.Base.{
  Bool, true, not, ◌||◌, ◌≡◌, String, Result, ok, require, reject, ◌>>◌, >>-ok, require-ok,
}
use website_go_based.Base.Int.{ℤ, pos, ltb_ℤ}
use website_go_based.Base.Text.{same_text}

pub record WorkerConfig : Type 0 where
  pub owner : String
  pub poll_interval : ℤ
  pub lease_duration : ℤ
  pub command_timeout : ℤ

pub data ConfigError : Type 0 where
  dependencies_required invalid_config short_lease : ConfigError

abbrev positive : ℤ → Bool
positive d = ltb_ℤ (pos 0) d

-- `newWorker`, by whether its dependencies are given: the configuration of the worker.
unfoldable pub new_worker : Bool → WorkerConfig → Result ConfigError WorkerConfig
new_worker given c = do
  require given dependencies_required
  reject
      (same_text c.owner ""
        || not (positive c.poll_interval)
        || not (positive c.lease_duration)
        || not (positive c.command_timeout))
      invalid_config
  require (ltb_ℤ c.command_timeout c.lease_duration) short_lease
  ok c

-- A worker holds the lease of an operation for longer than one command may take.
lease_outlasts_command :
    (given : Bool) (c c' : WorkerConfig)
    → new_worker given c ≡ ok c'
    → ltb_ℤ c.command_timeout c.lease_duration ≡ true
unfolding new_worker
lease_outlasts_command given c c' e =
    let given_ok = >>-ok (require given dependencies_required) _ e in
    let fields_ok = >>-ok (reject _ invalid_config) _ given_ok.1 in
    require-ok _ short_lease (>>-ok (require _ short_lease) _ fields_ok.1).0
