-- ===== src/Lifecycle/Tests.antt =====
-- Runs of the deadlines of a lab: an idle timeout of 30, a maximum duration of 100 and a lead of 5.
use website_go_based.Base.{◌+◌, ◌≤◌, ◌<◌, ◌≡◌, ◌↔◌, ◌⊎◌, some}
use website_go_based.Lab.Status.{running, expiring}
use website_go_based.Lifecycle.{evaluate, decision_terminating, decision_expiring, decision_running}
use website_go_based.Lifecycle.Deadlines.{durations, terminating_iff, expiring_iff, running_iff}

terminating_iff_example :
    (evaluate 110 running (some 10) (some 90) (durations 30 100 5)).kind ≡ decision_terminating
    ↔ ((90 + 30 ≤ 110) ⊎ (10 + 100 ≤ 110))
terminating_iff_example = terminating_iff 30 100 5 110 10 90 running

expiring_iff_example :
    (evaluate 107 running (some 10) (some 90) (durations 30 100 5)).kind ≡ decision_expiring ↔ (
      (running ≡ running)
      × (107 < 90 + 30)
      × (107 < 10 + 100)
      × ((90 + 30 ≤ 107 + 5) ⊎ (10 + 100 ≤ 107 + 5)))
expiring_iff_example = expiring_iff 30 100 5 107 10 90 running

running_iff_example :
    (evaluate 50 expiring (some 10) (some 45) (durations 30 100 5)).kind ≡ decision_running
    ↔ ((expiring ≡ expiring) × (50 + 5 < 45 + 30) × (50 + 5 < 10 + 100))
running_iff_example = running_iff 30 100 5 50 10 45 expiring
