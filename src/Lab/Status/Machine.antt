-- ===== src/Lab/Status/Machine.antt =====
-- What the transition table of services/platform-api/internal/lab/status.go allows over a whole
-- life: sequences of validated transitions.
use website_go_based.Base.{◌≡◌, refl, true, none, ◌≢◌}
use website_go_based.Lab.Status.{
  Status, preparing, running, expiring, failed, terminating, terminated, other, valid,
  validate_transition,
}

-- A chain of transitions that `ValidateTransition` accepts.
pub data Life (s : Status) : Status → Type 0 where
  here : Life s s
  next : {t u : Status} → Life s t → validate_transition t u ≡ none → Life s u

to_terminating : (s : Status) → valid s ≡ true → s ≢ terminated → Life s terminating
unfolding valid validate_transition
to_terminating preparing h n = next here refl
to_terminating running h n = next here refl
to_terminating expiring h n = next here refl
to_terminating failed h n = next here refl
to_terminating terminating h n = here
to_terminating terminated h n = absurd (n refl)
to_terminating (other x) h n = cc

-- From every valid state there is a life that ends in terminated.
pub reach_terminated : (s : Status) → valid s ≡ true → Life s terminated
unfolding validate_transition
reach_terminated terminated h = here
reach_terminated preparing h = next (to_terminating preparing h (λ e. cc)) refl
reach_terminated running h = next (to_terminating running h (λ e. cc)) refl
reach_terminated expiring h = next (to_terminating expiring h (λ e. cc)) refl
reach_terminated failed h = next (to_terminating failed h (λ e. cc)) refl
reach_terminated terminating h = next here refl
reach_terminated (other x) h = cc
