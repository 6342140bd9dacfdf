-- ===== src/Lab/Status.antt =====
-- services/platform-api/internal/lab/status.go: the lifecycle states of a lab session.
pub mod Machine
use website_go_based.Base.{Bool, true, false, Option, none, some, String, if◌then◌else◌, not}

-- The Go type is a string; `other` is any value outside the six constants.
pub data Status : Type 0 where
  preparing running expiring failed terminating terminated : Status
  other : String → Status

unfoldable pub valid : Status → Bool
valid (other _) = false
valid preparing = true
valid _ = true

unfoldable pub active : Status → Bool
active preparing = true
active running = true
active expiring = true
active terminating = true
active _ = false

unfoldable pub can_transition : Status → Status → Bool
can_transition preparing running = true
can_transition preparing failed = true
can_transition preparing terminating = true
can_transition running expiring = true
can_transition running failed = true
can_transition running terminating = true
can_transition expiring running = true
can_transition expiring failed = true
can_transition expiring terminating = true
can_transition failed terminating = true
can_transition terminating failed = true
can_transition terminating terminated = true
can_transition _ _ = false

pub data TransitionError : Type 0 where
  invalid_source invalid_target : Status → TransitionError
  not_allowed : Status → Status → TransitionError

unfoldable pub validate_transition : Status → Status → Option TransitionError
unfolding valid can_transition
validate_transition source target =
    if not (valid source)
    then some (invalid_source source)
    else if not (valid target)
    then some (invalid_target target)
    else if not (can_transition source target)
    then some (not_allowed source target)
    else none
