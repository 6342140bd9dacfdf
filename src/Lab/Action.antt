-- ===== src/Lab/Action.antt =====
-- services/platform-api/internal/lab/session.go: the requests of the learner, their validation, and
-- the equality by which a repeated request is recognised.
use native.Mathlib.Decide.{ℕ_discrete}
use website_go_based.Base.{
  Bool, true, false, not, ◌&&◌, Option, none, some, List, [], String, length, ltb, ◌==◌,
}
use website_go_based.Base.Int.{ℤ, pos, leb_ℤ}
use website_go_based.Base.Text.{String-discrete, same_text}

-- The action constants of the lab and of the operation queue; `other` is any other string.
pub data Action : Type 0 where
  create_lab reset_lab destroy_lab : Action
  add_instance remove_instance set_instance_performance : Action
  set_instance_weights set_balancing_mode apply_adaptive_weights : Action
  remove_instance_l1 add_instance_l1 remove_session_redis add_session_redis : Action
  other : String → Action

pub data Mode : Type 0 where
  fixed adaptive : Mode
  other_mode : String → Mode

pub record InstanceWeight : Type 0 where
  pub instance_id : String
  pub weight : ℤ

-- A pointer is an option, and so is a slice: `none` is the nil slice, which `reflect.DeepEqual`
-- tells from an empty one.
pub record ActionInput : Type 0 where
  pub operation_id : String
  pub action_type : Action
  pub target_instance_id : Option String
  pub performance_percent : Option ℤ
  pub weights : Option (List InstanceWeight)
  pub balancing_mode : Option Mode

pub Action-discrete : Discrete Action
Action-discrete = hlevel String-discrete

pub ActionInput-discrete : Discrete ActionInput
ActionInput-discrete = hlevel (String-discrete, ℕ_discrete)

-- `len(input.Weights)`: a nil slice has no elements.
abbrev pub elements {ℓ} : {A : Type ℓ} → Option (List A) → List A
elements none = []
elements (some xs) = xs

abbrev pub is_nil {ℓ} : {A : Type ℓ} → Option A → Bool
is_nil none = true
is_nil (some a) = false

-- `target != nil && *target != ""`
unfoldable pub names_target : Option String → Bool
names_target none = false
names_target (some target) = not (same_text target "")

unfoldable pub percent_allowed : Option ℤ → Bool
percent_allowed none = false
percent_allowed (some percent) = leb_ℤ (pos 20) percent && leb_ℤ percent (pos 100)

unfoldable pub mode_allowed : Option Mode → Bool
mode_allowed (some fixed) = true
mode_allowed (some adaptive) = true
mode_allowed (some (other_mode m)) = false
mode_allowed none = false

-- The cases of the `switch` of `validActionInput`.
unfoldable pub valid_fields : Action → ActionInput → Bool
unfolding names_target percent_allowed mode_allowed
valid_fields add_instance i =
    is_nil i.target_instance_id
    && is_nil i.performance_percent
    && (length (elements i.weights) == 0)
    && is_nil i.balancing_mode
valid_fields remove_instance i =
    names_target i.target_instance_id
    && is_nil i.performance_percent
    && (length (elements i.weights) == 0)
    && is_nil i.balancing_mode
valid_fields set_instance_performance i =
    names_target i.target_instance_id
    && percent_allowed i.performance_percent
    && (length (elements i.weights) == 0)
    && is_nil i.balancing_mode
valid_fields set_instance_weights i =
    is_nil i.target_instance_id
    && is_nil i.performance_percent
    && ltb 0 (length (elements i.weights))
    && is_nil i.balancing_mode
valid_fields set_balancing_mode i =
    is_nil i.target_instance_id
    && is_nil i.performance_percent
    && (length (elements i.weights) == 0)
    && mode_allowed i.balancing_mode
valid_fields remove_instance_l1 i =
    names_target i.target_instance_id
    && is_nil i.performance_percent
    && (length (elements i.weights) == 0)
    && is_nil i.balancing_mode
valid_fields add_instance_l1 i =
    names_target i.target_instance_id
    && is_nil i.performance_percent
    && (length (elements i.weights) == 0)
    && is_nil i.balancing_mode
valid_fields remove_session_redis i =
    is_nil i.target_instance_id
    && is_nil i.performance_percent
    && (length (elements i.weights) == 0)
    && is_nil i.balancing_mode
valid_fields add_session_redis i =
    is_nil i.target_instance_id
    && is_nil i.performance_percent
    && (length (elements i.weights) == 0)
    && is_nil i.balancing_mode
valid_fields _ i = false

unfoldable pub valid_action_input : ActionInput → Bool
unfolding valid_fields
valid_action_input i = valid_fields i.action_type i

unfoldable pub is_cache_action : Action → Bool
is_cache_action remove_instance_l1 = true
is_cache_action add_instance_l1 = true
is_cache_action remove_session_redis = true
is_cache_action add_session_redis = true
is_cache_action _ = false
