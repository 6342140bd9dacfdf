-- ===== src/Auth/Limiter/Tests.antt =====
-- Runs of the limiter of failed logins.
use website_go_based.Base.{
  ℕ, zero, suc, ◌+◌, ◌-◌, ◌*◌, ◌/◌, ◌%◌, ◌≤◌, ◌<◌, ◌≡◌, refl, sym, ap, subst, ◌∙◌, ◌≢◌, ◌↔◌, ◌⊎◌,
  inl, inr, Bool, true, false, not, ◌&&◌, ◌||◌, Option, none, some, List, [], ◌∷◌, ◌++◌, map,
  String, arith, Result, ok, err, require, reject, or_fail, ◌>>=◌, ◌>>◌, ltb, leb, ◌==◌,
  if◌then◌else◌, Bool-cases, Option-cases, length, length-append, All, All-append, All-map_pred,
  select, first, update_where, count_where, exists, >>=-ok, >>-ok, require-ok, reject-ok,
}
use website_go_based.Auth.Limiter.{Limiter, failure, blocked, success, pruned, entry_of}
use website_go_based.Auth.Limiter.Bounds.{entries_bounded}
use website_go_based.Auth.Limiter.Lockout.{lockout, fail_at, last_time}

abbrev limiter : Limiter
limiter = record {
  entries = [];
  window = 100;
  max_failures = 3;
  block_duration = 50;
  max_entries = 2;
}

lockout_example : (blocked (fail_at "10.0.0.1" (5 ∷ 20 ∷ 30 ∷ []) limiter) "10.0.0.1" 79).1 ≡ true
unfolding entry_of pruned last_time
lockout_example =
    lockout limiter "10.0.0.1" 5 (20 ∷ 30 ∷ []) 79 refl (omega arith)
      ((omega arith, omega arith), ((omega arith, omega arith), tt)) (omega arith) (omega arith)

abbrev full : Limiter
full = record limiter {
  entries =
      ("a", record { window_started_at = 1; failures = 1; blocked_until = 0; updated_at = 1 })
      ∷ ("b", record { window_started_at = 2; failures = 1; blocked_until = 0; updated_at = 2 })
      ∷ [];
}

entries_bounded_example :
    (length (failure full "c" 9).entries ≤ 2)
    × (length (blocked full "c" 9).0.entries ≤ 2)
    × (length (success full "c").entries ≤ 2)
entries_bounded_example = entries_bounded full "c" 9 (omega arith) (omega arith)

evicts_oldest_test : entry_of "a" (failure full "c" 9).entries ≡ none
unfolding entry_of failure website_go_based.Base.Text.String-discrete
evicts_oldest_test = refl
