-- ===== src/Traffic/Limiter/Tests.antt =====
-- services/platform-api/internal/traffic/limiter.go: requests of three users, of whom two are kept.
use website_go_based.Base.{
  ℕ, ◌≡◌, refl, ◌≤◌, false, List, [], ◌∷◌, length, leb, ltb, ◌+◌, ◌-◌, ◌*◌, ◌/◌, if◌then◌else◌,
}
use website_go_based.Base.Int.{pos, pos_part}
use website_go_based.Traffic.Limiter.{Tokens, LimiterEntry, new_limiter, allow}
use website_go_based.Traffic.Limiter.Bounds.{after_requests, users_bounded}

abbrev whole : Tokens
whole = record {
  Float = ℕ;
  of_int = pos_part;
  seconds = λ d. pos_part d / 1000000000;
  plus = λ a b. a + b;
  minus = λ a b. a - b;
  times = λ a b. a * b;
  minimum = λ a b. if ltb a b then a else b;
  at_most = leb;
}

abbrev calls : List (ℕ × ℕ)
calls = (1, 5) ∷ (2, 6) ∷ (1, 7) ∷ (3, 8) ∷ []

abbrev bucket : ℕ → LimiterEntry whole
bucket now = record { tokens = 0; updated = now; last_seen = now }

oldest_evicted_test :
    (after_requests whole (new_limiter whole (pos 1) (pos 1) (pos 2)) calls).entries
    ≡ (3, bucket 8) ∷ (1, bucket 7) ∷ []
unfolding after_requests allow new_limiter
oldest_evicted_test = refl

burst_spent_test :
    (allow whole (after_requests whole (new_limiter whole (pos 1) (pos 1) (pos 2)) calls) 3 9).1
    ≡ false
unfolding allow after_requests new_limiter
burst_spent_test = refl

users_bounded_example :
    length (after_requests whole (new_limiter whole (pos 1) (pos 1) (pos 2)) calls).entries ≤ 2
users_bounded_example = users_bounded whole (pos 1) (pos 1) 2 calls
