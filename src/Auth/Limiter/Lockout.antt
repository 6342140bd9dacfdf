-- ===== src/Auth/Limiter/Lockout.antt =====
-- services/platform-api/internal/auth/limiter.go: repeated failures block a key.
use website_go_based.Base.{
  ℕ, ◌+◌, ◌≤◌, ◌≡◌, subst, false, none, some, List, [], ◌∷◌, String, arith, suc, ◌<◌, refl, sym, ap,
  ◌∙◌, true, length, All,
}
use website_go_based.Auth.Limiter.{
  Entries, LimitEntry, Limiter, entry_of, expired, pruned, started, counted, failure, blocked,
}

-- The failures of a key at the given times, one after the other.
unfoldable pub fail_at : String → List ℕ → Limiter → Limiter
fail_at key [] l = l
fail_at key (t ∷ ts) l = fail_at key ts (failure l key t)

unfoldable pub last_time : ℕ → List ℕ → ℕ
last_time t [] = t
last_time t (u ∷ us) = last_time u us

entry_of-pruned :
    (key : String) (window now : ℕ) (es : Entries) (e : LimitEntry)
    → entry_of key es ≡ some e
    → expired window now e ≡ false
    → entry_of key (pruned window now es) ≡ some e
unfolding entry_of pruned
entry_of-pruned key window now [] e found live = ground arith
entry_of-pruned key window now ((k, x) ∷ rest) e found live =
    ground (arith, entry_of-pruned key window now rest e)

entry_of-failure :
    (l : Limiter) (key : String) (now : ℕ)
    → entry_of key (failure l key now).entries
      ≡ some (counted l now (started now (entry_of key (pruned l.window now l.entries))))
unfolding failure entry_of
entry_of-failure l key now = ground arith

-- The limiter has counted `n` failures of the key since `t0`, the last of them at `t`.
record Counts (l : Limiter) (key : String) (t0 n t : ℕ) : Type 0 where
  entry : LimitEntry
  found : entry_of key l.entries ≡ some entry
  since : entry.window_started_at ≡ t0
  count : entry.failures ≡ n
  block : l.max_failures ≤ n → entry.blocked_until ≡ t + l.block_duration

first-Counts :
    (l : Limiter) (key : String) (t0 : ℕ)
    → entry_of key (pruned l.window t0 l.entries) ≡ none
    → 1 ≤ l.window
    → Counts (failure l key t0) key t0 1 t0
first-Counts l key t0 fresh wide =
    let e = counted l t0 (started t0 none) in
    record {
      entry = e;
      found =
          subst (λ x. entry_of key (failure l key t0).entries ≡ some (counted l t0 (started t0 x)))
            fresh (entry_of-failure l key t0);
      since = unfold counted started in ground arith;
      count = unfold counted started in ground arith;
      block = λ h. unfold counted started failure in ground arith;
    }

abbrev pub Within : ℕ → ℕ → ℕ → Type 0
Within t0 window t = (t0 ≤ t) × (t < t0 + window)

live_entry :
    (window now : ℕ) (e : LimitEntry)
    → Within e.window_started_at window now
    → expired window now e ≡ false
unfolding expired
live_entry window now e h = ground arith

next-Counts :
    (l : Limiter) (key : String) (t0 n t now : ℕ)
    → Counts l key t0 n t
    → Within t0 l.window now
    → Counts (failure l key now) key t0 (suc n) now
next-Counts l key t0 n t now c h =
    let e = c.entry in
    let inside : Within e.window_started_at l.window now =
      subst (λ z. Within z l.window now) (sym c.since) h in
    let kept =
      entry_of-pruned key l.window now l.entries e c.found (live_entry l.window now e inside) in
    record {
      entry = counted l now e;
      found =
          entry_of-failure l key now
          ∙ ap (λ x. some (counted l now (started now x))) kept
          ∙ unfold started in refl;
      since = unfold counted in ground (arith, c.since, inside);
      count = unfold counted in ground (arith, c.count, inside);
      block = λ enough. unfold counted failure in ground (arith, c.count, inside, enough);
    }

failure-window : (l : Limiter) (key : String) (now : ℕ) → (failure l key now).window ≡ l.window
unfolding failure
failure-window l key now = refl

fail_at-Counts :
    (key : String) (ts : List ℕ) (l : Limiter) (t0 n t : ℕ)
    → Counts l key t0 n t
    → All (Within t0 l.window) ts
    → Counts (fail_at key ts l) key t0 (n + length ts) (last_time t ts)
unfolding fail_at last_time
fail_at-Counts key [] l t0 n t c h = subst (λ m. Counts l key t0 m t) (omega arith) c
fail_at-Counts key (u ∷ us) l t0 n t c h =
    subst (λ m. Counts (fail_at key us (failure l key u)) key t0 m (last_time u us)) (omega arith)
      (fail_at-Counts key us (failure l key u) t0 (suc n) u (next-Counts l key t0 n t u c h.0)
        (subst (λ w. All (Within t0 w) us) (sym (failure-window l key u)) h.1))

fail_at-fixed :
    (key : String) (ts : List ℕ) (l : Limiter)
    → ((fail_at key ts l).max_failures ≡ l.max_failures)
      × ((fail_at key ts l).block_duration ≡ l.block_duration)
unfolding fail_at failure
fail_at-fixed key [] l = (refl, refl)
fail_at-fixed key (u ∷ us) l = fail_at-fixed key us (failure l key u)

blocked_entry :
    (l : Limiter) (key : String) (now : ℕ) (e : LimitEntry)
    → entry_of key l.entries ≡ some e
    → now < e.blocked_until
    → (blocked l key now).1 ≡ true
unfolding blocked
blocked_entry l key now e found h =
    let live : expired l.window now e ≡ false = unfold expired in ground arith in
    rw (entry_of-pruned key l.window now l.entries e found live, blocked) (ground arith)

-- When a key without a live entry fails at `t0` and then at the times `ts`, all within one window and
-- together at least `maxFailures` times, it is blocked until the block duration after the last failure
-- is over.
pub lockout :
    (l : Limiter) (key : String) (t0 : ℕ) (ts : List ℕ) (now : ℕ)
    → entry_of key (pruned l.window t0 l.entries) ≡ none
    → 1 ≤ l.window
    → All (Within t0 l.window) ts
    → l.max_failures ≤ suc (length ts)
    → now < last_time t0 ts + l.block_duration
    → (blocked (fail_at key (t0 ∷ ts) l) key now).1 ≡ true
unfolding fail_at
lockout l key t0 ts now fresh wide within enough early =
    let m = failure l key t0 in
    let c =
      fail_at-Counts key ts m t0 1 t0 (first-Counts l key t0 fresh wide)
        (subst (λ w. All (Within t0 w) ts) (sym (failure-window l key t0)) within) in
    let (most, lasts) = fail_at-fixed key (t0 ∷ ts) l in
    let until = c.block (subst (λ k. k ≤ 1 + length ts) (sym most) (omega (arith, enough))) in
    blocked_entry (fail_at key ts m) key now c.entry c.found
      (subst (λ z. now < z) (sym until) (subst (λ d. now < last_time t0 ts + d) (sym lasts) early))
