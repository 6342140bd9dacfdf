-- ===== src/Auth/Limiter.antt =====
-- services/platform-api/internal/auth/limiter.go.
pub mod Bounds
pub mod Lockout
mod Tests
use website_go_based.Base.{
  ℕ, zero, suc, ◌+◌, ◌-◌, ◌*◌, ◌/◌, ◌%◌, ◌≤◌, ◌<◌, ◌≡◌, refl, sym, ap, subst, ◌∙◌, ◌≢◌, ◌↔◌, ◌⊎◌,
  inl, inr, Bool, true, false, not, ◌&&◌, ◌||◌, Option, none, some, List, [], ◌∷◌, ◌++◌, map,
  String, arith, Result, ok, err, require, reject, or_fail, ◌>>=◌, ◌>>◌, ltb, leb, ◌==◌,
  if◌then◌else◌, Bool-cases, Option-cases, length, length-append, All, All-append, All-map_pred,
  select, first, update_where, count_where, exists, >>=-ok, >>-ok, require-ok, reject-ok,
}
use website_go_based.Base.Text.{same_text}

pub record LimitEntry : Type 0 where
  pub window_started_at : ℕ
  pub failures : ℕ
  pub blocked_until : ℕ
  pub updated_at : ℕ

abbrev pub Entries : Type 0
Entries = List (String × LimitEntry)

pub record Limiter : Type 0 where
  pub entries : Entries
  pub window : ℕ
  pub max_failures : ℕ
  pub block_duration : ℕ
  pub max_entries : ℕ

unfoldable pub new_limiter : ℕ → ℕ → ℕ → ℕ → Limiter
new_limiter window max_failures block_duration max_entries = record {
  entries = [];
  window = window;
  max_failures = max_failures;
  block_duration = block_duration;
  max_entries = max_entries;
}

unfoldable pub entry_of : String → Entries → Option LimitEntry
entry_of key [] = none
entry_of key ((k, e) ∷ rest) =
    let more = entry_of key rest in if same_text k key then some e else more

-- `delete(entries, key)`
unfoldable pub without : String → Entries → Entries
without key [] = []
without key ((k, e) ∷ rest) =
    let more = without key rest in if same_text k key then more else (k, e) ∷ more

-- The test of `prune`, with `now.Sub` of an earlier instant.
unfoldable pub expired : ℕ → ℕ → LimitEntry → Bool
expired window now e =
    leb window (now - e.window_started_at)
    && ((e.blocked_until == 0) || not (ltb now e.blocked_until))

unfoldable pub pruned : ℕ → ℕ → Entries → Entries
unfolding expired
pruned window now [] = []
pruned window now ((k, e) ∷ rest) =
    let more = pruned window now rest in if expired window now e then more else (k, e) ∷ more

-- The loop of `makeRoom`.
unfoldable pub oldest_key : String → ℕ → Entries → String
oldest_key key time [] = key
oldest_key key time ((k, e) ∷ rest) =
    let newer = oldest_key k e.updated_at rest in
    let same = oldest_key key time rest in
    if same_text key "" || ltb e.updated_at time then newer else same

unfoldable pub make_room : ℕ → Entries → Entries
unfolding oldest_key without
make_room max_entries es =
    if ltb (length es) max_entries then es else without (oldest_key "" 0 es) es

-- The entry that `Failure` starts from: the stored one, or a new one.
unfoldable pub started : ℕ → Option LimitEntry → LimitEntry
started now none = record {
  window_started_at = now;
  failures = 0;
  blocked_until = 0;
  updated_at = 0;
}
started now (some e) = e

-- The fields that `Failure` sets.
unfoldable pub counted : Limiter → ℕ → LimitEntry → LimitEntry
counted l now e =
    let old = leb l.window (now - e.window_started_at) in
    let count = if old then 1 else suc e.failures in
    record {
      window_started_at = if old then now else e.window_started_at;
      failures = count;
      blocked_until = if leb l.max_failures count then now + l.block_duration else e.blocked_until;
      updated_at = now;
    }

abbrev pub roomy : ℕ → Option LimitEntry → Entries → Entries
roomy max_entries none es = make_room max_entries es
roomy max_entries (some e) es = es

-- `Failure`.
unfoldable pub failure : Limiter → String → ℕ → Limiter
unfolding pruned entry_of without started counted make_room
failure l key now =
    let kept = pruned l.window now l.entries in
    let found = entry_of key kept in
    record l {
      entries =
          (key, counted l now (started now found)) ∷ without key (roomy l.max_entries found kept);
    }

-- `Blocked`: the limiter and the answer.
unfoldable pub blocked : Limiter → String → ℕ → Limiter × Bool
unfolding pruned entry_of
blocked l key now =
    let kept = pruned l.window now l.entries in
    (
      record l { entries = kept },
      elim (entry_of key kept) [ none ↦ false | some e ↦ ltb now e.blocked_until ],
    )

-- `Success`.
unfoldable pub success : Limiter → String → Limiter
unfolding without
success l key = record l { entries = without key l.entries }
