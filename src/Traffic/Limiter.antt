-- ===== src/Traffic/Limiter.antt =====
-- services/platform-api/internal/traffic/limiter.go.
pub mod Bounds
mod Tests
use website_go_based.Base.{
  ℕ, zero, suc, ◌≡◌, Bool, true, false, not, ◌&&◌, ◌||◌, Option, none, some, List, [], ◌∷◌, ltb,
  ◌==◌, if◌then◌else◌, length, arith, ◌+◌, ◌-◌, ◌*◌, ◌/◌, ◌%◌, ◌≤◌, ◌<◌, refl, sym, ap, subst, ◌∙◌,
  ◌≢◌, ◌↔◌, ◌⊎◌, inl, inr, ◌++◌, map, String, Result, ok, err, require, reject, or_fail, ◌>>=◌,
  ◌>>◌, leb, Bool-cases, Option-cases, length-append, All, All-append, All-map_pred, select, first,
  update_where, count_where, exists, >>=-ok, >>-ok, require-ok, reject-ok,
}
use website_go_based.Base.Int.{ℤ, pos, sub_ℕ, ltb_ℤ}

pub record Tokens : Type 1 where
  pub Float : Type 0
  pub of_int : ℤ → Float
  -- `Duration.Seconds`
  pub seconds : ℤ → Float
  pub plus : Float → Float → Float
  pub minus : Float → Float → Float
  pub times : Float → Float → Float
  pub minimum : Float → Float → Float
  pub at_most : Float → Float → Bool

module _ (F : Tokens) where
  pub record LimiterEntry : Type 0 where
    pub tokens : F.Float
    pub updated : ℕ
    pub last_seen : ℕ

  pub record Limiter : Type 0 where
    pub rate : F.Float
    pub burst : F.Float
    pub max_entries : ℤ
    pub entries : List (ℕ × LimiterEntry)

  unfoldable pub new_limiter : ℤ → ℤ → ℤ → Limiter
  new_limiter rate_per_second burst max_entries = record {
    rate = F.of_int rate_per_second;
    burst = F.of_int burst;
    max_entries = max_entries;
    entries = [];
  }

  unfoldable pub entry_of : ℕ → List (ℕ × LimiterEntry) → Option LimiterEntry
  entry_of id [] = none
  entry_of id ((k, e) ∷ rest) = let more = entry_of id rest in if k == id then some e else more

  -- `delete(entries, id)`
  unfoldable pub without : ℕ → List (ℕ × LimiterEntry) → List (ℕ × LimiterEntry)
  without id [] = []
  without id ((k, e) ∷ rest) = let more = without id rest in if k == id then more else (k, e) ∷ more

  -- The loop of `evictOldest`, from the user and the instant it has found.
  unfoldable pub oldest_from : ℕ → ℕ → List (ℕ × LimiterEntry) → ℕ
  oldest_from id t [] = id
  oldest_from id t ((k, e) ∷ rest) =
      let older = (id == 0) || ltb e.last_seen t in
      oldest_from (if older then k else id) (if older then e.last_seen else t) rest

  unfoldable pub evict_oldest : List (ℕ × LimiterEntry) → List (ℕ × LimiterEntry)
  unfolding without oldest_from
  evict_oldest es = without (oldest_from 0 0 es) es

  -- The entries after the look-up of a user, and the entry of the user.
  unfoldable pub entry_or_new :
      Limiter → ℕ → ℕ → Option LimiterEntry → List (ℕ × LimiterEntry) × LimiterEntry
  unfolding evict_oldest
  entry_or_new l id now (some e) = (l.entries, e)
  entry_or_new l id now none = (
    if ltb_ℤ (pos (length l.entries)) l.max_entries then l.entries else evict_oldest l.entries,
    record { tokens = l.burst; updated = now; last_seen = 0 },
  )

  unfoldable pub refilled : Limiter → ℕ → LimiterEntry → F.Float
  refilled l now e =
      F.minimum l.burst (F.plus e.tokens (F.times (F.seconds (sub_ℕ now e.updated)) l.rate))

  abbrev pub usable : Limiter → ℕ → Bool
  usable l id =
      not (id == 0)
      && not (F.at_most l.rate (F.of_int (pos 0)))
      && not (F.at_most l.burst (F.of_int (pos 0)))
      && ltb_ℤ (pos 0) l.max_entries

  -- `Allow` for a limiter that is usable.
  unfoldable pub consume : Limiter → ℕ → ℕ → Limiter × Bool
  unfolding entry_of without entry_or_new refilled
  consume l id now =
      let p = entry_or_new l id now (entry_of id l.entries) in
      let full = refilled l now p.1 in
      let allowed = F.at_most (F.of_int (pos 1)) full in
      let left = if allowed then F.minus full (F.of_int (pos 1)) else full in
      let e : LimiterEntry = record { tokens = left; updated = now; last_seen = now } in
      (record l { entries = (id, e) ∷ without id p.0 }, allowed)

  unfoldable pub allow : Limiter → ℕ → ℕ → Limiter × Bool
  unfolding consume
  allow l id now = if usable l id then consume l id now else (l, false)
