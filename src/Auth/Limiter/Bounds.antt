-- ===== src/Auth/Limiter/Bounds.antt =====
-- services/platform-api/internal/auth/limiter.go: the number of entries.
use website_go_based.Base.{
  ℕ, suc, ◌≤◌, ◌≡◌, refl, ◌⊎◌, inl, Bool, true, Option, none, some, [], ◌∷◌, String, arith, length,
  exists,
}
use website_go_based.Base.Text.{same_text}
use website_go_based.Auth.Limiter.{
  Entries, LimitEntry, Limiter, entry_of, without, pruned, oldest_key, make_room, failure, blocked,
  success, roomy,
}

length-without : (key : String) (es : Entries) → length (without key es) ≤ length es
unfolding without
length-without key [] = omega arith
length-without key ((k, e) ∷ rest) = ground (arith, length-without key rest)

length-pruned : (window now : ℕ) (es : Entries) → length (pruned window now es) ≤ length es
unfolding pruned
length-pruned window now [] = omega arith
length-pruned window now ((k, e) ∷ rest) = ground (arith, length-pruned window now rest)

abbrev present : String → Entries → Bool
present key es = exists (λ p. same_text p.0 key) es

shorter_without :
    (key : String) (es : Entries)
    → present key es ≡ true
    → suc (length (without key es)) ≤ length es
unfolding without exists
shorter_without key [] h = absurd (ground arith)
shorter_without key ((k, e) ∷ rest) h =
    ground (arith, shorter_without key rest, length-without key rest)

-- The loop ends with the key that it started with or with one of the map.
oldest_key-present :
    (key : String) (time : ℕ) (es : Entries)
    → (oldest_key key time es ≡ key) ⊎ (present (oldest_key key time es) es ≡ true)
unfolding oldest_key exists
oldest_key-present key time [] = inl refl
oldest_key-present key time ((k, e) ∷ rest) =
    ground (arith, oldest_key-present k e.updated_at rest, oldest_key-present key time rest)

first_key-present :
    (e : String × LimitEntry) (es : Entries) → present (oldest_key "" 0 (e ∷ es)) (e ∷ es) ≡ true
unfolding oldest_key exists
first_key-present (k, e) es = ground (arith, oldest_key-present k e.updated_at es)

-- `makeRoom` leaves fewer entries than the limit, where there is a place at all.
length-make_room :
    (max_entries : ℕ) (es : Entries)
    → length es ≤ max_entries
    → 1 ≤ max_entries
    → suc (length (make_room max_entries es)) ≤ max_entries
unfolding make_room
length-make_room max_entries [] h one = ground arith
length-make_room max_entries (e ∷ es) h one =
    ground (arith, shorter_without (oldest_key "" 0 (e ∷ es)) (e ∷ es), first_key-present e es)

present_of_entry :
    (key : String) (es : Entries) (x : LimitEntry)
    → entry_of key es ≡ some x
    → present key es ≡ true
unfolding entry_of exists
present_of_entry key [] x e = absurd (ground arith)
present_of_entry key ((k, y) ∷ rest) x e = ground (arith, present_of_entry key rest x)

roomy-length :
    (l : Limiter) (key : String) (found : Option LimitEntry) (es : Entries)
    → entry_of key es ≡ found
    → length es ≤ l.max_entries
    → 1 ≤ l.max_entries
    → suc (length (without key (roomy l.max_entries found es))) ≤ l.max_entries
roomy-length l key none es e h one = omega (
  arith,
  length-without key (make_room l.max_entries es),
  length-make_room l.max_entries es h one,
)
roomy-length l key (some x) es e h one =
    omega (arith, shorter_without key es (present_of_entry key es x e), h)

-- The calls of the limiter keep at most `maxEntries` entries, where that is at least one.
pub entries_bounded :
    (l : Limiter) (key : String) (now : ℕ)
    → length l.entries ≤ l.max_entries
    → 1 ≤ l.max_entries
    → (length (failure l key now).entries ≤ l.max_entries)
      × (length (blocked l key now).0.entries ≤ l.max_entries)
      × (length (success l key).entries ≤ l.max_entries)
unfolding failure blocked success
entries_bounded l key now h one =
    let fewer = length-pruned l.window now l.entries in
    let kept : length (pruned l.window now l.entries) ≤ l.max_entries = omega (arith, fewer, h) in
    (
      roomy-length l key (entry_of key (pruned l.window now l.entries))
          (pruned l.window now l.entries) refl kept one,
      kept,
      omega (arith, length-without key l.entries, h),
    )
