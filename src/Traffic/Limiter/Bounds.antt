-- ===== src/Traffic/Limiter/Bounds.antt =====
-- services/platform-api/internal/traffic/limiter.go: how many users a limiter keeps.
use website_go_based.Base.{
  ℕ, ◌≡◌, refl, ap, ◌⊎◌, inl, inr, ◌||◌, some, List, [], ◌∷◌, ltb, ◌==◌, if◌then◌else◌, length,
  arith, ◌≤◌, ◌<◌, Bool-cases, Option-cases, sym, ◌∙◌,
}
use website_go_based.Base.Int.{ℤ, pos, ltb_ℤ}
use website_go_based.Traffic.Limiter.{
  Tokens, new_limiter, Limiter, LimiterEntry, entry_of, without, oldest_from, evict_oldest,
  entry_or_new, consume, allow, usable,
}

module _ (F : Tokens) where
  -- A user of the entries.
  unfoldable Keeps : ℕ → List (ℕ × LimiterEntry F) → Type 0
  Keeps id [] = ⊥
  Keeps id ((k, e) ∷ rest) = (k ≡ id) ⊎ Keeps id rest

  length-without : (id : ℕ) (es : List (ℕ × LimiterEntry F)) → length (without F id es) ≤ length es
  unfolding without
  length-without id [] = omega arith
  length-without id ((k, e) ∷ rest) = elim (Bool-cases (k == id)) [
    | inl here ↦ rw here (omega (arith, length-without id rest))
    | inr there ↦ rw there (omega (arith, length-without id rest))
  ]

  length-without_kept :
      (id : ℕ) (es : List (ℕ × LimiterEntry F)) → Keeps id es → length (without F id es) < length es
  unfolding without Keeps
  length-without_kept id [] h = absurd h
  length-without_kept id ((k, e) ∷ rest) h = elim (Bool-cases (k == id)) [
    | inl here ↦ rw here (omega (arith, length-without id rest))
    | inr there ↦ rw there (elim h [
      | inl same ↦ grind arith
      | inr more ↦ omega (arith, length-without_kept id rest more)
    ])
  ]

  oldest_from-Keeps :
      (id t : ℕ) (es : List (ℕ × LimiterEntry F)) (x : ℕ)
      → oldest_from F id t es ≡ x
      → (id ≡ x) ⊎ Keeps x es
  unfolding oldest_from Keeps
  oldest_from-Keeps id t [] x h = inl h
  oldest_from-Keeps id t ((k, e) ∷ rest) x h =
      let older = (id == 0) || ltb e.last_seen t in
      elim (Bool-cases older) [
        | inl new ↦
            elim (oldest_from-Keeps (if older then k else id) (if older then e.last_seen else t)
              rest x h) [
                | inl same ↦ inr (inl (ap (λ b. if b then k else id) (sym new) ∙ same))
                | inr more ↦ inr (inr more)
              ]
        | inr old ↦
            elim (oldest_from-Keeps (if older then k else id) (if older then e.last_seen else t)
              rest x h) [
                | inl same ↦ inl (ap (λ b. if b then k else id) (sym old) ∙ same)
                | inr more ↦ inr (inr more)
              ]
      ]

  evict_oldest-length :
      (es : List (ℕ × LimiterEntry F)) → 0 < length es → length (evict_oldest F es) < length es
  unfolding evict_oldest oldest_from Keeps
  evict_oldest-length [] h = absurd (omega (arith, h))
  evict_oldest-length ((k, e) ∷ rest) h =
      length-without_kept _ ((k, e) ∷ rest) (elim (oldest_from-Keeps k e.last_seen rest _ refl) [
        | inl same ↦ inl same
        | inr more ↦ inr more
      ])

  entry_of-Keeps :
      (id : ℕ) (es : List (ℕ × LimiterEntry F)) (e : LimiterEntry F)
      → entry_of F id es ≡ some e
      → Keeps id es
  unfolding entry_of Keeps
  entry_of-Keeps id [] e h = cc
  entry_of-Keeps id ((k, x) ∷ rest) e h = elim (Bool-cases (k == id)) [
    | inl here ↦ inl (grind arith)
    | inr there ↦ inr (entry_of-Keeps id rest e (grind arith))
  ]

  room_for :
      (l : Limiter F) (id now n : ℕ)
      → l.max_entries ≡ pos n
      → length l.entries ≤ n
      → 0 < n
      → length (without F id (entry_or_new F l id now (entry_of F id l.entries)).0) < n
  unfolding entry_or_new
  room_for l id now n limit h room = elim (Option-cases (entry_of F id l.entries)) [
    | inl unknown ↦ rw unknown (elim (Bool-cases (ltb_ℤ (pos (length l.entries)) l.max_entries)) [
      | inl fits ↦ rw fits (
          let few : length l.entries < n = grind arith in
          omega (arith, few, length-without id l.entries))
      | inr full ↦ rw full (
          let filled : 0 < length l.entries = grind arith in
          omega (
            arith,
            h,
            length-without id (evict_oldest F l.entries),
            evict_oldest-length l.entries filled,
          ))
    ])
    | inr (e, known) ↦
        rw known
          (omega (arith, h, length-without_kept id l.entries (entry_of-Keeps id l.entries e known)))
  ]

  allow_bounded :
      (l : Limiter F) (id now n : ℕ)
      → l.max_entries ≡ pos n
      → length l.entries ≤ n
      → length (allow F l id now).0.entries ≤ n
  unfolding allow consume
  allow_bounded l id now n limit h = elim (Bool-cases (usable F l id)) [
    | inl ready ↦
        rw ready
          (let room : 0 < n = ground arith in omega (arith, room_for l id now n limit h room))
    | inr refused ↦ rw refused h
  ]

  allow_limit : (l : Limiter F) (id now : ℕ) → (allow F l id now).0.max_entries ≡ l.max_entries
  unfolding allow consume
  allow_limit l id now = elim (Bool-cases (usable F l id)) [
    | inl ready ↦ rw ready refl
    | inr refused ↦ rw refused refl
  ]

  -- The limiter after requests of users, each with its instant.
  unfoldable pub after_requests : Limiter F → List (ℕ × ℕ) → Limiter F
  after_requests l [] = l
  after_requests l ((id, now) ∷ rest) = after_requests (allow F l id now).0 rest

  requests_bounded :
      (l : Limiter F) (n : ℕ) (calls : List (ℕ × ℕ))
      → l.max_entries ≡ pos n
      → length l.entries ≤ n
      → length (after_requests l calls).entries ≤ n
  unfolding after_requests
  requests_bounded l n [] limit h = h
  requests_bounded l n ((id, now) ∷ rest) limit h =
      requests_bounded (allow F l id now).0 n rest (allow_limit l id now ∙ limit)
        (allow_bounded l id now n limit h)

-- Whatever requests a fresh limiter for `n` users has answered, it keeps the buckets of at most `n` users.
pub users_bounded :
    (F : Tokens) (rate burst : ℤ) (n : ℕ) (calls : List (ℕ × ℕ))
    → length (after_requests F (new_limiter F rate burst (pos n)) calls).entries ≤ n
unfolding new_limiter
users_bounded F rate burst n calls =
    requests_bounded F (new_limiter F rate burst (pos n)) n calls refl (omega arith)
