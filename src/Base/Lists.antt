-- ===== src/Base/Lists.antt =====
-- Lists measured by native numbers, predicates over lists, and tables of rows: the helpers that
-- the models of maps, slices and SQL statements share.
use Prim.Native.Nat.{ℕ, suc, ◌+◌, ◌≤◌}
use mathlib.Core.Path.{◌≡◌, refl}
use mathlib.Core.Logic.{◌⊎◌, ◌↔◌}
use mathlib.Core.Bool.{Bool, true, false}
use mathlib.Core.List.{List, [], ◌∷◌, ◌++◌}
use mathlib.Core.Option.{Option, none, some}
use native.Mathlib.Omega.{arith}
use website_go_based.Base.Tests.{if◌then◌else◌}

module _ {ℓ} {A : Type ℓ} where
  abbrev pub length : List A → ℕ
  length [] = 0
  length (x ∷ xs) = suc (length xs)

  pub length-append : (xs ys : List A) → length (xs ++ ys) ≡ length xs + length ys
  length-append [] ys = omega arith
  length-append (x ∷ xs) ys = omega (arith, length-append xs ys)

  -- Every element satisfies the predicate.
  abbrev pub All {κ} : (A → Type κ) → List A → Type κ
  All P [] = Unit
  All P (x ∷ xs) = P x × All P xs

  pub All-append {κ} : (P : A → Type κ) (xs ys : List A) → All P xs → All P ys → All P (xs ++ ys)
  All-append P [] ys hx hy = hy
  All-append P (x ∷ xs) ys hx hy = (hx.0, All-append P xs ys hx.1 hy)

  pub All-map_pred {κ μ} :
      {P : A → Type κ} {Q : A → Type μ} (xs : List A) → ((x : A) → P x → Q x) → All P xs → All Q xs
  All-map_pred [] f h = tt
  All-map_pred (x ∷ xs) f h = (f x h.0, All-map_pred xs f h.1)

  -- The rows that a WHERE clause selects.
  unfoldable pub select : (A → Bool) → List A → List A
  select p [] = []
  select p (x ∷ xs) = let rest = select p xs in if p x then x ∷ rest else rest

  -- The first selected row, as `LIMIT 1` and `QueryRow` read it.
  unfoldable pub first : (A → Bool) → List A → Option A
  first p [] = none
  first p (x ∷ xs) = let rest = first p xs in if p x then some x else rest

  -- UPDATE ... SET f WHERE p.
  unfoldable pub update_where : (A → Bool) → (A → A) → List A → List A
  update_where p f [] = []
  update_where p f (x ∷ xs) = (if p x then f x else x) ∷ update_where p f xs

  -- The number of rows that a WHERE clause selects.
  unfoldable pub count_where : (A → Bool) → List A → ℕ
  count_where p [] = 0
  count_where p (x ∷ xs) = let rest = count_where p xs in if p x then suc rest else rest

  unfoldable pub exists : (A → Bool) → List A → Bool
  exists p [] = false
  exists p (x ∷ xs) = let rest = exists p xs in if p x then true else rest

  pub count_where-append :
      (p : A → Bool) (xs ys : List A)
      → count_where p (xs ++ ys) ≡ count_where p xs + count_where p ys
  unfolding count_where
  count_where-append p [] ys = omega arith
  count_where-append p (x ∷ xs) ys = ground (arith, count_where-append p xs ys)

  pub count_where_none : (p : A → Bool) (xs : List A) → exists p xs ≡ false → count_where p xs ≡ 0
  unfolding exists count_where
  count_where_none p [] h = refl
  count_where_none p (x ∷ xs) h = ground (arith, count_where_none p xs)

  pub first-append :
      (p : A → Bool) (xs : List A) (y : A)
      → exists p xs ≡ false
      → p y ≡ true
      → first p (xs ++ y ∷ []) ≡ some y
  unfolding first exists
  first-append p [] y h k = ground arith
  first-append p (x ∷ xs) y h k = ground (arith, first-append p xs y)

  pub exists_of_count : (p : A → Bool) (xs : List A) → count_where p xs ≡ 0 → exists p xs ≡ false
  unfolding exists count_where
  exists_of_count p [] h = refl
  exists_of_count p (x ∷ xs) h = ground (arith, exists_of_count p xs)

module _ {A : Type 0} where
  -- The element stands in the list.
  abbrev pub In : A → List A → Type 0
  In a [] = ⊥
  In a (x ∷ xs) = (a ≡ x) ⊎ In a xs

  pub select-In :
      (p : A → Bool) (xs : List A) (a : A) → In a (select p xs) ↔ (In a xs × (p a ≡ true))
  unfolding select
  select-In p [] a = (λ m. absurd m, λ m. m.0)
  select-In p (x ∷ xs) a =
      (λ m. ground (arith, (select-In p xs a).0), λ m. ground (arith, (select-In p xs a).1))

  pub count_where_pos :
      (p : A → Bool) (xs : List A) (a : A) → In a xs → p a ≡ true → 1 ≤ count_where p xs
  unfolding count_where
  count_where_pos p [] a m h = absurd m
  count_where_pos p (x ∷ xs) a m h = ground (arith, count_where_pos p xs a)

  -- Where one row is selected, it is the only one.
  pub count_where_one :
      (p : A → Bool) (xs : List A) (a b : A)
      → count_where p xs ≡ 1
      → In a xs
      → p a ≡ true
      → In b xs
      → p b ≡ true
      → a ≡ b
  unfolding count_where
  count_where_one p [] a b c ma ha mb hb = absurd ma
  count_where_one p (x ∷ xs) a b c ma ha mb hb =
      ground (arith, count_where_one p xs a b, count_where_pos p xs a, count_where_pos p xs b)
