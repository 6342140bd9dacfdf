-- ===== src/Balancer/Gcd.antt =====
-- services/platform-api/internal/balancer/algorithm.go: `greatestCommonDivisor`.
use Prim.Native.Nat.{◌∣◌}
use native.Mathlib.Nat.{dvd_refl, dvd-zero, dvd-mod_iff, mod-lt}
use website_go_based.Base.{ℕ, zero, suc, ◌%◌, ◌<◌, arith}
use website_go_based.Base.Int.{ℤ, pos, negsuc}

-- The loop, on fuel.
unfoldable pub gcd_loop : ℕ → ℕ → ℕ → ℕ
gcd_loop zero left right = left
gcd_loop (suc f) left zero = left
gcd_loop (suc f) left (suc r) = gcd_loop f (suc r) (left % suc r)

-- `if left < 0 { left = -left }`
abbrev pub magnitude : ℤ → ℕ
magnitude (pos n) = n
magnitude (negsuc n) = suc n

unfoldable pub greatest_common_divisor : ℤ → ℤ → ℕ
unfolding gcd_loop
greatest_common_divisor left right =
    gcd_loop (suc (magnitude right)) (magnitude left) (magnitude right)

pub gcd_loop-dvd :
    (f left right : ℕ)
    → right < f
    → (gcd_loop f left right ∣ left) × (gcd_loop f left right ∣ right)
unfolding gcd_loop
gcd_loop-dvd zero left right h = elim h [ ]
gcd_loop-dvd (suc f) left zero h = (dvd_refl left, dvd-zero left)
gcd_loop-dvd (suc f) left (suc r) h =
    let smaller : left % suc r < f = omega (arith, mod-lt left {m = suc r} (omega arith)) in
    let rest = gcd_loop-dvd f (suc r) (left % suc r) smaller in
    ((dvd-mod_iff _ rest.0).0 rest.1, rest.0)

-- Every common divisor divides the answer, whatever the fuel.
pub dvd-gcd_loop : (f left right k : ℕ) → k ∣ left → k ∣ right → k ∣ gcd_loop f left right
unfolding gcd_loop
dvd-gcd_loop zero left right k h1 h2 = h1
dvd-gcd_loop (suc f) left zero k h1 h2 = h1
dvd-gcd_loop (suc f) left (suc r) k h1 h2 =
    dvd-gcd_loop f (suc r) (left % suc r) k h2 ((dvd-mod_iff k h2).1 h1)

-- The loop ends with the greatest common divisor: the answer divides both numbers, and every number
-- that divides both divides it.
pub gcd_is_greatest :
    (left right : ℤ)
    → (greatest_common_divisor left right ∣ magnitude left)
      × (greatest_common_divisor left right ∣ magnitude right)
      × ((k : ℕ)
          → k ∣ magnitude left
          → k ∣ magnitude right
          → k ∣ greatest_common_divisor left right)
unfolding greatest_common_divisor
gcd_is_greatest left right =
    let both =
      gcd_loop-dvd (suc (magnitude right)) (magnitude left) (magnitude right) (omega arith) in
    (
      both.0,
      both.1,
      λ k h1 h2. dvd-gcd_loop (suc (magnitude right)) (magnitude left) (magnitude right) k h1 h2,
    )
