-- ===== src/Base/Decimal.antt =====
-- `%d` of a natural number: decimal digits without leading zeros.
use Prim.Native.Char.{Char, code}
use Prim.Native.String.append
use Prim.Native.String.{String, ◌++◌ as str_append}
use native.Mathlib.Omega.{arith}
use Prim.Native.Nat.{ℕ, zero, suc, ◌+◌, ◌*◌, ◌/◌, ◌%◌, ◌<◌, ◌-◌}
use mathlib.Core.Path.{◌≡◌, refl, sym, ap, ◌∙◌}
use mathlib.Core.Logic.{inl, inr}
use website_go_based.Base.Tests.{ltb, if◌then◌else◌, Bool-cases}

unfoldable pub digit : ℕ → Char
digit zero = "0"
digit (suc zero) = "1"
digit (suc (suc zero)) = "2"
digit (suc (suc (suc zero))) = "3"
digit (suc (suc (suc (suc zero)))) = "4"
digit (suc (suc (suc (suc (suc zero))))) = "5"
digit (suc (suc (suc (suc (suc (suc zero)))))) = "6"
digit (suc (suc (suc (suc (suc (suc (suc zero))))))) = "7"
digit (suc (suc (suc (suc (suc (suc (suc (suc zero)))))))) = "8"
digit _ = "9"

-- The digits before `rest`, on fuel: a number below the fuel is written in full.
unfoldable pub digits_before : ℕ → ℕ → String → String
unfolding digit
digits_before zero n rest = rest
digits_before (suc f) n rest =
    let more = digits_before f (n / 10) (String.◌∷◌ (digit (n % 10)) rest) in
    if ltb n 10 then String.◌∷◌ (digit n) rest else more

unfoldable pub decimal : ℕ → String
unfolding digits_before
decimal n = digits_before (suc n) n ""

-- `fmt.Sprintf("app-%d", index)`
unfoldable pub app_name : ℕ → String
unfolding decimal
app_name index = str_append "app-" (decimal index)

-- The number that a text of digits writes, after the number `acc`.
abbrev value_after : ℕ → String → ℕ
value_after acc String.[] = acc
value_after acc (String.◌∷◌ c s) = value_after (acc * 10 + (code c - b'0')) s

digit-value : (n : ℕ) → n < 10 → code (digit n) - b'0' ≡ n
unfolding digit
digit-value zero h = refl
digit-value (suc zero) h = refl
digit-value (suc (suc zero)) h = refl
digit-value (suc (suc (suc zero))) h = refl
digit-value (suc (suc (suc (suc zero)))) h = refl
digit-value (suc (suc (suc (suc (suc zero))))) h = refl
digit-value (suc (suc (suc (suc (suc (suc zero)))))) h = refl
digit-value (suc (suc (suc (suc (suc (suc (suc zero))))))) h = refl
digit-value (suc (suc (suc (suc (suc (suc (suc (suc zero)))))))) h = refl
digit-value (suc (suc (suc (suc (suc (suc (suc (suc (suc zero))))))))) h = refl
digit-value (suc (suc (suc (suc (suc (suc (suc (suc (suc (suc n)))))))))) h = omega arith

digits_before-value :
    (f n : ℕ) (rest : String) → n < f → value_after 0 (digits_before f n rest) ≡ value_after n rest
unfolding digits_before
digits_before-value zero n rest h = elim h [ ]
digits_before-value (suc f) n rest h = elim (Bool-cases (ltb n 10)) [
  | inl small ↦
      rw small (ap (λ a. value_after a rest) (omega (arith, digit-value n (ground arith))))
  | inr large ↦ rw large (
      digits_before-value f (n / 10) (String.◌∷◌ (digit (n % 10)) rest) (ground arith)
      ∙ ap (λ a. value_after a rest) (omega (arith, digit-value (n % 10) (omega arith))))
]

decimal-injective : (m n : ℕ) → decimal m ≡ decimal n → m ≡ n
unfolding decimal
decimal-injective m n e =
    sym (digits_before-value (suc m) m "" (omega arith))
    ∙ ap (value_after 0) e
    ∙ digits_before-value (suc n) n "" (omega arith)

drop4 : String → String
drop4 (String.◌∷◌ a (String.◌∷◌ b (String.◌∷◌ c (String.◌∷◌ d s)))) = s
drop4 s = s

drop4-app : (s : String) → drop4 (str_append "app-" s) ≡ s
unfolding drop4
drop4-app s = ap drop4 (
    append.cons "a" "pp-" s
    ∙ ap (String.◌∷◌ "a") (
        append.cons "p" "p-" s
        ∙ ap (String.◌∷◌ "p") (
            append.cons "p" "-" s
            ∙ ap (String.◌∷◌ "p") (append.cons "-" "" s ∙ ap (String.◌∷◌ "-") (append.nil s)))))

-- Different numbers name different instances.
pub app_name-injective : (m n : ℕ) → app_name m ≡ app_name n → m ≡ n
unfolding app_name
app_name-injective m n e =
    decimal-injective m n (sym (drop4-app (decimal m)) ∙ ap drop4 e ∙ drop4-app (decimal n))
