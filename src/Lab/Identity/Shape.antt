-- ===== src/Lab/Identity/Shape.antt =====
-- Which texts services/platform-api/internal/lab/identity.go accepts, and that the identifiers which
-- it makes are among them.
use Prim.Native.String.{len, ◌++◌ as str_append}
use text.Mathlib.TextPositions.{len-append}
use website_go_based.Base.{
  ℕ, ◌*◌, ◌≤◌, subst, ◌≡◌, refl, ◌↔◌, ◌⊎◌, String, true, false, some, List, [], ◌∷◌, arith, All,
  All-append, All-map_pred, length,
}
use website_go_based.Base.Text.{codes, codes-append}
use website_go_based.Lab.Identity.{
  lab_id_runes, valid_lab_id, operation_id_runes, valid_operation_id, new_lab_id,
}

-- The alphabets, said as statements about one code point.
abbrev pub Lower : ℕ → Type 0
Lower r = (b'a' ≤ r) × (r ≤ b'z') ⊎ (b'0' ≤ r) × (r ≤ b'9')

abbrev pub LabChar : ℕ → Type 0
LabChar r = Lower r ⊎ (r ≡ b'-')

abbrev pub OperationChar : ℕ → Type 0
OperationChar r = Lower r ⊎ (b'A' ≤ r) × (r ≤ b'Z') ⊎ (r ≡ b'-') ⊎ (r ≡ b'_') ⊎ (r ≡ b'.')

abbrev pub Alphanumeric : ℕ → Type 0
Alphanumeric r = Lower r ⊎ (b'A' ≤ r) × (r ≤ b'Z')

-- A text whose first code point, if there is one, satisfies `P`.
abbrev pub Starts : (ℕ → Type 0) → List ℕ → Type 0
Starts P [] = Unit
Starts P (r ∷ rest) = P r

lab_id_runes-All : (rs : List ℕ) → (lab_id_runes false rs ≡ true) ↔ All LabChar rs
unfolding lab_id_runes
lab_id_runes-All [] = (λ e. tt, λ h. refl)
lab_id_runes-All (r ∷ rs) =
    (λ e. ground (arith, (lab_id_runes-All rs).0), λ h. ground (arith, (lab_id_runes-All rs).1))

lab_id_runes-Starts :
    (rs : List ℕ) → (lab_id_runes true rs ≡ true) ↔ (All LabChar rs × Starts Lower rs)
unfolding lab_id_runes
lab_id_runes-Starts [] = (λ e. (tt, tt), λ h. refl)
lab_id_runes-Starts (r ∷ rs) =
    (λ e. ground (arith, (lab_id_runes-All rs).0), λ h. ground (arith, (lab_id_runes-All rs).1))

-- A lab identifier is accepted exactly when it has 4 to 64 bytes, all of them lower case letters,
-- digits and dashes, and does not begin with a dash.
pub valid_lab_id_iff :
    (v : String)
    → (valid_lab_id v ≡ true)
      ↔ ((4 ≤ len v) × (len v ≤ 64) × All LabChar (codes v) × Starts Lower (codes v))
unfolding valid_lab_id
valid_lab_id_iff v = (
  λ e. ground (arith, (lab_id_runes-Starts (codes v)).0),
  λ h. ground (arith, (lab_id_runes-Starts (codes v)).1 (h.2, h.3)),
)

operation_id_runes-All : (rs : List ℕ) → (operation_id_runes false rs ≡ true) ↔ All OperationChar rs
unfolding operation_id_runes
operation_id_runes-All [] = (λ e. tt, λ h. refl)
operation_id_runes-All (r ∷ rs) = (
  λ e. ground (arith, (operation_id_runes-All rs).0),
  λ h. ground (arith, (operation_id_runes-All rs).1),
)

operation_id_runes-Starts :
    (rs : List ℕ)
    → (operation_id_runes true rs ≡ true) ↔ (All OperationChar rs × Starts Alphanumeric rs)
unfolding operation_id_runes
operation_id_runes-Starts [] = (λ e. (tt, tt), λ h. refl)
operation_id_runes-Starts (r ∷ rs) = (
  λ e. ground (arith, (operation_id_runes-All rs).0),
  λ h. ground (arith, (operation_id_runes-All rs).1),
)

-- An operation identifier is accepted exactly when it has 1 to 64 bytes, all of them letters, digits,
-- dashes, underscores and dots, and begins with a letter or a digit.
pub valid_operation_id_iff :
    (v : String)
    → (valid_operation_id v ≡ true)
      ↔ ((1 ≤ len v) × (len v ≤ 64) × All OperationChar (codes v) × Starts Alphanumeric (codes v))
unfolding valid_operation_id
valid_operation_id_iff v = (
  λ e. ground (arith, (operation_id_runes-Starts (codes v)).0),
  λ h. ground (arith, (operation_id_runes-Starts (codes v)).1 (h.2, h.3)),
)

-- Lower case hexadecimal digits, which `hex.EncodeToString` writes.
abbrev pub HexDigit : ℕ → Type 0
HexDigit r = (b'0' ≤ r) × (r ≤ b'9') ⊎ (b'a' ≤ r) × (r ≤ b'f')

hex-LabChar : (rs : List ℕ) → All HexDigit rs → All LabChar rs
hex-LabChar rs h = All-map_pred rs (λ r d. ground arith) h

-- Whenever the random source answers, and `hex` writes two hexadecimal digits for each of the 16
-- bytes, the new lab identifier is one that `validLabID` accepts.
pub new_lab_id-valid :
    (hex : List ℕ → String) (bytes : List ℕ) (id : String)
    → len (hex bytes) ≡ 2 * length bytes
    → All HexDigit (codes (hex bytes))
    → length bytes ≡ 16
    → new_lab_id hex (some bytes) ≡ some id
    → valid_lab_id id ≡ true
unfolding new_lab_id
new_lab_id-valid hex bytes id size digits sixteen e =
    subst (λ v. valid_lab_id v ≡ true) (ground arith)
      ((valid_lab_id_iff (str_append "lab-" (hex bytes))).1 (
        rw (len-append "lab-" (hex bytes)) (omega arith),
        rw (len-append "lab-" (hex bytes)) (omega arith),
        rw (codes-append "lab-" (hex bytes)) (
            All-append LabChar (codes "lab-") (codes (hex bytes)) (ground arith)
              (hex-LabChar _ digits)),
        rw (codes-append "lab-" (hex bytes)) (ground arith),
      ))
