-- ===== src/Lab/Identity.antt =====
-- services/platform-api/internal/lab/identity.go: identifiers of labs and operations. `len` counts
-- bytes and `range` walks code points, as in Go; a byte index is positive exactly after the first
-- code point.
pub mod Shape
use Prim.Native.String.{len, ◌++◌ as str_append}
use website_go_based.Base.{
  ℕ, String, Bool, true, false, not, ◌&&◌, ◌||◌, Option, none, some, List, [], ◌∷◌, leb, ltb, ◌==◌,
  if◌then◌else◌,
}
use website_go_based.Base.Text.{codes}

unfoldable pub lower_or_digit : ℕ → Bool
lower_or_digit r = leb b'a' r && leb r b'z' || leb b'0' r && leb r b'9'

unfoldable pub letter_or_digit : ℕ → Bool
letter_or_digit r = leb b'a' r && leb r b'z' || leb b'A' r && leb r b'Z' || leb b'0' r && leb r b'9'

-- The loop of `validLabID`; `first` stands for `i == 0`.
unfoldable pub lab_id_runes : Bool → List ℕ → Bool
unfolding lower_or_digit
lab_id_runes first [] = true
lab_id_runes first (r ∷ rest) =
    let more = lab_id_runes false rest in
    if lower_or_digit r then more else if (r == b'-') && not first then more else false

unfoldable pub valid_lab_id : String → Bool
valid_lab_id value =
    if ltb (len value) 4 || ltb 64 (len value) then false else lab_id_runes true (codes value)

-- The loop of `validOperationID`.
unfoldable pub operation_id_runes : Bool → List ℕ → Bool
unfolding letter_or_digit
operation_id_runes first [] = true
operation_id_runes first (r ∷ rest) =
    let more = operation_id_runes false rest in
    if letter_or_digit r
    then more
    else if not first && ((r == b'-') || (r == b'_') || (r == b'.'))
    then more
    else false

unfoldable pub valid_operation_id : String → Bool
valid_operation_id value =
    if (len value == 0) || ltb 64 (len value) then false else operation_id_runes true (codes value)

-- `newLabID`: the random source answers 16 bytes or fails, and `hex` is `hex.EncodeToString`.
unfoldable pub new_lab_id : (List ℕ → String) → Option (List ℕ) → Option String
new_lab_id hex none = none
new_lab_id hex (some bytes) = some (str_append "lab-" (hex bytes))
