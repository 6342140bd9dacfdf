-- ===== src/Cache/L1/Reference.antt =====
-- The least recently used cache that services/lab-app/internal/cache/l1.go promises: a list of values from the
-- last used to the first, with one value for a product.
use website_go_based.Base.{
  ℕ, Bool, not, Option, none, some, List, [], ◌∷◌, leb, ◌==◌, if◌then◌else◌, length, select, first,
  exists,
}
use website_go_based.Cache.L1.{Product, Value, is_expired, touched}

abbrev pub of_product : ℕ → Value → Bool
of_product k v = v.product.id == k

unfoldable pub drop_product : ℕ → List Value → List Value
drop_product k vs = select (λ v. not (of_product k v)) vs

unfoldable pub lru_get_value : ℕ → ℕ → List Value → Option Value → List Value × Option Product
lru_get_value k now vs none = (vs, none)
lru_get_value k now vs (some v) =
    if is_expired now v
    then (drop_product k vs, none)
    else (touched now v ∷ drop_product k vs, some v.product)

-- An expired value is dropped, another one comes to the front.
unfoldable pub lru_get : ℕ → ℕ → List Value → List Value × Option Product
unfolding lru_get_value
lru_get k now vs = lru_get_value k now vs (first (of_product k) vs)

unfoldable pub last_value : List Value → Option Value
last_value [] = none
last_value (v ∷ []) = some v
last_value (v ∷ w ∷ rest) = last_value (w ∷ rest)

-- A list that is too long loses its last value.
unfoldable pub lru_trim : ℕ → List Value → List Value × Option Product
unfolding last_value drop_product
lru_trim maximum vs = if leb (length vs) maximum then (vs, none) else elim (last_value vs) [
  | none ↦ (vs, none)
  | some v ↦ (drop_product v.product.id vs, some v.product)
]

unfoldable pub lru_put_value : Value → ℕ → List Value → Option Value → List Value × Option Product
unfolding lru_trim
lru_put_value v maximum vs none = lru_trim maximum (v ∷ vs)
lru_put_value v maximum vs (some old) = (v ∷ drop_product v.product.id vs, none)

-- The new value stands in front; a value of another product may be evicted.
unfoldable pub lru_keep : Value → ℕ → List Value → List Value × Option Product
unfolding lru_put_value
lru_keep v maximum vs = lru_put_value v maximum vs (first (of_product v.product.id) vs)

-- The answer is the expiry of the value and the product that was put out.
unfoldable pub lru_put : Value → ℕ → List Value → List Value × (ℕ × Option Product)
unfolding lru_keep
lru_put v maximum vs = let kept = lru_keep v maximum vs in (kept.0, (v.expires_at, kept.1))

unfoldable pub lru_delete : ℕ → List Value → List Value × Bool
unfolding drop_product
lru_delete k vs = (drop_product k vs, exists (of_product k) vs)
