-- ===== src/Cache/L1.antt =====
-- services/lab-app/internal/cache/l1.go: `L1Store`, as the calls see it under the mutex. An element of the list
-- `recency` is a value with an address, the map `entries` leads from a product to an address, and the
-- list stands from its front to its back. An instant is a number of nanoseconds.
pub mod Links
pub mod Reference
pub mod Refinement
pub mod Steps
mod Tests
use website_go_based.Base.{
  ℕ, zero, suc, ◌+◌, ◌-◌, ◌*◌, ◌/◌, ◌%◌, ◌≤◌, ◌<◌, ◌≡◌, refl, sym, ap, subst, ◌∙◌, ◌≢◌, ◌↔◌, ◌⊎◌,
  inl, inr, Bool, true, false, not, ◌&&◌, ◌||◌, Option, none, some, List, [], ◌∷◌, ◌++◌, map,
  String, arith, Result, ok, err, require, reject, or_fail, ◌>>=◌, ◌>>◌, ltb, leb, ◌==◌,
  if◌then◌else◌, Bool-cases, Option-cases, length, length-append, All, All-append, All-map_pred,
  select, first, update_where, count_where, exists, >>=-ok, >>-ok, require-ok, reject-ok,
}

-- `protocol.CacheProduct`.
pub record Product : Type 0 where
  pub id : ℕ
  pub name : String
  pub category : String
  pub version : ℕ

-- `l1Value`.
pub record Value : Type 0 where
  pub product : Product
  pub expires_at : ℕ
  pub last_accessed_at : ℕ

pub record Element : Type 0 where
  pub address : ℕ
  pub value : Value

pub record L1Store : Type 0 where
  pub maximum : ℕ
  pub ttl : ℕ
  pub entries : List (ℕ × ℕ)
  pub recency : List Element
  -- the address of the next element
  pub next_address : ℕ

unfoldable pub new_l1_store : ℕ → ℕ → L1Store
new_l1_store maximum ttl = record {
  maximum = maximum;
  ttl = ttl;
  entries = [];
  recency = [];
  next_address = 0;
}

-- `entries[productID]`
unfoldable pub lookup : ℕ → List (ℕ × ℕ) → Option ℕ
lookup k [] = none
lookup k ((j, a) ∷ rest) = let more = lookup k rest in if j == k then some a else more

-- `delete(entries, productID)`
unfoldable pub delete_key : ℕ → List (ℕ × ℕ) → List (ℕ × ℕ)
delete_key k [] = []
delete_key k ((j, a) ∷ rest) =
    let more = delete_key k rest in if j == k then more else (j, a) ∷ more

abbrev pub at_address : ℕ → Element → Bool
at_address a e = e.address == a

-- The list without the element of an address.
unfoldable pub unlink : ℕ → List Element → List Element
unlink a es = select (λ e. not (at_address a e)) es

-- `!now.Before(value.expiresAt)`
abbrev pub is_expired : ℕ → Value → Bool
is_expired now v = not (ltb now v.expires_at)

-- `remove`.
unfoldable pub remove : Element → L1Store → L1Store
unfolding delete_key unlink
remove e s = record s {
  entries = delete_key e.value.product.id s.entries;
  recency = unlink e.address s.recency;
}

-- The element that an entry points to.
unfoldable pub element_of : ℕ → L1Store → Option Element
unfolding lookup
element_of k s = elim (lookup k s.entries) [ none ↦ none | some a ↦ first (at_address a) s.recency ]

-- A new value for an element, which moves to the front.
unfoldable pub move_to_front : Element → Value → L1Store → L1Store
unfolding unlink
move_to_front e v s = record s {
  recency = record { address = e.address; value = v } ∷ unlink e.address s.recency;
}

abbrev pub touched : ℕ → Value → Value
touched now v = record v { last_accessed_at = now }

-- `Get`: the store and the product, by the element of the product.
unfoldable pub get_element : ℕ → L1Store → Option Element → L1Store × Option Product
unfolding remove move_to_front
get_element now s none = (s, none)
get_element now s (some e) =
    if is_expired now e.value
    then (remove e s, none)
    else (move_to_front e (touched now e.value) s, some e.value.product)

unfoldable pub get : ℕ → ℕ → L1Store → L1Store × Option Product
unfolding element_of get_element
get k now s = get_element now s (element_of k s)

-- `Back`.
unfoldable pub back : List Element → Option Element
back [] = none
back (e ∷ []) = some e
back (e ∷ f ∷ rest) = back (f ∷ rest)

unfoldable pub push_front : Product → Value → L1Store → L1Store
push_front p v s = record s {
  entries = (p.id, s.next_address) ∷ s.entries;
  recency = record { address = s.next_address; value = v } ∷ s.recency;
  next_address = suc s.next_address;
}

-- The end of `Put`: the oldest element goes where there are too many.
unfoldable pub evict : L1Store → L1Store × Option Product
unfolding back remove
evict s = if leb (length s.entries) s.maximum then (s, none) else elim (back s.recency) [
  | none ↦ (s, none)
  | some oldest ↦ (remove oldest s, some oldest.value.product)
]

-- `Put`: the store and the evicted product, by the element of the product.
unfoldable pub put_element : Product → ℕ → L1Store → Option Element → L1Store × Option Product
unfolding push_front evict move_to_front
put_element p now s none =
    evict
      (push_front p (record { product = p; expires_at = now + s.ttl; last_accessed_at = now }) s)
put_element p now s (some e) = (
  move_to_front e (record { product = p; expires_at = now + s.ttl; last_accessed_at = now }) s,
  none,
)

-- `Put` without its first answer, and all of it: the answer is the expiry and the product put out.
unfoldable pub put_product : Product → ℕ → L1Store → L1Store × Option Product
unfolding element_of put_element
put_product p now s = put_element p now s (element_of p.id s)

unfoldable pub put : Product → ℕ → L1Store → L1Store × (ℕ × Option Product)
unfolding put_product
put p now s =
    let expires_at = now + s.ttl in
    let stored = put_product p now s in (stored.0, (expires_at, stored.1))

unfoldable pub delete_element : L1Store → Option Element → L1Store × Bool
unfolding remove
delete_element s none = (s, false)
delete_element s (some e) = (remove e s, true)

-- `Delete`.
unfoldable pub delete : ℕ → L1Store → L1Store × Bool
unfolding element_of delete_element
delete k s = delete_element s (element_of k s)

-- `Clear`.
unfoldable pub clear : L1Store → L1Store × List Product
clear s = (record s { entries = []; recency = [] }, map (λ e. e.value.product) s.recency)

-- The loop of `Snapshot`: the expired elements go, the others are listed.
unfoldable pub snapshot_from : ℕ → List Element → L1Store → L1Store × List Value
unfolding remove
snapshot_from now [] s = (s, [])
snapshot_from now (e ∷ es) s =
    let rest = snapshot_from now es (if is_expired now e.value then remove e s else s) in
    (rest.0, if is_expired now e.value then rest.1 else e.value ∷ rest.1)

-- `Snapshot`: a `CacheEntry` has the fields of a value.
unfoldable pub snapshot : ℕ → L1Store → L1Store × List Value
unfolding snapshot_from
snapshot now s = snapshot_from now s.recency s
