-- ===== src/Cache/L1/Steps.antt =====
-- services/lab-app/internal/cache/l1.go: each call against the reference cache.
use website_go_based.Base.{
  ℕ, ◌+◌, ◌≡◌, refl, sym, ap, subst, ◌∙◌, inl, inr, true, false, Option, none, some, List, [], ◌∷◌,
  map, arith, leb, Bool-cases, Option-cases, length, select, first, exists,
}
use website_go_based.Cache.L1.{
  Product, Element, Value, L1Store, lookup, remove, move_to_front, touched, get, get_element, back,
  push_front, evict, put, put_product, put_element, delete, delete_element, is_expired, clear,
  new_l1_store,
}
use website_go_based.Cache.L1.Links.{
  id_of, has, Linked, first-true, values, values-without_product, value_of, first-values,
  length-values,
}
use website_go_based.Cache.L1.Reference.{
  of_product, drop_product, lru_get, lru_get_value, lru_trim, lru_put, lru_keep, lru_put_value,
  lru_delete,
}
use website_go_based.Cache.L1.Refinement.{
  element_of-first, dropped-Linked, remove-dropped, fronted-Linked, move_to_front-fronted,
  pushed-Linked, back-first, back-values,
}

-- The map and the list belong together, the values are those of the reference, and so is the answer.
abbrev pub Agrees : {A : Type 0} → L1Store × A → List Value × A → Type 0
Agrees r q = Linked r.0 × (values r.0.recency ≡ q.0) × (r.1 ≡ q.1)

dropped-Agrees :
    {A : Type 0} (k : ℕ) (s : L1Store) (e : Element) (a : A)
    → Linked s
    → first (has k) s.recency ≡ some e
    → Agrees (remove e s, a) (drop_product k (values s.recency), a)
dropped-Agrees k s e a h found =
    subst (λ z. Agrees (z, a) (drop_product k (values s.recency), a))
      (sym (remove-dropped k s e h found))
      (dropped-Linked k s e h found, values-without_product k s.recency, refl)

fronted-Agrees :
    {A : Type 0} (k : ℕ) (v : Value) (s : L1Store) (e : Element) (a : A)
    → Linked s
    → v.product.id ≡ k
    → first (has k) s.recency ≡ some e
    → Agrees (move_to_front e v s, a) (v ∷ drop_product k (values s.recency), a)
fronted-Agrees k v s e a h key found =
    subst (λ z. Agrees (z, a) (v ∷ drop_product k (values s.recency), a))
      (sym (move_to_front-fronted k v s e h found))
      (fronted-Linked k v s e h key found, ap (◌∷◌ v) (values-without_product k s.recency), refl)

get_element-Agrees :
    (k now : ℕ) (s : L1Store) (x : Option Element)
    → Linked s
    → first (has k) s.recency ≡ x
    → Agrees (get_element now s x) (lru_get_value k now (values s.recency) (value_of x))
unfolding get_element lru_get_value
get_element-Agrees k now s none h found = (h, refl, refl)
get_element-Agrees k now s (some e) h found = elim (Bool-cases (is_expired now e.value)) [
  | inl old ↦ rw old (dropped-Agrees k s e none h found)
  | inr live ↦ rw live (
      fronted-Agrees k (touched now e.value) s e (some e.value.product) h
        (ground (arith, first-true (has k) s.recency e found)) found)
]

pub get-Agrees :
    (k now : ℕ) (s : L1Store) → Linked s → Agrees (get k now s) (lru_get k now (values s.recency))
unfolding get lru_get
get-Agrees k now s h =
    subst
      (λ x.
        Agrees (get_element now s x)
          (lru_get_value k now (values s.recency) (first (of_product k) (values s.recency))))
      (sym (element_of-first k s h))
      (subst
        (λ y.
          Agrees (get_element now s (first (has k) s.recency))
            (lru_get_value k now (values s.recency) y))
        (sym (first-values k s.recency))
        (get_element-Agrees k now s (first (has k) s.recency) h refl))

evict-Agrees : (s : L1Store) → Linked s → Agrees (evict s) (lru_trim s.maximum (values s.recency))
unfolding evict lru_trim
evict-Agrees s h = elim (Bool-cases (leb (length s.entries) s.maximum)) [
  | inl fits ↦
      let same : leb (length (values s.recency)) s.maximum ≡ true =
        ground (arith, h.sized, length-values s.recency) in
      rw (fits, same) (h, refl, refl)
  | inr over ↦
      let same : leb (length (values s.recency)) s.maximum ≡ false =
        ground (arith, h.sized, length-values s.recency) in
      rw (over, same, back-values s.recency)
        (elim (Option-cases (back s.recency)) [
          | inl missing ↦ rw missing (h, refl, refl)
          | inr (e, last) ↦ rw last (
              dropped-Agrees (id_of e) s e (some e.value.product) h
                (back-first s.recency e h.apart last))
        ])
]

put_element-Agrees :
    (p : Product) (now : ℕ) (s : L1Store) (x : Option Element)
    → Linked s
    → first (has p.id) s.recency ≡ x
    → Agrees (put_element p now s x) (
        lru_put_value
          (record { product = p; expires_at = now + s.ttl; last_accessed_at = now })
          s.maximum
          (values s.recency)
          (value_of x))
unfolding put_element lru_put_value
put_element-Agrees p now s none h missing =
    let v : Value = record { product = p; expires_at = now + s.ttl; last_accessed_at = now } in
    unfold push_front in evict-Agrees (push_front p v s) (pushed-Linked p v s h refl missing)
put_element-Agrees p now s (some e) h found =
    fronted-Agrees p.id (record { product = p; expires_at = now + s.ttl; last_accessed_at = now }) s
      e none h refl found

put_product-Agrees :
    (p : Product) (now : ℕ) (s : L1Store)
    → Linked s
    → Agrees (put_product p now s) (
        lru_keep
          (record { product = p; expires_at = now + s.ttl; last_accessed_at = now })
          s.maximum
          (values s.recency))
unfolding put lru_keep
put_product-Agrees p now s h =
    let v : Value = record { product = p; expires_at = now + s.ttl; last_accessed_at = now } in
    subst
      (λ x.
        Agrees (put_element p now s x) (
          lru_put_value v s.maximum (values s.recency)
            (first (of_product p.id) (values s.recency))))
      (sym (element_of-first p.id s h))
      (subst
        (λ y.
          Agrees (put_element p now s (first (has p.id) s.recency))
            (lru_put_value v s.maximum (values s.recency) y))
        (sym (first-values p.id s.recency))
        (put_element-Agrees p now s (first (has p.id) s.recency) h refl))

pub put-Agrees :
    (p : Product) (now : ℕ) (s : L1Store)
    → Linked s
    → Agrees (put p now s) (
        lru_put
          (record { product = p; expires_at = now + s.ttl; last_accessed_at = now })
          s.maximum
          (values s.recency))
unfolding put lru_put
put-Agrees p now s h =
    let (linked, same, answer) = put_product-Agrees p now s h in
    (linked, same, ap (λ a. (now + s.ttl, a)) answer)

drop_missing :
    (k : ℕ) (vs : List Value)
    → first (of_product k) vs ≡ none
    → (drop_product k vs ≡ vs) × (exists (of_product k) vs ≡ false)
unfolding first drop_product select exists
drop_missing k [] h = (refl, refl)
drop_missing k (v ∷ vs) h = ground (arith, drop_missing k vs)

exists_found :
    (k : ℕ) (vs : List Value) (v : Value)
    → first (of_product k) vs ≡ some v
    → exists (of_product k) vs ≡ true
unfolding first exists
exists_found k [] v h = absurd (ground arith)
exists_found k (w ∷ vs) v h = ground (arith, exists_found k vs v)

delete_element-Agrees :
    (k : ℕ) (s : L1Store) (x : Option Element)
    → Linked s
    → first (has k) s.recency ≡ x
    → Agrees (delete_element s x) (lru_delete k (values s.recency))
unfolding delete_element lru_delete
delete_element-Agrees k s none h missing =
    let gone = drop_missing k (values s.recency) (first-values k s.recency ∙ ap value_of missing) in
    (h, sym gone.0, sym gone.1)
delete_element-Agrees k s (some e) h found =
    let here =
      exists_found k (values s.recency) e.value (first-values k s.recency ∙ ap value_of found) in
    rw here (dropped-Agrees k s e true h found)

pub delete-Agrees :
    (k : ℕ) (s : L1Store) → Linked s → Agrees (delete k s) (lru_delete k (values s.recency))
unfolding delete
delete-Agrees k s h =
    subst (λ x. Agrees (delete_element s x) (lru_delete k (values s.recency)))
      (sym (element_of-first k s h)) (delete_element-Agrees k s (first (has k) s.recency) h refl)

clear-Agrees : (s : L1Store) → Agrees (clear s) ([], map (λ v. v.product) (values s.recency))
unfolding clear
clear-Agrees s = (
  record {
    points = λ k. unfold lookup first in refl;
    apart = tt;
    below = tt;
    single = tt;
    sized = refl;
  },
  refl,
  products s.recency,
)
  where
    products :
        (es : List Element) → map (λ e. e.value.product) es ≡ map (λ v. v.product) (values es)
    products [] = refl
    products (e ∷ es) = ap (◌∷◌ e.value.product) (products es)

-- From a store whose map and list belong together, `Get`, `Put`, `Delete` and `Clear` leave such a
-- store, whose values from front to back are those of the least recently used cache after the same
-- operation, and give its answer.
pub l1_is_lru :
    (s : L1Store)
    → Linked s
    → ((k now : ℕ) → Agrees (get k now s) (lru_get k now (values s.recency)))
      × ((p : Product) (now : ℕ)
          → Agrees (put p now s) (
              lru_put
                (record { product = p; expires_at = now + s.ttl; last_accessed_at = now })
                s.maximum
                (values s.recency)))
      × ((k : ℕ) → Agrees (delete k s) (lru_delete k (values s.recency)))
      × Agrees (clear s) ([], map (λ v. v.product) (values s.recency))
l1_is_lru s h = (
  (λ k now. get-Agrees k now s h),
  (λ p now. put-Agrees p now s h),
  (λ k. delete-Agrees k s h),
  clear-Agrees s,
)

-- A new store is one whose map and list belong together.
pub new_l1_store-Linked : (maximum ttl : ℕ) → Linked (new_l1_store maximum ttl)
unfolding new_l1_store lookup first
new_l1_store-Linked maximum ttl = record {
  points = λ k. refl;
  apart = tt;
  below = tt;
  single = tt;
  sized = refl;
}
