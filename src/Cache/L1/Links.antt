-- ===== src/Cache/L1/Links.antt =====
-- services/lab-app/internal/cache/l1.go: the map and the list belong together.
use website_go_based.Cache.L1.Reference.{drop_product, of_product}
use website_go_based.Base.{
  ℕ, ◌<◌, ◌≡◌, refl, sym, ap, subst, ◌≢◌, inl, inr, Bool, true, not, Option, none, some, List, [],
  ◌∷◌, arith, ◌==◌, if◌then◌else◌, Bool-cases, length, All, select, first, suc, map, All-map_pred,
}
use website_go_based.Cache.L1.{Element, L1Store, lookup, at_address, Value, delete_key, unlink}

abbrev pub id_of : Element → ℕ
id_of e = e.value.product.id

abbrev pub has : ℕ → Element → Bool
has k e = id_of e == k

unfoldable pub without_product : ℕ → List Element → List Element
without_product k es = select (λ e. not (has k e)) es

abbrev pub Differ : Element → Element → Type 0
Differ e x = (x.address ≢ e.address) × (id_of x ≢ id_of e)

-- No two elements have the same address or the same product.
abbrev pub Apart : List Element → Type 0
Apart [] = Unit
Apart (e ∷ es) = All (Differ e) es × Apart es

-- No two entries have the same key.
abbrev pub Keys : List (ℕ × ℕ) → Type 0
Keys [] = Unit
Keys ((k, a) ∷ es) = All (λ p. p.0 ≢ k) es × Keys es

abbrev pub address_of : Option Element → Option ℕ
address_of none = none
address_of (some e) = some e.address

-- Each entry leads to the element of its product, and each element has an entry.
pub record Linked (s : L1Store) : Type 0 where
  pub points : (k : ℕ) → lookup k s.entries ≡ address_of (first (has k) s.recency)
  pub apart : Apart s.recency
  pub below : All (λ e. e.address < s.next_address) s.recency
  pub single : Keys s.entries
  pub sized : length s.entries ≡ length s.recency

pub first_All :
    {A : Type 0} (P : A → Type 0) (p : A → Bool) (xs : List A) (x : A)
    → All P xs
    → first p xs ≡ some x
    → P x
unfolding first
first_All P p [] x all e = absurd (ground arith)
first_All P p (y ∷ ys) x all e = elim (Bool-cases (p y)) [
  | inl yes_case ↦ let same : y ≡ x = ground arith in subst P same all.0
  | inr no_case ↦ first_All P p ys x all.1 (ground arith)
]

pub first-true :
    {A : Type 0} (p : A → Bool) (xs : List A) (x : A) → first p xs ≡ some x → p x ≡ true
unfolding first
first-true p [] x e = absurd (ground arith)
first-true p (y ∷ ys) x e = ground (arith, first-true p ys x)

pub select_All :
    {A : Type 0} (P : A → Type 0) (p : A → Bool) (xs : List A) → All P xs → All P (select p xs)
unfolding select
select_All P p [] all = tt
select_All P p (x ∷ xs) all = elim (Bool-cases (p x)) [
  | inl yes_case ↦ rw yes_case (all.0, select_All P p xs all.1)
  | inr no_case ↦ rw no_case (select_All P p xs all.1)
]

-- A test that holds everywhere selects everything.
pub select_all :
    {A : Type 0} (p : A → Bool) (xs : List A) → All (λ x. p x ≡ true) xs → select p xs ≡ xs
unfolding select
select_all p [] all = refl
select_all p (x ∷ xs) all = rw all.0 (ap (◌∷◌ x) (select_all p xs all.1))

pub Apart-select : (p : Element → Bool) (es : List Element) → Apart es → Apart (select p es)
unfolding select
Apart-select p [] h = tt
Apart-select p (e ∷ es) h = elim (Bool-cases (p e)) [
  | inl yes_case ↦ rw yes_case (select_All (Differ e) p es h.0, Apart-select p es h.1)
  | inr no_case ↦ rw no_case (Apart-select p es h.1)
]

pub at_address-first :
    (k : ℕ) (es : List Element) (e : Element)
    → Apart es
    → first (has k) es ≡ some e
    → first (at_address e.address) es ≡ some e
unfolding first
at_address-first k [] e h found = absurd (ground arith)
at_address-first k (x ∷ es) e h found = elim (Bool-cases (has k x)) [
  | inl here ↦
      let same : x ≡ e = ground arith in
      subst
        (λ y. (if y.address == e.address then some x else first (at_address e.address) es) ≡ some e)
        (sym same) (ground arith)
  | inr there ↦
      let later : first (has k) es ≡ some e = ground arith in
      let other = first_All (Differ x) (has k) es e h.0 later in
      ground (arith, other, at_address-first k es e h.1 later)
]

tail_kept :
    (e : Element) (es : List Element) (k : ℕ)
    → All (Differ e) es
    → id_of e ≡ k
    → (unlink e.address es ≡ es) × (without_product k es ≡ es)
unfolding unlink without_product
tail_kept e es k h same = (
  select_all (λ x. not (at_address e.address x)) es
      (All-map_pred {P = Differ e} es (λ x d. ground (arith, d)) h),
  select_all (λ x. not (has k x)) es (All-map_pred {P = Differ e} es (λ x d. ground (arith, d)) h),
)

-- To take an element out by its address is to take its product out.
pub unlink-product :
    (k : ℕ) (es : List Element) (e : Element)
    → Apart es
    → first (has k) es ≡ some e
    → unlink e.address es ≡ without_product k es
unfolding first unlink without_product select
unlink-product k [] e h found = absurd (ground arith)
unlink-product k (x ∷ es) e h found = elim (Bool-cases (has k x)) [
  | inl here ↦
      let same : x ≡ e = ground arith in
      let kept = tail_kept x es k h.0 (ground arith) in
      subst (λ y. unlink y.address (x ∷ es) ≡ without_product k (x ∷ es)) same
        (ground (arith, here, kept))
  | inr there ↦
      let later : first (has k) es ≡ some e = ground arith in
      let other = first_All (Differ x) (has k) es e h.0 later in
      ground (arith, other, unlink-product k es e h.1 later)
]

pub length-without_product :
    (k : ℕ) (es : List Element) (e : Element)
    → Apart es
    → first (has k) es ≡ some e
    → suc (length (without_product k es)) ≡ length es
unfolding first without_product select
length-without_product k [] e h found = absurd (ground arith)
length-without_product k (x ∷ es) e h found = elim (Bool-cases (has k x)) [
  | inl here ↦
      let kept = tail_kept x es k h.0 (ground arith) in rw here (ap (λ l. suc (length l)) kept.1)
  | inr there ↦
      let later : first (has k) es ≡ some e = ground arith in
      rw there (ap suc (length-without_product k es e h.1 later))
]

pub first_other :
    (j k : ℕ) (es : List Element)
    → (j ≡ k → ⊥)
    → first (has j) (without_product k es) ≡ first (has j) es
unfolding first without_product select
first_other j k [] h = refl
first_other j k (x ∷ es) h = ground (arith, h, first_other j k es h)

pub first_gone : (k : ℕ) (es : List Element) → first (has k) (without_product k es) ≡ none
unfolding first without_product select
first_gone k [] = refl
first_gone k (x ∷ es) = ground (arith, first_gone k es)

pub lookup_other :
    (j k : ℕ) (es : List (ℕ × ℕ)) → (j ≡ k → ⊥) → lookup j (delete_key k es) ≡ lookup j es
unfolding lookup delete_key
lookup_other j k [] h = refl
lookup_other j k ((i, a) ∷ es) h = ground (arith, h, lookup_other j k es h)

pub lookup_gone : (k : ℕ) (es : List (ℕ × ℕ)) → lookup k (delete_key k es) ≡ none
unfolding lookup delete_key
lookup_gone k [] = refl
lookup_gone k ((i, a) ∷ es) = ground (arith, lookup_gone k es)

delete_key-All :
    (P : ℕ × ℕ → Type 0) (k : ℕ) (es : List (ℕ × ℕ)) → All P es → All P (delete_key k es)
unfolding delete_key
delete_key-All P k [] all = tt
delete_key-All P k ((i, a) ∷ es) all = elim (Bool-cases (i == k)) [
  | inl here ↦ rw here (delete_key-All P k es all.1)
  | inr there ↦ rw there (all.0, delete_key-All P k es all.1)
]

pub Keys-delete_key : (k : ℕ) (es : List (ℕ × ℕ)) → Keys es → Keys (delete_key k es)
unfolding delete_key
Keys-delete_key k [] h = tt
Keys-delete_key k ((i, a) ∷ es) h = elim (Bool-cases (i == k)) [
  | inl here ↦ rw here (Keys-delete_key k es h.1)
  | inr there ↦ rw there (delete_key-All (λ p. p.0 ≢ i) k es h.0, Keys-delete_key k es h.1)
]

delete_key-kept : (k : ℕ) (es : List (ℕ × ℕ)) → All (λ p. p.0 ≢ k) es → delete_key k es ≡ es
unfolding delete_key
delete_key-kept k [] h = refl
delete_key-kept k ((i, a) ∷ es) h = ground (arith, h.0, delete_key-kept k es h.1)

pub length-delete_key :
    (k a : ℕ) (es : List (ℕ × ℕ))
    → Keys es
    → lookup k es ≡ some a
    → suc (length (delete_key k es)) ≡ length es
unfolding lookup delete_key
length-delete_key k a [] h found = absurd (ground arith)
length-delete_key k a ((i, b) ∷ es) h found = elim (Bool-cases (i == k)) [
  | inl here ↦
      let same : i ≡ k = ground arith in
      rw here (
        ap (λ l. suc (length l))
          (delete_key-kept k es (subst (λ z. All (λ p. p.0 ≢ z) es) same h.0)))
  | inr there ↦ rw there (ap suc (length-delete_key k a es h.1 (ground arith)))
]

-- The values of the list, and what the operations on it do to them.
abbrev pub values : List Element → List Value
values es = map (λ e. e.value) es

pub values-without_product :
    (k : ℕ) (es : List Element) → values (without_product k es) ≡ drop_product k (values es)
unfolding without_product drop_product select
values-without_product k [] = refl
values-without_product k (e ∷ es) = ground (arith, values-without_product k es)

abbrev pub value_of : Option Element → Option Value
value_of none = none
value_of (some e) = some e.value

pub first-values :
    (k : ℕ) (es : List Element) → first (of_product k) (values es) ≡ value_of (first (has k) es)
unfolding first
first-values k [] = refl
first-values k (e ∷ es) = ground (arith, first-values k es)

pub length-values : (es : List Element) → length (values es) ≡ length es
length-values [] = refl
length-values (e ∷ es) = ap suc (length-values es)
