-- ===== src/Cache/L1/Refinement.antt =====
-- services/lab-app/internal/cache/l1.go: the calls keep the map and the list together, and do to the values what
-- the reference cache does.
use website_go_based.Cache.L1.Reference.{last_value}
use website_go_based.Base.{
  ℕ, ◌<◌, ◌≡◌, sym, ap, subst, ◌∙◌, inl, inr, not, Option, none, some, List, arith, ◌==◌,
  Bool-cases, Option-cases, first, suc, refl, ◌≢◌, true, false, [], ◌∷◌, All, All-map_pred, select,
}
use website_go_based.Cache.L1.{
  Element, L1Store, lookup, delete_key, at_address, unlink, remove, element_of, Product, Value,
  back, move_to_front, push_front,
}
use website_go_based.Cache.L1.Links.{
  id_of, has, without_product, Apart, address_of, Linked, first-true, select_All, Apart-select,
  at_address-first, unlink-product, length-without_product, first_other, first_gone, lookup_other,
  lookup_gone, Keys-delete_key, length-delete_key, Differ, first_All, values, value_of,
}

element_by_address :
    (x : Option ℕ) (es : List Element) (k : ℕ)
    → Apart es
    → x ≡ address_of (first (has k) es)
    → (elim x [ none ↦ none | some a ↦ first (at_address a) es ]) ≡ first (has k) es
element_by_address x es k h points = elim (Option-cases (first (has k) es)) [
  | inl missing ↦
      let none_yet : x ≡ none = ground arith in
      subst (λ y. (elim y [ none ↦ none | some a ↦ first (at_address a) es ]) ≡ first (has k) es)
        (sym none_yet) (sym missing)
  | inr (e, found) ↦
      let there : x ≡ some e.address = ground arith in
      subst (λ y. (elim y [ none ↦ none | some a ↦ first (at_address a) es ]) ≡ first (has k) es)
        (sym there) (at_address-first k es e h found ∙ sym found)
]

pub element_of-first : (k : ℕ) (s : L1Store) → Linked s → element_of k s ≡ first (has k) s.recency
unfolding element_of
element_of-first k s h = element_by_address (lookup k s.entries) s.recency k h.apart (h.points k)

remove-points :
    (k j : ℕ) (s : L1Store) (e : Element)
    → Linked s
    → first (has k) s.recency ≡ some e
    → lookup j (delete_key k s.entries) ≡ address_of (first (has j) (without_product k s.recency))
remove-points k j s e h found = elim (Bool-cases (j == k)) [
  | inl here ↦
      let same : k ≡ j = ground arith in
      subst
        (λ i.
          lookup i (delete_key k s.entries)
          ≡ address_of (first (has i) (without_product k s.recency)))
        same (lookup_gone k s.entries ∙ ap address_of (sym (first_gone k s.recency)))
  | inr there ↦
      let other : j ≡ k → ⊥ = λ p. absurd (ground arith) in
      lookup_other j k s.entries other
      ∙ h.points j
      ∙ ap address_of (sym (first_other j k s.recency other))
]

-- The store without a product that it has.
abbrev pub dropped : ℕ → L1Store → L1Store
dropped k s = record s { entries = delete_key k s.entries; recency = without_product k s.recency }

pub dropped-Linked :
    (k : ℕ) (s : L1Store) (e : Element)
    → Linked s
    → first (has k) s.recency ≡ some e
    → Linked (dropped k s)
dropped-Linked k s e h found = record {
  points = λ j. remove-points k j s e h found;
  apart = unfold without_product in Apart-select (λ x. not (has k x)) s.recency h.apart;
  below =
      unfold without_product in
      select_All (λ x. x.address < s.next_address) (λ x. not (has k x)) s.recency h.below;
  single = Keys-delete_key k s.entries h.single;
  sized = omega (
    arith,
    h.sized,
    length-without_product k s.recency e h.apart found,
    length-delete_key k e.address s.entries h.single (h.points k ∙ ap address_of found),
  );
}

pub remove-dropped :
    (k : ℕ) (s : L1Store) (e : Element)
    → Linked s
    → first (has k) s.recency ≡ some e
    → remove e s ≡ dropped k s
unfolding remove
remove-dropped k s e h found =
    let same : id_of e ≡ k = ground (arith, first-true (has k) s.recency e found) in
    ap (λ i. record s { entries = delete_key i s.entries; recency = unlink e.address s.recency })
      same
    ∙ ap (λ es. record s { entries = delete_key k s.entries; recency = es })
        (unlink-product k s.recency e h.apart found)

others_differ :
    (k : ℕ) (es : List Element) (e : Element)
    → Apart es
    → first (has k) es ≡ some e
    → All (λ x. (x.address ≢ e.address) × (id_of x ≢ k)) (without_product k es)
unfolding first without_product select
others_differ k [] e h found = absurd (ground arith)
others_differ k (x ∷ es) e h found = elim (Bool-cases (has k x)) [
  | inl here ↦
      let same : x ≡ e = ground arith in
      let key : id_of x ≡ k = ground arith in
      let all = select_All (Differ x) (λ y. not (has k y)) es h.0 in
      rw here (
        subst (λ z. All (λ y. (y.address ≢ z.address) × (id_of y ≢ k)) (without_product k es)) same
          (subst (λ i. All (λ y. (y.address ≢ x.address) × (id_of y ≢ i)) (without_product k es))
            key all))
  | inr there ↦
      let later : first (has k) es ≡ some e = ground arith in
      let other = first_All (Differ x) (has k) es e h.0 later in
      rw there
        (((λ p. other.0 (sym p)), λ p. absurd (ground arith)), others_differ k es e h.1 later)
]

-- The store with a new value of a product in front.
abbrev pub fronted : ℕ → ℕ → Value → L1Store → L1Store
fronted k a v s = record s {
  recency = record { address = a; value = v } ∷ without_product k s.recency;
}

fronted-points :
    (k j a : ℕ) (v : Value) (s : L1Store)
    → Linked s
    → v.product.id ≡ k
    → lookup k s.entries ≡ some a
    → lookup j s.entries ≡ address_of (first (has j) (fronted k a v s).recency)
unfolding first
fronted-points k j a v s h key here = elim (Bool-cases (v.product.id == j)) [
  | inl same ↦
      let to : k ≡ j = ground arith in rw same (subst (λ i. lookup i s.entries ≡ some a) to here)
  | inr differs ↦
      let other : j ≡ k → ⊥ = λ p. absurd (ground arith) in
      rw differs (h.points j ∙ ap address_of (sym (first_other j k s.recency other)))
]

pub fronted-Linked :
    (k : ℕ) (v : Value) (s : L1Store) (e : Element)
    → Linked s
    → v.product.id ≡ k
    → first (has k) s.recency ≡ some e
    → Linked (fronted k e.address v s)
fronted-Linked k v s e h key found = record {
  points = λ j. fronted-points k j e.address v s h key (h.points k ∙ ap address_of found);
  apart = (
    subst (λ i. All (λ x. (x.address ≢ e.address) × (id_of x ≢ i)) (without_product k s.recency))
        (sym key) (others_differ k s.recency e h.apart found),
    unfold without_product in Apart-select (λ x. not (has k x)) s.recency h.apart,
  );
  below = (
    first_All (λ x. x.address < s.next_address) (has k) s.recency e h.below found,
    unfold without_product in
        select_All (λ x. x.address < s.next_address) (λ x. not (has k x)) s.recency h.below,
  );
  single = h.single;
  sized = h.sized ∙ sym (length-without_product k s.recency e h.apart found);
}

pub move_to_front-fronted :
    (k : ℕ) (v : Value) (s : L1Store) (e : Element)
    → Linked s
    → first (has k) s.recency ≡ some e
    → move_to_front e v s ≡ fronted k e.address v s
unfolding move_to_front
move_to_front-fronted k v s e h found =
    ap (λ es. record s { recency = record { address = e.address; value = v } ∷ es })
      (unlink-product k s.recency e h.apart found)

fresh_key : (k : ℕ) (es : List (ℕ × ℕ)) → lookup k es ≡ none → All (λ p. p.0 ≢ k) es
unfolding lookup
fresh_key k [] h = tt
fresh_key k ((i, a) ∷ es) h = (λ p. absurd (ground arith), fresh_key k es (ground arith))

fresh_element :
    (k a : ℕ) (es : List Element)
    → first (has k) es ≡ none
    → All (λ e. e.address < a) es
    → All (λ x. (x.address ≢ a) × (id_of x ≢ k)) es
unfolding first
fresh_element k a [] h below = tt
fresh_element k a (x ∷ es) h below = (
  (λ p. absurd (omega (arith, below.0, p)), λ p. absurd (ground arith)),
  fresh_element k a es (ground arith) below.1,
)

pushed-points :
    (p : Product) (v : Value) (s : L1Store) (j : ℕ)
    → Linked s
    → v.product.id ≡ p.id
    → lookup j (push_front p v s).entries ≡ address_of (first (has j) (push_front p v s).recency)
unfolding push_front lookup first
pushed-points p v s j h key = elim (Bool-cases (p.id == j)) [
  | inl same ↦ let both : (v.product.id == j) ≡ true = ground arith in rw (same, both) refl
  | inr differs ↦
      let both : (v.product.id == j) ≡ false = ground arith in rw (differs, both) (h.points j)
]

pub pushed-Linked :
    (p : Product) (v : Value) (s : L1Store)
    → Linked s
    → v.product.id ≡ p.id
    → first (has p.id) s.recency ≡ none
    → Linked (push_front p v s)
pushed-Linked p v s h key missing =
    unfold push_front in
    record {
      points = λ j. pushed-points p v s j h key;
      apart = (
        subst (λ i. All (λ x. (x.address ≢ s.next_address) × (id_of x ≢ i)) s.recency) (sym key)
            (fresh_element p.id s.next_address s.recency missing h.below),
        h.apart,
      );
      below = (
        omega arith,
        All-map_pred {P = λ e. e.address < s.next_address} s.recency (λ e low. omega (arith, low))
            h.below,
      );
      single = (fresh_key p.id s.entries (h.points p.id ∙ ap address_of missing), h.single);
      sized = ap suc h.sized;
    }

pub back-first :
    (es : List Element) (e : Element)
    → Apart es
    → back es ≡ some e
    → first (has (id_of e)) es ≡ some e
unfolding back first
back-first [] e h last = absurd (ground arith)
back-first (x ∷ []) e h last = ground arith
back-first (x ∷ y ∷ rest) e h last =
    let later = back-first (y ∷ rest) e h.1 last in
    let other = first_All (Differ x) (has (id_of e)) (y ∷ rest) e h.0 later in
    ground (arith, later, other)

pub back-values : (es : List Element) → last_value (values es) ≡ value_of (back es)
unfolding back last_value
back-values [] = refl
back-values (x ∷ []) = refl
back-values (x ∷ y ∷ rest) = back-values (y ∷ rest)
