-- ===== src/Balancer/Bounds.antt =====
-- services/platform-api/internal/balancer/algorithm.go: what `TargetWeights` answers, whatever the
-- floating-point numbers are.
use Prim.Native.Nat.{◌∣◌}
use native.Mathlib.Nat.{
  dvd_refl, dvd-zero, dvd_trans, pos_of_dvd_of_pos, mul-div_cancel', dvd_of_mul-dvd-mul_left,
  mul-dvd-mul_left, eq-one_of_dvd-one, mul-one, mul-zero, div-le_self,
}
use website_go_based.Base.{
  ℕ, zero, suc, ◌*◌, ◌/◌, ◌≤◌, ◌≡◌, refl, sym, ap, subst, ◌∙◌, inl, inr, Option, none, some, List,
  [], ◌∷◌, String, arith, ◌==◌, Bool-cases, length, map, All, All-map_pred,
}
use website_go_based.Base.Int.{ℤ, pos, pos_part}
use website_go_based.Base.Sorting.{sort_by, insert_by, sort_by-perm}
use mathlib.Core.List.{Perm}
use mathlib.Core.List.Perm
use website_go_based.Balancer.{Instance}
use website_go_based.Balancer.Adjustments.{InRange}
use website_go_based.Balancer.Gcd.{greatest_common_divisor, gcd_is_greatest}
use website_go_based.Balancer.Weights.{
  first_survey, score, largest, Floats, survey, clamp, raw_weight, divisor_of, reduced, weights_of,
  target_weights, Survey,
}
use website_go_based.Lab.Action.{InstanceWeight}

-- A weight before the division.
abbrev Raw : ℕ → Type 0
Raw n = (1 ≤ n) × (n ≤ 100)

module _ (F : Floats) where
  clamp-Raw : (z : ℤ) → Raw (clamp F z)
  unfolding clamp
  clamp-Raw z = ground arith

  divisor_of-dvd :
      (raw : Instance → ℕ) (d : ℕ) (is : List Instance)
      → (divisor_of F raw d is ∣ d) × All (λ i. divisor_of F raw d is ∣ raw i) is
  unfolding divisor_of
  divisor_of-dvd raw d [] = (dvd_refl d, tt)
  divisor_of-dvd raw d (i ∷ is) =
      let (left, right, most) = gcd_is_greatest (pos d) (pos (raw i)) in
      let rest = divisor_of-dvd raw (greatest_common_divisor (pos d) (pos (raw i))) is in
      (dvd_trans _ rest.0 left, (dvd_trans _ rest.0 right, rest.1))

  dvd-divisor_of :
      (raw : Instance → ℕ) (is : List Instance) (d k : ℕ)
      → k ∣ d
      → All (λ i. k ∣ raw i) is
      → k ∣ divisor_of F raw d is
  unfolding divisor_of
  dvd-divisor_of raw [] d k h all = h
  dvd-divisor_of raw (i ∷ is) d k h all =
      let (left, right, most) = gcd_is_greatest (pos d) (pos (raw i)) in
      dvd-divisor_of raw is (greatest_common_divisor (pos d) (pos (raw i))) k (most k h all.0) all.1

  pos_of_quotient : (w d : ℕ) → 1 ≤ w → d ∣ w → 1 ≤ w / d
  pos_of_quotient w d h dvd =
      elim (w / d) as (λ q. d * q ≡ w → 1 ≤ q) [
        | zero ↦ λ e. absurd (omega (arith, h, e, mul-zero d))
        | suc q ↦ λ e. omega arith
      ]
        (mul-div_cancel' d dvd)

  quotient-Raw : (w d : ℕ) → Raw w → d ∣ w → Raw (w / d)
  quotient-Raw w d h dvd =
      let positive : 1 ≤ w / d = pos_of_quotient w d h.0 dvd in
      (positive, omega (arith, h, div-le_self w d))

  -- A weight of the answer.
  abbrev InWeights : InstanceWeight → Type 0
  InWeights w = Raw (pos_part w.weight) × (w.weight ≡ pos (pos_part w.weight))

  reduced-InWeights :
      (raw : Instance → ℕ) (d : ℕ) (is : List Instance)
      → ((i : Instance) → Raw (raw i))
      → All (λ i. d ∣ raw i) is
      → All InWeights (reduced F raw d is)
  unfolding reduced
  reduced-InWeights raw d [] range dvd = tt
  reduced-InWeights raw d (i ∷ is) range dvd =
      ((quotient-Raw (raw i) d (range i) dvd.0, refl), reduced-InWeights raw d is range dvd.1)

  reduced-common :
      (raw : Instance → ℕ) (d k : ℕ) (is : List Instance)
      → All (λ i. d ∣ raw i) is
      → All (λ w. k ∣ pos_part w.weight) (reduced F raw d is)
      → All (λ i. d * k ∣ raw i) is
  unfolding reduced
  reduced-common raw d k [] dvd common = tt
  reduced-common raw d k (i ∷ is) dvd common = (
    subst (λ n. d * k ∣ n) (mul-div_cancel' d dvd.0) (mul-dvd-mul_left k d common.0),
    reduced-common raw d k is dvd.1 common.1,
  )

  divisor_of-pos :
      (raw : Instance → ℕ) (i : Instance) (is : List Instance)
      → ((i : Instance) → Raw (raw i))
      → 1 ≤ divisor_of F raw 0 (i ∷ is)
  divisor_of-pos raw i is range = pos_of_dvd_of_pos (divisor_of-dvd raw 0 (i ∷ is)).1.0 (range i).0

  reduced-coprime :
      (raw : Instance → ℕ) (i : Instance) (is : List Instance) (k : ℕ)
      → ((i : Instance) → Raw (raw i))
      → All (λ w. k ∣ pos_part w.weight) (reduced F raw (divisor_of F raw 0 (i ∷ is)) (i ∷ is))
      → k ≡ 1
  reduced-coprime raw i is k range common =
      let d = divisor_of F raw 0 (i ∷ is) in
      let each = reduced-common raw d k (i ∷ is) (divisor_of-dvd raw 0 (i ∷ is)).1 common in
      let all : d * k ∣ d = dvd-divisor_of raw (i ∷ is) 0 (d * k) (dvd-zero (d * k)) each in
      eq-one_of_dvd-one (
        dvd_of_mul-dvd-mul_left k (divisor_of-pos raw i is range)
          (subst (λ n. d * k ∣ n) (sym (mul-one d)) all))

  reduced_ids :
      (raw : Instance → ℕ) (d : ℕ) (is : List Instance)
      → map (λ w. w.instance_id) (reduced F raw d is) ≡ map (λ i. i.id) is
  unfolding reduced
  reduced_ids raw d [] = refl
  reduced_ids raw d (i ∷ is) = ap (◌∷◌ i.id) (reduced_ids raw d is)

  length-insert_by :
      (i : Instance) (is : List Instance) → length (insert_by (λ i. i.id) i is) ≡ suc (length is)
  unfolding insert_by
  length-insert_by i [] = refl
  length-insert_by i (x ∷ xs) = ground (arith, length-insert_by i xs)

  length-sort_by : (is : List Instance) → length (sort_by (λ i. i.id) is) ≡ length is
  unfolding sort_by
  length-sort_by [] = refl
  length-sort_by (i ∷ is) = length-insert_by i (sort_by (λ i. i.id) is) ∙ ap suc (length-sort_by is)

  -- A set of weights that the balancer may ask for these instances.
  pub record Good (is : List Instance) (ws : List InstanceWeight) : Type 0 where
    pub in_range : All (λ w. InRange w.weight) ws
    pub one_each : Perm (map (λ w. w.instance_id) ws) (map (λ i. i.id) is)
    pub coprime : (k : ℕ) → All (λ w. k ∣ pos_part w.weight) ws → k ≡ 1

  InWeights-InRange : (w : InstanceWeight) → InWeights w → InRange w.weight
  InWeights-InRange w ((low, high), same) = rw same (omega (arith, low), omega (arith, high))

  reduced-Good :
      (raw : Instance → ℕ) (values : List Instance)
      → ((i : Instance) → Raw (raw i))
      → 1 ≤ length values
      → Good values (reduced F raw (divisor_of F raw 0 values) values)
  reduced-Good raw [] range h = absurd (omega arith)
  reduced-Good raw (i ∷ is) range h = record {
    in_range =
        All-map_pred {P = InWeights} {Q = λ w. InRange w.weight}
          (reduced F raw (divisor_of F raw 0 (i ∷ is)) (i ∷ is)) InWeights-InRange
          (reduced-InWeights raw (divisor_of F raw 0 (i ∷ is)) (i ∷ is) range
            (divisor_of-dvd raw 0 (i ∷ is)).1);
    one_each =
        subst (λ l. Perm l (map (λ i. i.id) (i ∷ is)))
          (sym (reduced_ids raw (divisor_of F raw 0 (i ∷ is)) (i ∷ is)))
          (Perm.refl (map (λ i. i.id) (i ∷ is)));
    coprime = λ k common. reduced-coprime raw i is k range common;
  }

  raw_weight-Raw :
      (points : Instance → F.Float) (best : F.Float) (i : Instance)
      → Raw (raw_weight F points best i)
  unfolding raw_weight
  raw_weight-Raw points best i =
      clamp-Raw (F.round (F.times (F.over (points i) best) (F.of_int (pos 100))))

  weights_of-Good :
      (ratios : String → F.Float) (values : List Instance) (s : Survey F)
      → 1 ≤ length values
      → Good values (weights_of F ratios values s)
  unfolding weights_of
  weights_of-Good ratios values s h =
      let points = score F ratios s (length values) in
      let best = largest F points (F.of_int (pos 0)) values in
      reduced-Good (raw_weight F points best) values (raw_weight-Raw points best) h

  survey_result :
      (ratios : String → F.Float) (values : List Instance) (x : Option (Survey F))
      (ws : List InstanceWeight)
      → 1 ≤ length values
      → (elim x [ none ↦ none | some s ↦ some (weights_of F ratios values s) ]) ≡ some ws
      → Good values ws
  survey_result ratios values none ws h e = absurd (ground arith)
  survey_result ratios values (some s) ws h e =
      let same : weights_of F ratios values s ≡ ws = ground arith in
      subst (λ z. Good values z) same (weights_of-Good ratios values s h)

  sorted-Good :
      (is : List Instance) (ws : List InstanceWeight)
      → Good (sort_by (λ i. i.id) is) ws
      → Good is ws
  sorted-Good is ws g = record {
    in_range = g.in_range;
    one_each =
        Perm.trans g.one_each
          (Perm.map (λ (i : Instance). i.id) (sort_by-perm (λ (i : Instance). i.id) is));
    coprime = g.coprime;
  }

  -- Whatever the load ratios and the floating-point arithmetic are, the weights that `TargetWeights`
  -- answers are from 1 to 100, their identifiers are those of the instances, each as often, in some
  -- order, and they have no common divisor but 1.
  pub target_weights-Good :
      (is : List Instance) (ratios : String → F.Float) (ws : List InstanceWeight)
      → target_weights F is ratios ≡ some ws
      → Good is ws
  unfolding target_weights
  target_weights-Good is ratios ws e = elim (Bool-cases (length is == 0)) [
    | inl empty ↦ absurd (ground arith)
    | inr some_left ↦
        let left : 1 ≤ length is = ground arith in
        let sorted : 1 ≤ length (sort_by (λ i. i.id) is) = omega (arith, length-sort_by is, left) in
        sorted-Good is ws (
          survey_result ratios (sort_by (λ i. i.id) is)
            (survey F ratios (first_survey F) (sort_by (λ i. i.id) is)) ws sorted (ground arith))
  ]
