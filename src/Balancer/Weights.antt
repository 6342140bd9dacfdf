-- ===== src/Balancer/Weights.antt =====
-- services/platform-api/internal/balancer/algorithm.go: `TargetWeights`. The numbers of Go's `float64`, their
-- operations and the four constants are a parameter, about which nothing is assumed.
use website_go_based.Base.{
  ℕ, ◌/◌, Bool, not, ◌&&◌, ◌||◌, Option, none, some, List, [], ◌∷◌, String, ◌==◌, if◌then◌else◌,
  length, false, map,
}
use website_go_based.Base.Int.{ℤ, ◌+ℤ◌, pos, pos_part, ltb_ℤ, leb_ℤ}
use website_go_based.Base.Sorting.{sort_by}
use website_go_based.Base.Text.{same_text}
use website_go_based.Balancer.{Instance, every, weight_map, nonzero}
use website_go_based.Lab.Topology.{value_of}
use website_go_based.Balancer.Gcd.{greatest_common_divisor}
use website_go_based.Lab.Action.{InstanceWeight}

pub record Floats : Type 1 where
  pub Float : Type 0
  pub of_int : ℤ → Float
  pub plus : Float → Float → Float
  pub minus : Float → Float → Float
  pub times : Float → Float → Float
  pub over : Float → Float → Float
  pub minimum : Float → Float → Float
  pub maximum : Float → Float → Float
  pub less : Float → Float → Bool
  pub at_most : Float → Float → Bool
  -- `int(math.Round(x))`
  pub round : Float → ℤ
  pub load_balance_threshold : Float
  pub minimum_correction : Float
  pub maximum_correction : Float
  pub share_threshold : Float
  pub absolute : Float → Float

module _ (F : Floats) where
  -- The extremes and the sum of the load ratios.
  pub record Survey : Type 0 where
    pub minimum_ratio : F.Float
    pub maximum_ratio : F.Float
    pub total_ratio : F.Float

  unfoldable pub model_valid : Instance → Bool
  model_valid i =
      not (same_text i.id "") && ltb_ℤ (pos 0) i.processing_speed && ltb_ℤ (pos 0) i.max_load

  -- The first loop.
  unfoldable pub survey : (String → F.Float) → Survey → List Instance → Option Survey
  unfolding model_valid
  survey ratios s [] = some s
  survey ratios s (i ∷ is) =
      let ratio = ratios i.id in
      let rest =
        survey ratios
          (record {
            minimum_ratio = F.minimum s.minimum_ratio ratio;
            maximum_ratio = F.maximum s.maximum_ratio ratio;
            total_ratio = F.plus s.total_ratio ratio;
          })
          is in
      if not (model_valid i) || F.less ratio (F.of_int (pos 0)) || F.less (F.of_int (pos 1)) ratio
      then none
      else rest

  unfoldable pub correction : Survey → ℕ → F.Float → F.Float
  correction s count ratio =
      if F.at_most (F.minus s.maximum_ratio s.minimum_ratio) F.load_balance_threshold
      then F.of_int (pos 1)
      else F.minimum F.maximum_correction (
          F.maximum F.minimum_correction (
            F.minus (F.plus (F.of_int (pos 1)) (F.over s.total_ratio (F.of_int (pos count))))
              ratio))

  unfoldable pub score : (String → F.Float) → Survey → ℕ → Instance → F.Float
  unfolding correction
  score ratios s count i = F.times (F.of_int i.processing_speed) (correction s count (ratios i.id))

  -- The second loop: the largest score.
  unfoldable pub largest : (Instance → F.Float) → F.Float → List Instance → F.Float
  largest points best [] = best
  largest points best (i ∷ is) = largest points (F.maximum best (points i)) is

  -- `min(100, max(1, weight))`
  unfoldable pub clamp : ℤ → ℕ
  clamp z = if leb_ℤ z (pos 1) then 1 else if leb_ℤ (pos 100) z then 100 else pos_part z

  unfoldable pub raw_weight : (Instance → F.Float) → F.Float → Instance → ℕ
  unfolding clamp
  raw_weight points best i = clamp (F.round (F.times (F.over (points i) best) (F.of_int (pos 100))))

  -- The divisor after the third loop.
  unfoldable pub divisor_of : (Instance → ℕ) → ℕ → List Instance → ℕ
  divisor_of raw d [] = d
  divisor_of raw d (i ∷ is) = divisor_of raw (greatest_common_divisor (pos d) (pos (raw i))) is

  unfoldable pub reduced : (Instance → ℕ) → ℕ → List Instance → List InstanceWeight
  reduced raw d [] = []
  reduced raw d (i ∷ is) =
      record { instance_id = i.id; weight = pos (raw i / d) } ∷ reduced raw d is

  -- The weights of the sorted instances, once the load ratios are surveyed.
  unfoldable pub weights_of : (String → F.Float) → List Instance → Survey → List InstanceWeight
  unfolding score largest raw_weight divisor_of reduced
  weights_of ratios values s =
      let points = score ratios s (length values) in
      let raw = raw_weight points (largest points (F.of_int (pos 0)) values) in
      reduced raw (divisor_of raw 0 values) values

  -- The variables before the first loop.
  abbrev pub first_survey : Survey
  first_survey = record {
    minimum_ratio = F.of_int (pos 1);
    maximum_ratio = F.of_int (pos 0);
    total_ratio = F.of_int (pos 0);
  }

  unfoldable pub target_weights : List Instance → (String → F.Float) → Option (List InstanceWeight)
  unfolding survey weights_of
  target_weights is ratios =
      let values = sort_by (λ i. i.id) is in
      if length is == 0 then none else elim (survey ratios first_survey values) [
        | none ↦ none
        | some s ↦ some (weights_of ratios values s)
      ]

  unfoldable pub total : List ℤ → ℤ
  total [] = pos 0
  total (z ∷ zs) = z +ℤ total zs

  abbrev share : ℤ → ℤ → F.Float
  share part whole = F.over (F.of_int part) (F.of_int whole)

  -- The last loop of `WeightsWithinShareThreshold`.
  unfoldable pub shares_close : List (String × ℤ) → ℤ → ℤ → List Instance → Bool
  shares_close m current target is =
      every
        (λ i.
          F.less
            (F.absolute (F.minus (share i.current_weight current) (share (value_of m i.id) target)))
            F.share_threshold)
        is

  unfoldable pub weights_within_share_threshold : List Instance → List InstanceWeight → Bool
  unfolding shares_close total
  weights_within_share_threshold is ws =
      if (length is == 0) || not (length is == length ws)
      then false
      else elim (weight_map (λ w. ltb_ℤ (pos 0) w.weight) [] ws) [
        | none ↦ false
        | some m ↦
            every (λ i. ltb_ℤ (pos 0) i.current_weight && nonzero (value_of m i.id)) is
            && shares_close m (total (map (λ i. i.current_weight) is))
                (total (map (λ w. w.weight) ws)) is
      ]
