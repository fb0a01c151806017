-- ===== src/Scoring/Aggregate.antt =====
-- src/huntloop/scoring/aggregate.py: the overall score of a listing from its dimension scores, without
-- a model call. A weight is a number of units of a decimal place that all weights are multiples of,
-- which the quotient does not depend on; the overall score is in hundredths.
pub mod Laws
use huntloop.Base.{
  ℕ, String, Bool, Option, none, some, List, [], ◌∷◌, if◌then◌else◌, ◌+◌, ◌*◌, ◌/◌, ◌==◌, str_eq,
  select, true, false, any, sum_of, map, not, is_some,
}
use huntloop.Scoring.{Weight}

-- An item of `dimension_scores`.
pub record DimensionScore : Type 0 where
  pub name : String
  pub score : Option ℕ

pub data ScoreError : Type 0 where
  key_error : List String → ScoreError
  unscoreable_error : ScoreError

pub data Overall : Type 0 where
  overall : ℕ → Overall
  fails : ScoreError → Overall

-- `d in weights`
unfoldable pub has_weight : List Weight → String → Bool
has_weight weights d = any (λ w. str_eq w.dimension d) weights

-- `weights[d]` of a name that is there
unfoldable pub weight_of : List Weight → String → ℕ
weight_of [] d = 0
weight_of (w ∷ rest) d =
    let later = weight_of rest d in if str_eq w.dimension d then w.weight else later

unfoldable pub missing : List DimensionScore → List Weight → List String
missing scores weights = map (λ s. s.name) (select (λ s. not (has_weight weights s.name)) scores)

unfoldable pub assessed : List DimensionScore → List DimensionScore
assessed scores = select (λ s. is_some s.score) scores

abbrev pub score_or_zero : DimensionScore → ℕ
score_or_zero s = elim s.score [ none ↦ 0 | some n ↦ n ]

unfoldable pub total_weight : List Weight → List DimensionScore → ℕ
total_weight weights scores = sum_of (λ s. weight_of weights s.name) scores

unfoldable pub weighted : List Weight → List DimensionScore → ℕ
weighted weights scores = sum_of (λ s. weight_of weights s.name * score_or_zero s) scores

-- `quantize(0.01, ROUND_HALF_UP)` of a quotient.
unfoldable pub half_up : ℕ → ℕ → ℕ
half_up n d = (200 * n + d) / (2 * d)

abbrev pub is_empty_list : List String → Bool
is_empty_list [] = true
is_empty_list (x ∷ xs) = false

abbrev aggregate : List Weight → List DimensionScore → Overall
aggregate weights scores =
    if total_weight weights scores == 0
    then fails unscoreable_error
    else overall (half_up (weighted weights scores) (total_weight weights scores))

unfoldable pub compute_overall_score : List DimensionScore → List Weight → Overall
unfolding missing assessed total_weight weighted half_up
compute_overall_score scores weights =
    if is_empty_list (missing scores weights)
    then aggregate weights (assessed scores)
    else fails (key_error (missing scores weights))
