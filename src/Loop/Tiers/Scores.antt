-- ===== src/Loop/Tiers/Scores.antt =====
-- Tier D: the overall scores, with both weights.
use huntloop.Loop.Tiers.{load_live_backlog}
use huntloop.Base.{
  ℕ, zero, suc, ◌+◌, ◌-◌, ◌*◌, ◌/◌, String, not, Option, none, some, List, [], ◌∷◌, if◌then◌else◌,
  ltb, leb, ◌==◌, select, length, sum_of, is_some,
}
use huntloop.Base.Clock.{ℤ, pos, negsuc}
use huntloop.Scoring.{Weight}
use huntloop.Scoring.Aggregate.{DimensionScore, Overall, overall, compute_overall_score}
use huntloop.Loop.Detect.{BacklogJob, StoredScore, number, object, other_score}

-- `_stored_dimension_scores`: an object's score, or the flat value. A value that is neither has no number
-- here, where the source's arithmetic raises on it and the listing is skipped too.
unfoldable pub stored_dimension_scores : List (String × StoredScore) → List DimensionScore
stored_dimension_scores [] = []
stored_dimension_scores ((name, number n) ∷ rest) =
    record { name = name; score = some n } ∷ stored_dimension_scores rest
stored_dimension_scores ((name, object n why) ∷ rest) =
    record { name = name; score = n } ∷ stored_dimension_scores rest
stored_dimension_scores ((name, other_score) ∷ rest) = stored_dimension_scores rest

abbrev pub both_scores : Overall → Overall → Option (ℕ × ℕ)
both_scores (overall a) (overall b) = some (a, b)
both_scores _ _ = none

-- The scores of a listing before and after, in hundredths, or `none` where one of them raises.
unfoldable pub rescored : List Weight → List Weight → BacklogJob → Option (ℕ × ℕ)
unfolding stored_dimension_scores
rescored before after j =
    let scores = stored_dimension_scores j.score_dimensions in
    both_scores (compute_overall_score scores before) (compute_overall_score scores after)

-- The deltas that are not less than a hundredth, by the two scores; and the listings without.
abbrev pub with_delta : Option (ℕ × ℕ) → List (ℕ × ℕ) → List (ℕ × ℕ)
with_delta none rest = rest
with_delta (some (a, b)) rest = if a == b then rest else (a, b) ∷ rest

unfoldable pub deltas : List Weight → List Weight → List BacklogJob → List (ℕ × ℕ)
unfolding rescored
deltas before after [] = []
deltas before after (j ∷ rest) = with_delta (rescored before after j) (deltas before after rest)

abbrev pub signed : ℕ → ℕ → ℤ
signed zero n = pos n
signed (suc m) zero = negsuc m
signed (suc m) (suc n) = signed m n

abbrev pub size : ℕ × ℕ → ℕ
size d = (d.1 - d.0) + (d.0 - d.1)

-- The first of the greatest.
abbrev pub greatest : ℕ × ℕ → List (ℕ × ℕ) → ℕ × ℕ
greatest best [] = best
greatest best (d ∷ rest) =
    let kept = greatest best rest in
    let taken = greatest d rest in if ltb (size best) (size d) then taken else kept

abbrev pub largest : List (ℕ × ℕ) → ℤ
largest [] = pos 0
largest (d ∷ rest) = let best = greatest d rest in signed best.0 best.1

-- `quantize(0.01, ROUND_HALF_UP)` of a mean, away from zero.
abbrev pub half_away : ℕ → ℕ → ℕ → ℤ
half_away down up n =
    if leb down up
    then pos ((2 * (up - down) + n) / (2 * n))
    else signed ((2 * (down - up) + n) / (2 * n)) 0

abbrev pub mean_of : List (ℕ × ℕ) → ℤ
mean_of [] = pos 0
mean_of (d ∷ rest) =
    half_away (sum_of (λ x. x.0) (d ∷ rest)) (sum_of (λ x. x.1) (d ∷ rest)) (length (d ∷ rest))

pub record ScoreEffect : Type 0 where
  pub affected : ℕ
  pub mean_delta : ℤ
  pub max_delta : ℤ
  pub backlog_size : ℕ
  pub skipped : ℕ

unfoldable pub predict_score_change : List Weight → List Weight → List BacklogJob → ScoreEffect
unfolding load_live_backlog deltas
predict_score_change before after jobs =
    let live = load_live_backlog jobs in
    let found = deltas before after live in
    record {
      affected = length found;
      mean_delta = mean_of found;
      max_delta = largest found;
      backlog_size = length live;
      skipped = length (select (λ j. not (is_some (rescored before after j))) live);
    }
