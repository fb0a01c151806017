-- ===== src/Scoring/Aggregate/Laws.antt =====
-- The overall score is a weighted mean of the assessed scores alone, rounded half up.
use native.Mathlib.Nat.{
  le-div_iff_mul-le, div-lt_iff_lt-mul, mul-le-mul_left, mul-div-le, mul-pos,
  mul-lt-mul_of_pos_left, lt-mul-div-succ,
}
use huntloop.Base.{
  ℕ, ◌≡◌, ◌≤◌, ◌<◌, ◌+◌, ◌*◌, ◌/◌, refl, some, List, [], ◌∷◌, All, arith, map, Option-cases, inl,
  inr, Bool-cases, str_eq, String, ap, false, ◌==◌,
}
use huntloop.Scoring.{Weight}
use huntloop.Scoring.Aggregate.{
  DimensionScore, overall, has_weight, weight_of, missing, assessed, total_weight, weighted,
  half_up, compute_overall_score, aggregate,
}

div_lower : (n d k : ℕ) → 0 < d → k * d ≤ n → k ≤ n / d
div_lower n d k pos h = (le-div_iff_mul-le pos).1 h

div_upper : (n d k : ℕ) → 0 < d → n < k * d → n / d < k
div_upper n d k pos h = (div-lt_iff_lt-mul pos).1 h

-- `half_up n d` is the number of hundredths nearest to `n / d`, the larger of two that are as near.
half_up-IsNearest :
    (n d : ℕ)
    → 0 < d
    → (2 * d * half_up n d ≤ 200 * n + d) × (200 * n + d < 2 * d * (half_up n d + 1))
unfolding half_up
half_up-IsNearest n d pos =
    (mul-div-le (200 * n + d) (2 * d), lt-mul-div-succ (200 * n + d) (omega (arith, pos)))

half_up-between :
    (n d lo hi : ℕ)
    → 0 < d
    → lo * d ≤ n
    → n ≤ hi * d
    → (100 * lo ≤ half_up n d) × (half_up n d ≤ 100 * hi)
unfolding half_up
half_up-between n d lo hi pos h k = (
  div_lower (200 * n + d) (2 * d) (100 * lo) (omega (arith, pos)) (omega (arith, h)),
  let below : half_up n d < 100 * hi + 1 =
        div_upper (200 * n + d) (2 * d) (100 * hi + 1) (omega (arith, pos))
          (omega (arith, k, pos)) in
      omega (arith, below),
)

-- Every score that was given lies between the two.
abbrev pub ScoresBetween : ℕ → ℕ → List DimensionScore → Type 0
ScoresBetween lo hi scores = All (λ s. (n : ℕ) → s.score ≡ some n → (lo ≤ n) × (n ≤ hi)) scores

mean_between :
    (weights : List Weight) (scores : List DimensionScore) (lo hi : ℕ)
    → ScoresBetween lo hi scores
    → (lo * total_weight weights (assessed scores) ≤ weighted weights (assessed scores))
      × (weighted weights (assessed scores) ≤ hi * total_weight weights (assessed scores))
unfolding total_weight weighted assessed
mean_between weights [] lo hi h = (omega arith, omega arith)
mean_between weights (s ∷ scores) lo hi h = elim (Option-cases s.score) [
  | inl unassessed ↦ rw unassessed (mean_between weights scores lo hi h.1)
  | inr (n, given) ↦
      let w = weight_of weights s.name in
      let least : w * lo ≤ w * n = mul-le-mul_left w (h.0 n given).0 in
      let most : w * n ≤ w * hi = mul-le-mul_left w (h.0 n given).1 in
      let (below, above) = mean_between weights scores lo hi h.1 in
      rw given (omega (arith, least, below), omega (arith, most, above))
]

-- Where every dimension has a weight and the assessed ones do not all weigh nothing, there is an overall
-- score, and it lies between the least and the greatest score given.
pub compute_overall_score_between :
    (scores : List DimensionScore) (weights : List Weight) (lo hi : ℕ)
    → missing scores weights ≡ []
    → 0 < total_weight weights (assessed scores)
    → ScoresBetween lo hi scores
    → (r : ℕ) × (compute_overall_score scores weights ≡ overall r) × (100 * lo ≤ r) × (r ≤ 100 * hi)
unfolding compute_overall_score
compute_overall_score_between scores weights lo hi complete pos h =
    let n = weighted weights (assessed scores) in
    let d = total_weight weights (assessed scores) in
    let (below, above) = mean_between weights scores lo hi h in
    let (least, most) = half_up-between n d lo hi pos below above in
    (half_up n d, ground (arith, complete, pos), least, most)

half_up_scaled : (n d k : ℕ) → 0 < d → 0 < k → half_up (k * n) (k * d) ≡ half_up n d
unfolding half_up
half_up_scaled n d k pos posk =
    let (least, most) = half_up-IsNearest n d pos in
    let posd : 0 < 2 * (k * d) = omega (arith, mul-pos posk pos) in
    let q = half_up n d in
    let low : k * (2 * d * q) ≤ k * (200 * n + d) = mul-le-mul_left k least in
    let high : k * (200 * n + d) < k * (2 * d * (q + 1)) = mul-lt-mul_of_pos_left most posk in
    let above : q ≤ half_up (k * n) (k * d) =
      div_lower (200 * (k * n) + k * d) (2 * (k * d)) q posd (omega (arith, low)) in
    let below : half_up (k * n) (k * d) < q + 1 =
      div_upper (200 * (k * n) + k * d) (2 * (k * d)) (q + 1) posd (omega (arith, high)) in
    omega (arith, above, below)

abbrev pub scaled : ℕ → List Weight → List Weight
scaled k weights = map (λ (w : Weight). record w { weight = k * w.weight }) weights

has_weight-scaled :
    (k : ℕ) (weights : List Weight) (d : String)
    → has_weight (scaled k weights) d ≡ has_weight weights d
unfolding has_weight
has_weight-scaled k [] d = refl
has_weight-scaled k (w ∷ rest) d = ground (arith, has_weight-scaled k rest d)

weight_of-scaled :
    (k : ℕ) (weights : List Weight) (d : String)
    → weight_of (scaled k weights) d ≡ k * weight_of weights d
unfolding weight_of
weight_of-scaled k [] d = omega arith
weight_of-scaled k (w ∷ rest) d = elim (Bool-cases (str_eq w.dimension d)) [
  | inl e ↦ rw e refl
  | inr e ↦ rw e (weight_of-scaled k rest d)
]

missing-scaled :
    (k : ℕ) (weights : List Weight) (scores : List DimensionScore)
    → missing scores (scaled k weights) ≡ missing scores weights
unfolding missing
missing-scaled k weights [] = refl
missing-scaled k weights (s ∷ rest) =
    let later = missing-scaled k weights rest in
    elim (Bool-cases (has_weight weights s.name)) [
      | inl e ↦ rw (has_weight-scaled k weights s.name, e) later
      | inr e ↦ rw (has_weight-scaled k weights s.name, e) (ap (λ l. s.name ∷ l) later)
    ]

total_weight-scaled :
    (k : ℕ) (weights : List Weight) (scores : List DimensionScore)
    → total_weight (scaled k weights) scores ≡ k * total_weight weights scores
unfolding total_weight
total_weight-scaled k weights [] = omega arith
total_weight-scaled k weights (s ∷ rest) =
    omega (arith, weight_of-scaled k weights s.name, total_weight-scaled k weights rest)

weighted-scaled :
    (k : ℕ) (weights : List Weight) (scores : List DimensionScore)
    → weighted (scaled k weights) scores ≡ k * weighted weights scores
unfolding weighted
weighted-scaled k weights [] = omega arith
weighted-scaled k weights (s ∷ rest) =
    rw (weight_of-scaled k weights s.name) (omega (arith, weighted-scaled k weights rest))

aggregate-scaled :
    (k : ℕ) (weights : List Weight) (scores : List DimensionScore)
    → 0 < k
    → aggregate (scaled k weights) scores ≡ aggregate weights scores
aggregate-scaled k weights scores posk =
    let d = total_weight weights scores in
    rw (total_weight-scaled k weights scores, weighted-scaled k weights scores)
      (elim (Bool-cases (d == 0)) [
        | inl e ↦
            let none_ : d ≡ 0 = ground (arith, e) in
            let same : k * d ≡ 0 = rw none_ (omega arith) in rw (same, none_) refl
        | inr e ↦
            let pos : 0 < d = ground (arith, e) in
            let posd : 0 < k * d = mul-pos posk pos in
            let full : (k * d == 0) ≡ false = ground (arith, posd) in
            rw (e, full) (ap overall (half_up_scaled (weighted weights scores) d k pos posk))
      ])

-- Weights that are all multiplied by one positive factor give the same overall score, or fail the same.
pub compute_overall_score-scaled :
    (scores : List DimensionScore) (weights : List Weight) (k : ℕ)
    → 0 < k
    → compute_overall_score scores (scaled k weights) ≡ compute_overall_score scores weights
unfolding compute_overall_score
compute_overall_score-scaled scores weights k posk =
    rw (missing-scaled k weights scores, aggregate-scaled k weights (assessed scores) posk) refl
