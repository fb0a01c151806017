-- ===== src/Loop/Detect/Weights.antt =====
-- src/huntloop/loop/detect.py, `_track_a`: the weight of the dimension that most fast rejections scored lowest
-- on. `unit` is the weight 1.0 in the units of the weights. The validation of the new weights is not
-- modelled, as it refuses none that are the validated ones and a greater one.
use huntloop.Base.{
  ℕ, ◌+◌, ◌*◌, ◌≡◌, refl, String, Bool, ◌&&◌, ◌||◌, Option, none, some, List, [], ◌∷◌, map,
  if◌then◌else◌, ltb, ◌==◌, str_eq, select, length, All,
}
use huntloop.Scoring.{Weight}
use huntloop.Scoring.Pipeline.{DimensionReply}
use huntloop.Loop.{increase, dimension_weights, weights, Observation, EditCandidate}
use huntloop.Loop.Detect.{
  StoredScore, object, Listed, dimension_index, attribute_dimension, numeric, observation,
  candidate,
}

-- A record with the dimension that its rejection is attributed to.
pub record Attributed : Type 0 where
  pub listed : Listed
  pub dimension : String

abbrev attributed : Listed → Option String → List Attributed → List Attributed
attributed r none rest = rest
attributed r (some dimension) rest = record { listed = r; dimension = dimension } ∷ rest

unfoldable pub attributable : List Listed → List Attributed
attributable [] = []
attributable (r ∷ rest) = attributed r (attribute_dimension r.job) (attributable rest)

abbrev pub count_of : String → List Attributed → ℕ
count_of dimension all = length (select (λ a. str_eq a.dimension dimension) all)

-- The order of the key `(-count, index)`, of dimensions.
abbrev pub more_common : List Attributed → String → String → Bool
more_common all d e =
    ltb (count_of e all) (count_of d all)
    || ((count_of d all == count_of e all) && ltb (dimension_index d) (dimension_index e))

-- The first of the least among those that occur, in the order of their first occurrence.
abbrev pub modal_from : List Attributed → String → List Attributed → String
modal_from all best [] = best
modal_from all best (a ∷ rest) =
    let kept = modal_from all best rest in
    let taken = modal_from all a.dimension rest in
    if more_common all a.dimension best then taken else kept

-- `{**current, name: current[name] + unit}`, or the KeyError of a name that is not there.
abbrev pub bump : ℕ → Weight → Weight
bump unit w = record w { weight = w.weight + unit }

abbrev kept_weight : Weight → Option (List Weight) → Option (List Weight)
kept_weight w none = none
kept_weight w (some rest) = some (w ∷ rest)

unfoldable pub raise_weight : ℕ → String → List Weight → Option (List Weight)
raise_weight unit name [] = none
raise_weight unit name (w ∷ rest) =
    let later = raise_weight unit name rest in
    if str_eq w.dimension name then some (bump unit w ∷ rest) else kept_weight w later

pub data TrackA : Type 0 where
  proposes : EditCandidate → TrackA
  nothing : TrackA
  key_error : String → TrackA

abbrev pub modal_observations : String → List Attributed → List Observation
modal_observations modal all =
    map (λ a. observation a.listed (some a.dimension)) (select (λ a. str_eq a.dimension modal) all)

abbrev pub propose_weights : List Weight → String → List Attributed → Option (List Weight) → TrackA
propose_weights current modal all none = key_error modal
propose_weights current modal all (some raised) = proposes (
    candidate dimension_weights increase (weights current) (weights raised)
      (modal_observations modal all))

abbrev pub propose_modal : ℕ → List Weight → List Attributed → String → TrackA
propose_modal unit current all modal =
    if ltb (2 * count_of modal all) (length all)
    then nothing
    else propose_weights current modal all (raise_weight unit modal current)

abbrev pub track_of : ℕ → List Weight → List Attributed → TrackA
track_of unit current [] = nothing
track_of unit current (a ∷ rest) =
    propose_modal unit current (a ∷ rest) (modal_from (a ∷ rest) a.dimension rest)

unfoldable pub track_a : ℕ → List Listed → List Weight → TrackA
unfolding attributable raise_weight
track_a unit fast current = track_of unit current (attributable fast)

-- src/huntloop/scoring/dimensions.py, `to_score_dimensions`: what is stored of a reply.
unfoldable pub to_score_dimensions : List DimensionReply → List (String × StoredScore)
to_score_dimensions replies = map (λ d. (d.name, object d.score d.reason)) replies

numeric-to_score_dimensions :
    (replies : List DimensionReply) → numeric (to_score_dimensions replies) ≡ []
unfolding numeric to_score_dimensions
numeric-to_score_dimensions [] = refl
numeric-to_score_dimensions (d ∷ rest) = numeric-to_score_dimensions rest

-- The listing was scored by a reply of the model, as the pipeline stores it.
abbrev pub WasScored : Listed → Type 0
WasScored r =
    (replies : List DimensionReply) × (r.job.score_dimensions ≡ to_score_dimensions replies)

attributable-scored : (fast : List Listed) → All WasScored fast → attributable fast ≡ []
unfolding attributable attribute_dimension
attributable-scored [] h = refl
attributable-scored (r ∷ rest) h =
    rw (h.0.1, numeric-to_score_dimensions h.0.0) (attributable-scored rest h.1)

-- Where the scores of the fast rejections are stored as the pipeline stores them, no rejection is attributed
-- to a dimension, and no change of the weights is ever proposed.
pub track_a_scored :
    (unit : ℕ) (fast : List Listed) (current : List Weight)
    → All WasScored fast
    → track_a unit fast current ≡ nothing
unfolding track_a
track_a_scored unit fast current h = rw (attributable-scored fast h) refl
