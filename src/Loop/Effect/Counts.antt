-- ===== src/Loop/Effect/Counts.antt =====
-- What the effects count of the backlog.
use huntloop.Base.{
  suc, ◌+◌, ◌≤◌, Bool, true, false, not, Option, none, some, List, [], ◌∷◌, if◌then◌else◌, ◌==◌,
  select, length, is_some, arith, Bool-cases, Option-cases, inl, inr,
}
use huntloop.Scoring.{Weight}
use huntloop.Loop.Detect.{BacklogJob}
use huntloop.Loop.Tiers.{load_live_backlog}
use huntloop.Loop.Tiers.Flags.{Judge, is_unknown, rises, predict_flag_change}
use huntloop.Loop.Tiers.Scores.{rescored, deltas, predict_score_change}

rises-parts :
    (before after : Judge) (live : List BacklogJob)
    → length (select (λ j. rises (before j) (after j)) live)
        + length (select (λ j. rises (after j) (before j)) live)
        + length (select (λ j. is_unknown (before j) (after j)) live)
      ≤ length live
rises-parts before after [] = omega arith
rises-parts before after (j ∷ rest) = split (before j) (after j) (rises-parts before after rest)
  where
    split :
        (a b : Option Bool)
        → length (select (λ x. rises (before x) (after x)) rest)
            + length (select (λ x. rises (after x) (before x)) rest)
            + length (select (λ x. is_unknown (before x) (after x)) rest)
          ≤ length rest
        → length (
              if rises a b
              then j ∷ select (λ x. rises (before x) (after x)) rest
              else select (λ x. rises (before x) (after x)) rest)
            + length (
                if rises b a
                then j ∷ select (λ x. rises (after x) (before x)) rest
                else select (λ x. rises (after x) (before x)) rest)
            + length (
                if is_unknown a b
                then j ∷ select (λ x. is_unknown (before x) (after x)) rest
                else select (λ x. is_unknown (before x) (after x)) rest)
          ≤ suc (length rest)
    split none none h = omega (arith, h)
    split none (some true) h = omega (arith, h)
    split none (some false) h = omega (arith, h)
    split (some true) none h = omega (arith, h)
    split (some false) none h = omega (arith, h)
    split (some true) (some true) h = omega (arith, h)
    split (some true) (some false) h = omega (arith, h)
    split (some false) (some true) h = omega (arith, h)
    split (some false) (some false) h = omega (arith, h)

deltas-parts :
    (before after : List Weight) (live : List BacklogJob)
    → length (deltas before after live)
        + length (select (λ j. not (is_some (rescored before after j))) live)
      ≤ length live
unfolding deltas
deltas-parts before after [] = omega arith
deltas-parts before after (j ∷ rest) = elim (Option-cases (rescored before after j)) [
  | inl e ↦ rw (deltas, e) (omega (arith, deltas-parts before after rest))
  | inr ((a, b), e) ↦ elim (Bool-cases (a == b)) [
    | inl same ↦ rw (deltas, e, same) (omega (arith, deltas-parts before after rest))
    | inr other ↦ rw (deltas, e, other) (omega (arith, deltas-parts before after rest))
  ]
]

-- Newly flagged, no longer flagged and unknown listings are different ones of the listings in play, and so are
-- those whose score changes and those that were skipped.
pub predict_change_parts :
    (before after : Judge) (old new : List Weight) (jobs : List BacklogJob)
    → ((predict_flag_change before after jobs).would_flag
          + (predict_flag_change before after jobs).would_unflag
          + (predict_flag_change before after jobs).unknown
        ≤ (predict_flag_change before after jobs).backlog_size)
      × ((predict_score_change old new jobs).affected + (predict_score_change old new jobs).skipped
          ≤ (predict_score_change old new jobs).backlog_size)
unfolding predict_flag_change predict_score_change
predict_change_parts before after old new jobs = (
  rises-parts before after (load_live_backlog jobs),
  deltas-parts old new (load_live_backlog jobs),
)
