-- ===== src/Scoring/Pipeline/Laws.antt =====
-- The cap on the spending of one listing, and what the tier that a listing reached says of it.
use huntloop.Base.{
  ℕ, ◌≡◌, ◌≤◌, ◌<◌, ◌+◌, refl, false, Option, none, some, List, Bool-cases, inl, inr,
}
use huntloop.Base.Clock.{Time}
use huntloop.Scoring.{CriteriaPayload, RawListing}
use huntloop.Scoring.Filters.{apply_deterministic_filters}
use huntloop.Scoring.Aggregate.{Overall, overall, fails, unscoreable_error, key_error}
use huntloop.Scoring.Spend.{LlmUsage, SpendTracker, cost_of, fold_usage}
use huntloop.Scoring.Spend.Laws.{cap_reached-fold_usage}
use huntloop.Scoring.Pipeline.{
  Reply, replied, response_error, other_error, TriagePayload, ScoringResponse, Services, is_full,
  used, TriageVerdict, verdict_of, triage_listing, Scoring, done, spend_cap_reached, raises, check,
  note, aggregated, after_dimensions, after_triage, score_listing,
}

-- No reply costs more than `m`.
pub record CostsAtMost (m : ℕ) (services : Services) : Type 0 where
  pub of_triage :
      (l : RawListing) (p : TriagePayload) → services.ask_triage l ≡ replied p → cost_of p.usage ≤ m
  pub of_dimensions :
      (l : RawListing) (r : ScoringResponse)
      → services.ask_dimensions l ≡ replied r
      → cost_of r.usage ≤ m

-- The tracker has the cap, and has spent less than the cap and one more call.
abbrev pub SpentBelow : ℕ → ℕ → Option SpendTracker → Type 0
SpentBelow cap m none = Unit
SpentBelow cap m (some t) = (t.cap_usd ≡ some cap) × (t.spent_usd < cap + m)

SpentBelow-note :
    (cap m : ℕ) (tracker : Option SpendTracker) (usage : LlmUsage)
    → check tracker ≡ false
    → cost_of usage ≤ m
    → SpentBelow cap m tracker
    → SpentBelow cap m (note (some usage) tracker)
unfolding fold_usage
SpentBelow-note cap m none usage open_ cheap h = tt
SpentBelow-note cap m (some t) usage open_ cheap h =
    (h.0, cap_reached-fold_usage t usage cap m h.0 open_ cheap)

module _ (services : Services) (criteria : CriteriaPayload) (version : Option ℕ)
    (now clock : Time) where
  module _ (cap m : ℕ) (cheap : CostsAtMost m services) where
    after_dimensions_cap :
        (l : RawListing) (usage : List LlmUsage) (tracker : Option SpendTracker)
        → check tracker ≡ false
        → SpentBelow cap m tracker
        → SpentBelow cap m
            (after_dimensions services criteria version now clock l usage
              (services.ask_dimensions l)
              tracker).0
    after_dimensions_cap l usage tracker open_ h = answer (services.ask_dimensions l) refl
      where
        answer :
            (reply : Reply ScoringResponse)
            → services.ask_dimensions l ≡ reply
            → SpentBelow cap m
                (after_dimensions services criteria version now clock l usage reply tracker).0
        answer (replied r) e =
            SpentBelow-note cap m tracker r.usage open_ (cheap.of_dimensions l r e) h
        answer (response_error exc) e = h
        answer (other_error exc) e = h

    after_triage_cap :
        (l : RawListing) (verdict : TriageVerdict) (tracker : Option SpendTracker)
        → SpentBelow cap m tracker
        → SpentBelow cap m (after_triage services criteria version now clock l verdict tracker).0
    after_triage_cap l verdict tracker h = elim (Bool-cases verdict.keep) [
      | inr dropped ↦ rw dropped h
      | inl kept ↦ elim (Bool-cases (check tracker)) [
        | inl reached ↦ rw (kept, reached) h
        | inr open_ ↦ rw (kept, open_) (after_dimensions_cap l _ tracker open_ h)
      ]
    ]

    noted :
        (l : RawListing) (tracker : Option SpendTracker)
        → check tracker ≡ false
        → SpentBelow cap m tracker
        → SpentBelow cap m (note (triage_listing services l).usage tracker)
    unfolding triage_listing fold_usage
    noted l tracker open_ h = answer (services.ask_triage l) refl
      where
        keeps :
            (tracker : Option SpendTracker)
            → SpentBelow cap m tracker
            → SpentBelow cap m (note none tracker)
        keeps none k = tt
        keeps (some t) k = k

        answer :
            (reply : Reply TriagePayload)
            → services.ask_triage l ≡ reply
            → SpentBelow cap m (note (verdict_of reply).usage tracker)
        answer (replied p) e = SpentBelow-note cap m tracker p.usage open_ (cheap.of_triage l p e) h
        answer (response_error exc) e = keeps tracker h
        answer (other_error exc) e = keeps tracker h

    pub score_listing_cap :
        (l : RawListing) (tracker : Option SpendTracker)
        → SpentBelow cap m tracker
        → SpentBelow cap m (score_listing services criteria version now clock l tracker).0
    unfolding score_listing
    score_listing_cap l tracker h =
        elim (Bool-cases (apply_deterministic_filters l criteria now).passed) [
          | inr dropped ↦ rw dropped h
          | inl passed ↦ elim (Bool-cases (check tracker)) [
            | inl reached ↦ rw (passed, reached) h
            | inr open_ ↦
                rw (passed, open_)
                  (after_triage_cap l (triage_listing services l)
                    (note (triage_listing services l).usage tracker) (noted l tracker open_ h))
          ]
        ]

  -- A listing that is scored went through the three tiers, and one that is not did not reach the last.
  abbrev pub IsTiered : Scoring → Type 0
  IsTiered (done s) = s.scored ≡ is_full s.tier_reached
  IsTiered spend_cap_reached = Unit
  IsTiered (raises exc) = Unit

  aggregated-IsTiered :
      (l : RawListing) (r : ScoringResponse) (usage : List LlmUsage) (o : Overall)
      → IsTiered (aggregated services criteria version now clock l r usage o)
  aggregated-IsTiered l r usage (overall score) = refl
  aggregated-IsTiered l r usage (fails unscoreable_error) = refl
  aggregated-IsTiered l r usage (fails (key_error names)) = tt

  after_dimensions-IsTiered :
      (l : RawListing) (usage : List LlmUsage) (reply : Reply ScoringResponse)
      (tracker : Option SpendTracker)
      → IsTiered (after_dimensions services criteria version now clock l usage reply tracker).1
  after_dimensions-IsTiered l usage (replied r) tracker = aggregated-IsTiered l r _ _
  after_dimensions-IsTiered l usage (response_error exc) tracker = refl
  after_dimensions-IsTiered l usage (other_error exc) tracker = tt

  after_triage-IsTiered :
      (l : RawListing) (verdict : TriageVerdict) (tracker : Option SpendTracker)
      → IsTiered (after_triage services criteria version now clock l verdict tracker).1
  after_triage-IsTiered l verdict tracker = elim (Bool-cases verdict.keep) [
    | inr dropped ↦ rw dropped refl
    | inl kept ↦ elim (Bool-cases (check tracker)) [
      | inl reached ↦ rw (kept, reached) tt
      | inr open_ ↦
          rw (kept, open_)
            (after_dimensions-IsTiered l (used verdict.usage) (services.ask_dimensions l) tracker)
    ]
  ]

  pub score_listing-IsTiered :
      (l : RawListing) (tracker : Option SpendTracker)
      → IsTiered (score_listing services criteria version now clock l tracker).1
  unfolding score_listing
  score_listing-IsTiered l tracker =
      elim (Bool-cases (apply_deterministic_filters l criteria now).passed) [
        | inr dropped ↦ rw dropped refl
        | inl passed ↦ elim (Bool-cases (check tracker)) [
          | inl reached ↦ rw (passed, reached) tt
          | inr open_ ↦
              rw (passed, open_)
                (after_triage-IsTiered l (triage_listing services l)
                  (note (triage_listing services l).usage tracker))
        ]
      ]
