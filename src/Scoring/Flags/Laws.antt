-- ===== src/Scoring/Flags/Laws.antt =====
-- Which flags can be raised, and together with what.
use huntloop.Base.{
  String, ◌≡◌, refl, Bool, false, not, ◌&&◌, Option, none, some, inl, inr, is_some, Option-cases,
  arith,
}
use huntloop.Base.Clock.{Time, days_between}
use huntloop.Scoring.{Rung, CriteriaPayload, RawListing}
use huntloop.Scoring.Compensation.{FloorComparison}
use huntloop.Scoring.Filters.{FilterDecision, is_drop, check_posting_age}
use huntloop.Scoring.Flags.{stretch, stepped_down, detect_seniority, compute_flags}

one_direction :
    (found floor ceiling : Option Rung)
    → (is_some (stretch found ceiling) && is_some (stepped_down found floor ceiling)) ≡ false
one_direction none floor ceiling = refl
one_direction (some r) none none = refl
one_direction (some r) none (some c) = ground arith
one_direction (some r) (some f) none = refl
one_direction (some r) (some f) (some c) = ground arith

module _ (search : String → String → Bool)
    (detect_required_language : String → Option (String × String)) (listing : RawListing)
    (comparison : FloorComparison) (criteria : CriteriaPayload) where
  -- `stretch_role` and `step_down` are never raised together.
  pub compute_flags_one_direction :
      (decision : Option FilterDecision) (clock : Time)
      → (is_some
            (compute_flags search detect_required_language listing comparison criteria decision
              clock).stretch_role
          && is_some
              (compute_flags search detect_required_language listing comparison criteria decision
                clock).step_down)
        ≡ false
  unfolding compute_flags
  compute_flags_one_direction decision clock =
      one_direction (detect_seniority search detect_required_language listing.title)
        criteria.seniority_min criteria.seniority_max

  -- `posting_stale` of a listing that the age rule kept at `now` is raised, if the flags are computed at
  -- the same time, exactly when the posting has no date.
  pub compute_flags_stale :
      (now : Time)
      → is_drop (check_posting_age listing.posted_at (some criteria.posting_age_days) now) ≡ false
      → is_some
          (compute_flags search detect_required_language listing comparison criteria
            (some (check_posting_age listing.posted_at (some criteria.posting_age_days) now))
            now).posting_stale
        ≡ not (is_some listing.posted_at)
  unfolding compute_flags check_posting_age days_between
  compute_flags_stale now kept = elim (Option-cases listing.posted_at) [
    | inl undated ↦ rw undated
    | inr (t, dated) ↦ let kept' = rw dated at kept in rw dated (ground (arith, kept'))
  ]
