-- ===== src/Scoring/Filters.antt =====
-- src/huntloop/scoring/filters.py: the rules before any model call. A `detail` is a constructor with
-- the values that its text names. The rules raise on no argument of these types, so that the two
-- handlers of `apply_deterministic_filters` are not entered.
pub mod Laws
use huntloop.Base.{
  ℕ, suc, String, Bool, true, false, not, ◌&&◌, Option, none, some, List, [], ◌∷◌, if◌then◌else◌,
  contains, find, is_some, or_default,
}
use huntloop.Base.Clock.{Time, ℤ, pos, negsuc, days_between, is_negative, exceeds}
use huntloop.Scoring.{
  RemoteScopeGuess, global, region, country, unspecified, NormalizedLocation, LocationCriteria,
  CriteriaPayload, RawListing,
}

pub data FilterVerdict : Type 0 where
  pass drop skipped : FilterVerdict

pub data Rule : Type 0 where
  posting_age geography : Rule

pub data Detail : Type 0 where
  no_limit no_reliable_date : Detail
  in_the_future : ℕ → Detail
  older : ℤ → ℕ → Detail
  fresh : ℤ → ℕ → Detail
  no_eligibility worldwide : Detail
  region_eligible country_eligible : String → Detail
  country_ineligible : String → List String → List String → Detail
  region_ineligible : String → List String → Detail
  unresolved : Option String → Detail
  not_evaluated : Rule → Detail

pub record FilterDecision : Type 0 where
  pub rule : Rule
  pub verdict : FilterVerdict
  pub detail : Detail
  pub uncertain : Bool

abbrev decide : Rule → FilterVerdict → Detail → Bool → FilterDecision
decide r v d u = record { rule = r; verdict = v; detail = d; uncertain = u }

abbrev decide_age : ℤ → ℕ → FilterDecision
decide_age (negsuc n) limit = decide posting_age pass (in_the_future (suc n)) true
decide_age (pos n) limit =
    if exceeds (pos n) limit
    then decide posting_age drop (older (pos n) limit) false
    else decide posting_age pass (fresh (pos n) limit) false

unfoldable pub check_posting_age : Option Time → Option ℕ → Time → FilterDecision
check_posting_age posted_at none now = decide posting_age pass no_limit false
check_posting_age none (some limit) now = decide posting_age pass no_reliable_date true
check_posting_age (some t) (some limit) now = decide_age (days_between now t) limit

abbrev is_empty : List String → Bool
is_empty [] = true
is_empty (x ∷ xs) = false

abbrev pub is_global : RemoteScopeGuess → Bool
is_global global = true
is_global _ = false

-- `x is not None and x in xs`
abbrev pub known_in : Option String → List String → Bool
known_in none xs = false
known_in (some x) xs = contains xs x

abbrev unresolved_decision : NormalizedLocation → FilterDecision
unresolved_decision l = decide geography pass (unresolved l.raw) true

-- Steps 5 and 6, where no country code is at hand.
abbrev decide_region : NormalizedLocation → LocationCriteria → Option String → FilterDecision
decide_region l c none = unresolved_decision l
decide_region l c (some r) =
    if is_empty c.eligible_regions
    then unresolved_decision l
    else decide geography drop (region_ineligible r c.eligible_regions) false

-- Steps 4 to 6.
abbrev decide_country : NormalizedLocation → LocationCriteria → Option String → FilterDecision
decide_country l c none = decide_region l c l.region
decide_country l c (some code) =
    if is_empty c.eligible_countries
    then unresolved_decision l
    else if contains c.eligible_countries code
    then decide geography pass (country_eligible code) false
    else decide geography drop (country_ineligible code c.eligible_countries c.eligible_regions)
        false

unfoldable pub check_geography : NormalizedLocation → LocationCriteria → FilterDecision
check_geography l c =
    if is_empty c.eligible_countries && is_empty c.eligible_regions
    then decide geography pass no_eligibility false
    else if is_global l.remote_scope
    then decide geography pass worldwide false
    else if known_in l.region c.eligible_regions
    then decide geography pass (region_eligible (or_default l.region "")) false
    else decide_country l c l.country_code

abbrev pub is_drop : FilterDecision → Bool
is_drop d = elim d.verdict [ drop ↦ true | _ ↦ false ]

pub record FilterOutcome : Type 0 where
  pub passed : Bool
  pub decisions : List FilterDecision
  pub first_drop : Option FilterDecision
  pub location : NormalizedLocation

unfoldable pub apply_deterministic_filters : RawListing → CriteriaPayload → Time → FilterOutcome
unfolding check_posting_age check_geography
apply_deterministic_filters listing criteria now =
    let age = check_posting_age listing.posted_at (some criteria.posting_age_days) now in
    let geo =
      if is_drop age
      then decide geography skipped (not_evaluated age.rule) false
      else check_geography listing.location criteria.locations in
    let decisions = age ∷ geo ∷ [] in
    let first = find is_drop decisions in
    record {
      passed = not (is_some first);
      decisions = decisions;
      first_drop = first;
      location = listing.location;
    }
