-- ===== src/Scoring/Filters/Laws.antt =====
-- What the deterministic rules drop.
use huntloop.Base.{
  ℕ, String, ◌≡◌, refl, Bool, true, false, not, ◌&&◌, ◌||◌, Option, none, some, List, [], ◌∷◌, ◌++◌,
  arith, leb, contains, is_some, ◌+◌, ◌*◌,
}
use huntloop.Base.Clock.{Time, day, days_between}
use huntloop.Scoring.{NormalizedLocation, LocationCriteria, CriteriaPayload, RawListing}
use huntloop.Scoring.Filters.{
  is_drop, check_posting_age, check_geography, is_global, apply_deterministic_filters, known_in,
}

-- The posting is dated, and a full day past the limit has gone by.
abbrev pub is_too_old : Option Time → Option ℕ → Time → Bool
is_too_old none limit now = false
is_too_old (some t) none now = false
is_too_old (some t) (some limit) now = leb (t + (limit + 1) * day) now

-- The age rule drops a posting exactly when it has a date that lies the limit and one more day, or
-- longer, before now: a day that is not over does not count, and a date in the future never drops.
pub check_posting_age_drops :
    (posted_at : Option Time) (limit : Option ℕ) (now : Time)
    → is_drop (check_posting_age posted_at limit now) ≡ is_too_old posted_at limit now
unfolding check_posting_age days_between
check_posting_age_drops none none now = refl
check_posting_age_drops none (some limit) now = refl
check_posting_age_drops (some t) none now = refl
check_posting_age_drops (some t) (some limit) now = ground arith

abbrev criteria_of : List String → List String → LocationCriteria
criteria_of countries regions = record {
  eligible_countries = countries;
  eligible_regions = regions;
}

-- With a country and a region eligible, a listing is dropped exactly when it is not remote worldwide,
-- its country or its region is known, and neither is eligible.
pub check_geography_drops :
    (l : NormalizedLocation) (c r : String) (countries regions : List String)
    → is_drop (check_geography l (criteria_of (c ∷ countries) (r ∷ regions))) ≡ (
        not (is_global l.remote_scope)
        && (not (known_in l.region (r ∷ regions))
            && (not (known_in l.country_code (c ∷ countries))
                && (is_some l.country_code || is_some l.region))))
unfolding check_geography
check_geography_drops l c r countries regions = ground arith

-- A location of which neither the country nor the region is known is never dropped.
pub check_geography_unresolved :
    (l : NormalizedLocation) (c : LocationCriteria)
    → l.country_code ≡ none
    → l.region ≡ none
    → is_drop (check_geography l c) ≡ false
unfolding check_geography
check_geography_unresolved l c e1 e2 = ground (arith, e1, e2)

contains-append :
    (xs ys : List String) (s : String) → contains xs s ≡ true → contains (xs ++ ys) s ≡ true
contains-append [] ys s h = cc
contains-append (x ∷ xs) ys s h = ground (arith, contains-append xs ys s)

known_in-append :
    (o : Option String) (xs ys : List String) → known_in o xs ≡ true → known_in o (xs ++ ys) ≡ true
known_in-append none xs ys h = h
known_in-append (some s) xs ys h = contains-append xs ys s h

-- Making more places eligible, beside a country and a region that were, drops no listing that was
-- kept.
pub check_geography_widens :
    (l : NormalizedLocation) (c r : String)
    (countries regions more_countries more_regions : List String)
    → is_drop (check_geography l (criteria_of (c ∷ countries) (r ∷ regions))) ≡ false
    → is_drop (
        check_geography l
          (criteria_of (c ∷ countries ++ more_countries) (r ∷ regions ++ more_regions)))
      ≡ false
check_geography_widens l c r countries regions more_countries more_regions h = ground (
  arith,
  check_geography_drops l c r countries regions,
  check_geography_drops l c r (countries ++ more_countries) (regions ++ more_regions),
  known_in-append l.country_code (c ∷ countries) more_countries,
  known_in-append l.region (r ∷ regions) more_regions,
  h,
)

-- The chain passes a listing exactly when the posting is not too old and its place is not dropped, and
-- the first drop is then `none`.
pub apply_deterministic_filters_passed :
    (listing : RawListing) (criteria : CriteriaPayload) (now : Time)
    → (apply_deterministic_filters listing criteria now).passed ≡ (
        not (is_too_old listing.posted_at (some criteria.posting_age_days) now)
        && not (is_drop (check_geography listing.location criteria.locations)))
unfolding apply_deterministic_filters
apply_deterministic_filters_passed listing criteria now =
    ground (arith, check_posting_age_drops listing.posted_at (some criteria.posting_age_days) now)
