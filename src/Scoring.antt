-- ===== src/Scoring.antt =====
-- src/huntloop/scoring: what is decided of one listing. Here are the types that the stages share, from
-- src/huntloop/criteria/schema.py, src/huntloop/discovery/ats/base.py and
-- src/huntloop/discovery/normalize/location.py. An amount of money is a number of hundredths, a naive
-- datetime is the UTC one that the code takes it for.
pub mod Filters
pub mod Compensation
pub mod Flags
pub mod Aggregate
pub mod Spend
pub mod Pipeline
use huntloop.Base.{ℕ, String, Option, Bool, List}
use huntloop.Base.Clock.{Time}

pub data RemoteScopeGuess : Type 0 where
  global region country unspecified : RemoteScopeGuess

pub record NormalizedLocation : Type 0 where
  pub raw : Option String
  pub country_code : Option String
  pub region : Option String
  pub remote_scope : RemoteScopeGuess
  pub ambiguous : Bool

pub record LocationCriteria : Type 0 where
  pub eligible_countries : List String
  pub eligible_regions : List String

pub record CompensationFloor : Type 0 where
  pub amount : Option ℕ
  pub currency : Option String
  pub period : String

-- A member of `SENIORITY_LADDER`, which the validator of the payload requires.
pub data Rung : Type 0 where
  intern junior mid senior staff principal director vp c_level : Rung

-- `SENIORITY_LADDER.index`
abbrev pub index : Rung → ℕ
index intern = 0
index junior = 1
index mid = 2
index senior = 3
index staff = 4
index principal = 5
index director = 6
index vp = 7
index c_level = 8

pub record Weight : Type 0 where
  pub dimension : String
  pub weight : ℕ

pub record CriteriaPayload : Type 0 where
  pub seniority_min : Option Rung
  pub seniority_max : Option Rung
  pub posting_age_days : ℕ
  pub locations : LocationCriteria
  pub compensation_floor : CompensationFloor
  pub dimension_weights : List Weight

pub data CompensationSource : Type 0 where
  structured text absent : CompensationSource

pub record NormalizedCompensation : Type 0 where
  pub minimum : Option ℕ
  pub maximum : Option ℕ
  pub currency : Option String
  pub period : Option String
  pub source : CompensationSource

-- The fields of a `RawListing` that scoring reads, and what the two normalizers make of the others.
pub record RawListing : Type 0 where
  pub title : String
  pub description_plain : String
  pub posted_at : Option Time
  pub location : NormalizedLocation
  pub compensation : NormalizedCompensation
