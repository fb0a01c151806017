-- ===== src/Loop/Generate/Fields/Tracks.antt =====
-- Which field each track of the detection is about.
use huntloop.Base.{
  ℕ, suc, ◌*◌, ◌/◌, ◌≤◌, ◌≡◌, refl, String, Bool, true, false, Option, none, some, List, [], ◌∷◌,
  ◌++◌, if◌then◌else◌, ltb, length, arith, Bool-cases, inl, inr,
}
use huntloop.Scoring.{Rung, CompensationFloor, CriteriaPayload}
use huntloop.Loop.{
  EditField, seniority_min, seniority_max, posting_age_days, locations, compensation_floor,
  title_keywords, employers, work_authorization, dimension_weights, EditCandidate, Exclusions,
}
use huntloop.Loop.Detect.{Listed}
use huntloop.Loop.Detect.Flags.{
  lower_max, raise_min, raise_floor, tighten_max, tighten_min, tighten_floor, tighten_age, median,
  at_least, at_most, larger, comparable,
}
use huntloop.Loop.Detect.Repeats.{Words, exclude_token, exclude_employer}

-- At most one candidate, and for this field.
abbrev Only : EditField → List EditCandidate → Type 0
Only f [] = Unit
Only f (c ∷ []) = c.field ≡ f
Only f (c ∷ d ∷ rest) = 1 ≤ 0

-- In the order of the tracks.
abbrev pub rank : EditField → ℕ
rank dimension_weights = 0
rank seniority_max = 1
rank seniority_min = 2
rank compensation_floor = 3
rank posting_age_days = 4
rank title_keywords = 5
rank employers = 6
rank locations = 7
rank work_authorization = 8

abbrev pub Ascends : ℕ → List EditCandidate → Type 0
Ascends n [] = Unit
Ascends n (c ∷ rest) = (n ≤ rank c.field) × Ascends (suc (rank c.field)) rest

pub Ascends-weaken : (m n : ℕ) (l : List EditCandidate) → m ≤ n → Ascends n l → Ascends m l
Ascends-weaken m n [] le h = tt
Ascends-weaken m n (c ∷ rest) le h = (omega (arith, le, h.0), h.1)

pub Only-Ascends :
    (n : ℕ) (f : EditField) (l rest : List EditCandidate)
    → n ≤ rank f
    → Only f l
    → Ascends (suc (rank f)) rest
    → Ascends n (l ++ rest)
Only-Ascends n f [] rest le only h = Ascends-weaken n (suc (rank f)) rest (omega (arith, le)) h
Only-Ascends n f (c ∷ []) rest le only h = rw only (le, h)
Only-Ascends n f (c ∷ d ∷ more) rest le only h = absurd (omega (arith, only))

Only-if :
    (f : EditField) (b : Bool) (c : EditCandidate) → c.field ≡ f → Only f (if b then c ∷ [] else [])
Only-if f true c h = h
Only-if f false c h = tt

Only-lower_max :
    (c : CriteriaPayload) (hits : List Listed) (bound : Option Rung)
    → Only seniority_max (lower_max c hits bound)
Only-lower_max c hits none = tt
Only-lower_max c hits (some new) = Only-if seniority_max (at_least new c.seniority_min) _ refl

Only-raise_min :
    (c : CriteriaPayload) (hits : List Listed) (bound : Option Rung)
    → Only seniority_min (raise_min c hits bound)
Only-raise_min c hits none = tt
Only-raise_min c hits (some new) = Only-if seniority_min (at_most new c.seniority_max) _ refl

Only-raise_floor :
    (f : CompensationFloor) (hits : List Listed) (minima : List ℕ) (amount : Option ℕ)
    (currency : Option String)
    → Only compensation_floor (raise_floor f hits minima amount currency)
Only-raise_floor f hits minima none currency = tt
Only-raise_floor f hits minima (some amount) none = tt
Only-raise_floor f hits minima (some amount) (some currency) =
    elim (Bool-cases (ltb (length minima) 2)) [
      | inl e ↦ rw e tt
      | inr e ↦ rw e (Only-if compensation_floor (ltb amount (median minima)) _ refl)
    ]

module _ (c : CriteriaPayload) where
  pub Only-tighten_max : (hits : List Listed) → Only seniority_max (tighten_max hits c)
  unfolding tighten_max
  Only-tighten_max [] = tt
  Only-tighten_max (r ∷ rest) = Only-lower_max c (r ∷ rest) _

  pub Only-tighten_min : (hits : List Listed) → Only seniority_min (tighten_min hits c)
  unfolding tighten_min
  Only-tighten_min [] = tt
  Only-tighten_min (r ∷ rest) = Only-raise_min c (r ∷ rest) _

  pub Only-tighten_floor : (hits : List Listed) → Only compensation_floor (tighten_floor hits c)
  unfolding tighten_floor
  Only-tighten_floor [] = tt
  Only-tighten_floor (r ∷ rest) =
      let f = c.compensation_floor in
      Only-raise_floor f (r ∷ rest) (comparable f (r ∷ rest) []) f.amount f.currency

  pub Only-tighten_age : (hits : List Listed) → Only posting_age_days (tighten_age hits c)
  unfolding tighten_age
  Only-tighten_age [] = tt
  Only-tighten_age (r ∷ rest) =
      Only-if posting_age_days (ltb (larger 7 (c.posting_age_days * 2 / 3)) c.posting_age_days) _
        refl

pub Only-exclude_token :
    (w : Words) (fast : List Listed) (e : Exclusions) (t : Option String)
    → Only title_keywords (exclude_token w fast e t)
Only-exclude_token w fast e none = tt
Only-exclude_token w fast e (some t) = refl

pub Only-exclude_employer :
    (fast : List Listed) (e : Exclusions) (t : Option String)
    → Only employers (exclude_employer fast e t)
Only-exclude_employer fast e none = tt
Only-exclude_employer fast e (some t) = refl
