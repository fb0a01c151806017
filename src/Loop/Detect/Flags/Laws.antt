-- ===== src/Loop/Detect/Flags/Laws.antt =====
-- Every candidate of the flags tightens its field by one step and leaves the criteria valid.
use huntloop.Base.{
  ℕ, suc, ◌*◌, ◌/◌, ◌≤◌, ◌<◌, ◌≡◌, refl, sym, String, true, Option, none, some, List, [], ◌∷◌, ◌++◌,
  ltb, All, All-append, arith, Bool-cases, inl, inr, length,
}
use huntloop.Scoring.{
  Rung, index, intern, junior, mid, senior, staff, principal, director, vp, c_level,
  CompensationFloor, CriteriaPayload,
}
use huntloop.Loop.{
  tighten, EditField, seniority_min, seniority_max, posting_age_days, compensation_floor, Value,
  rung, days, floor, EditCandidate,
}
use huntloop.Loop.Detect.{Listed}
use huntloop.Loop.Detect.Flags.{
  rung_below, rung_above, at_least, at_most, lower_max, raise_min, step, tighten_max, tighten_min,
  median, raise_floor, tighten_floor, tighten_age, larger, flagged, track_b,
}

-- The new bound is the next one, and the two bounds still meet.
abbrev pub LowersMax : CriteriaPayload → Option Rung → Type 0
LowersMax c none = 1 ≤ 0
LowersMax c (some new) =
    (old : Rung) × (c.seniority_max ≡ some old)
    × (suc (index new) ≡ index old)
    × ((low : Rung) → c.seniority_min ≡ some low → index low ≤ index new)

abbrev pub RaisesMin : CriteriaPayload → Option Rung → Type 0
RaisesMin c none = 1 ≤ 0
RaisesMin c (some new) =
    (old : Rung) × (c.seniority_min ≡ some old)
    × (index new ≡ suc (index old))
    × ((high : Rung) → c.seniority_max ≡ some high → index new ≤ index high)

abbrev pub RaisesFloor : CriteriaPayload → CompensationFloor → Type 0
RaisesFloor c f =
    (old new : ℕ) × (c.compensation_floor.amount ≡ some old)
    × (f.amount ≡ some new)
    × (old < new)
    × (f.currency ≡ c.compensation_floor.currency)
    × (f.period ≡ c.compensation_floor.period)

-- What a candidate for a value of a field does to the criteria; no other field is proposed.
abbrev pub Tightens : CriteriaPayload → EditField → Value → Type 0
Tightens c seniority_max (rung new) = LowersMax c new
Tightens c seniority_min (rung new) = RaisesMin c new
Tightens c compensation_floor (floor f) = RaisesFloor c f
Tightens c posting_age_days (days n) = (7 ≤ n) × (n < c.posting_age_days)
Tightens _ _ _ = 1 ≤ 0

abbrev pub current_of : CriteriaPayload → EditField → Value → Value
current_of c seniority_max other = rung c.seniority_max
current_of c seniority_min other = rung c.seniority_min
current_of c compensation_floor other = floor c.compensation_floor
current_of c posting_age_days other = days c.posting_age_days
current_of c _ other = other

abbrev pub IsTightening : CriteriaPayload → EditCandidate → Type 0
IsTightening c e =
    (e.direction ≡ tighten)
    × (e.current_value ≡ current_of c e.field e.current_value)
    × Tightens c e.field e.proposed_value

rung_below-index : (old new : Rung) → rung_below old ≡ some new → suc (index new) ≡ index old
rung_below-index intern new h = cc
rung_below-index junior new h = ground (arith, h)
rung_below-index mid new h = ground (arith, h)
rung_below-index senior new h = ground (arith, h)
rung_below-index staff new h = ground (arith, h)
rung_below-index principal new h = ground (arith, h)
rung_below-index director new h = ground (arith, h)
rung_below-index vp new h = ground (arith, h)
rung_below-index c_level new h = ground (arith, h)

rung_above-index : (old new : Rung) → rung_above old ≡ some new → index new ≡ suc (index old)
rung_above-index intern new h = ground (arith, h)
rung_above-index junior new h = ground (arith, h)
rung_above-index mid new h = ground (arith, h)
rung_above-index senior new h = ground (arith, h)
rung_above-index staff new h = ground (arith, h)
rung_above-index principal new h = ground (arith, h)
rung_above-index director new h = ground (arith, h)
rung_above-index vp new h = ground (arith, h)
rung_above-index c_level new h = cc

step-some :
    (next : Rung → Option Rung) (bound : Option Rung) (new : Rung)
    → step next bound ≡ some new
    → (old : Rung) × (bound ≡ some old) × (next old ≡ some new)
step-some next none new h = absurd (cc)
step-some next (some old) new h = (old, refl, h)

at_least-index :
    (r : Rung) (bound : Option Rung) (low : Rung)
    → at_least r bound ≡ true
    → bound ≡ some low
    → index low ≤ index r
at_least-index r none low h e = absurd (cc)
at_least-index r (some b) low h e = ground (arith, h, e)

at_most-index :
    (r : Rung) (bound : Option Rung) (high : Rung)
    → at_most r bound ≡ true
    → bound ≡ some high
    → index r ≤ index high
at_most-index r none high h e = absurd (cc)
at_most-index r (some b) high h e = ground (arith, h, e)

lower_max-IsTightening :
    (c : CriteriaPayload) (hits : List Listed) (bound : Option Rung)
    → step rung_below c.seniority_max ≡ bound
    → All (IsTightening c) (lower_max c hits bound)
lower_max-IsTightening c hits none e = tt
lower_max-IsTightening c hits (some new) e = elim (Bool-cases (at_least new c.seniority_min)) [
  | inr kept ↦ rw kept tt
  | inl allowed ↦
      let (old, is, next) = step-some rung_below c.seniority_max new e in
      rw allowed (
        (
          refl,
          refl,
          (old, is, rung_below-index old new next, λ low k. at_least-index new _ low allowed k),
        ),
        tt,
      )
]

raise_min-IsTightening :
    (c : CriteriaPayload) (hits : List Listed) (bound : Option Rung)
    → step rung_above c.seniority_min ≡ bound
    → All (IsTightening c) (raise_min c hits bound)
raise_min-IsTightening c hits none e = tt
raise_min-IsTightening c hits (some new) e = elim (Bool-cases (at_most new c.seniority_max)) [
  | inr kept ↦ rw kept tt
  | inl allowed ↦
      let (old, is, next) = step-some rung_above c.seniority_min new e in
      rw allowed (
        (
          refl,
          refl,
          (old, is, rung_above-index old new next, λ high k. at_most-index new _ high allowed k),
        ),
        tt,
      )
]

raise_floor-IsTightening :
    (c : CriteriaPayload) (hits : List Listed) (minima : List ℕ) (amount : Option ℕ)
    (currency : Option String)
    → c.compensation_floor.amount ≡ amount
    → c.compensation_floor.currency ≡ currency
    → All (IsTightening c) (raise_floor c.compensation_floor hits minima amount currency)
raise_floor-IsTightening c hits minima none currency a k = tt
raise_floor-IsTightening c hits minima (some amount) none a k = tt
raise_floor-IsTightening c hits minima (some amount) (some currency) a k =
    elim (Bool-cases (ltb (length minima) 2)) [
      | inl few ↦ rw few tt
      | inr enough ↦ elim (Bool-cases (ltb amount (median minima))) [
        | inr kept ↦ rw (enough, kept) tt
        | inl allowed ↦
            let more : amount < median minima = ground (arith, allowed) in
            rw (enough, allowed)
              ((refl, refl, (amount, median minima, a, refl, more, sym k, refl)), tt)
      ]
    ]

seven-larger : (n : ℕ) → 7 ≤ larger 7 n
seven-larger n = ground arith

module _ (c : CriteriaPayload) where
  tighten_max-IsTightening : (hits : List Listed) → All (IsTightening c) (tighten_max hits c)
  unfolding tighten_max
  tighten_max-IsTightening [] = tt
  tighten_max-IsTightening (r ∷ rest) = lower_max-IsTightening c (r ∷ rest) _ refl

  tighten_min-IsTightening : (hits : List Listed) → All (IsTightening c) (tighten_min hits c)
  unfolding tighten_min
  tighten_min-IsTightening [] = tt
  tighten_min-IsTightening (r ∷ rest) = raise_min-IsTightening c (r ∷ rest) _ refl

  tighten_floor-IsTightening : (hits : List Listed) → All (IsTightening c) (tighten_floor hits c)
  unfolding tighten_floor
  tighten_floor-IsTightening [] = tt
  tighten_floor-IsTightening (r ∷ rest) = raise_floor-IsTightening c (r ∷ rest) _ _ _ refl refl

  tighten_age-IsTightening : (hits : List Listed) → All (IsTightening c) (tighten_age hits c)
  unfolding tighten_age
  tighten_age-IsTightening [] = tt
  tighten_age-IsTightening (r ∷ rest) =
      let proposed = larger 7 (c.posting_age_days * 2 / 3) in
      elim (Bool-cases (ltb proposed c.posting_age_days)) [
        | inr kept ↦ rw kept tt
        | inl shorter ↦
            rw shorter (
              (refl, refl, (seven-larger (c.posting_age_days * 2 / 3), ground (arith, shorter))),
              tt,
            )
      ]

-- Every candidate that a flag leads to tightens one of four fields: it moves a bound of seniority by one rung
-- and not past the other bound, raises the amount of the floor in its currency and period, or shortens the age
-- of a posting to no less than seven days.
pub track_b-IsTightening :
    (fast : List Listed) (c : CriteriaPayload) → All (IsTightening c) (track_b fast c)
unfolding track_b
track_b-IsTightening fast c =
    let ups = tighten_max (flagged "stretch_role" fast) c in
    let downs = tighten_min (flagged "step_down" fast) c in
    let pays = tighten_floor (flagged "comp_below_floor" fast) c in
    let ages = tighten_age (flagged "posting_stale" fast) c in
    let late : All (IsTightening c) (pays ++ ages) =
      All-append (IsTightening c) pays ages (tighten_floor-IsTightening c _)
        (tighten_age-IsTightening c _) in
    All-append (IsTightening c) ups (downs ++ (pays ++ ages)) (tighten_max-IsTightening c _)
      (All-append (IsTightening c) downs (pays ++ ages) (tighten_min-IsTightening c _) late)
