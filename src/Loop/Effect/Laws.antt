-- ===== src/Loop/Effect/Laws.antt =====
-- That tightening takes nothing back.
use huntloop.Base.{
  ℕ, ◌≤◌, ◌<◌, ◌≡◌, refl, sym, subst, String, Bool, true, false, not, ◌&&◌, Option, none, some,
  List, if◌then◌else◌, ltb, leb, select-false, All, All-map, arith, Bool-cases, Option-cases, inl,
  inr,
}
use huntloop.Base.Clock.{Time}
use huntloop.Scoring.{Rung, index, CompensationFloor, CriteriaPayload}
use huntloop.Scoring.Filters.Laws.{is_too_old, check_posting_age_drops}
use huntloop.Scoring.Compensation.{FloorComparison, above, below, not_comparable, compare_to_floor}
use huntloop.Scoring.Flags.{detect_seniority}
use huntloop.Loop.{
  EditField, seniority_min, seniority_max, posting_age_days, compensation_floor, Value, rung, days,
  floor, Supported, supported,
}
use huntloop.Loop.Detect.{BacklogJob, Listed}
use huntloop.Loop.Detect.Flags.{track_b}
use huntloop.Loop.Detect.Flags.Laws.{
  IsTightening, track_b-IsTightening, LowersMax, RaisesMin, RaisesFloor, Tightens, current_of,
}
use huntloop.Loop.Generate.Fields.{permitted-field_name}
use huntloop.Loop.Generate.{changes_for}
use huntloop.Loop.Tiers.{Reading, load_live_backlog}
use huntloop.Loop.Tiers.Filters.{decide_age, newly_kept, predict_filter_change}
use huntloop.Loop.Tiers.Flags.{
  rises, predict_flag_change, seniority_flag_raised, bounded, seniority_flag, known,
  comp_below_floor,
}
use huntloop.Loop.Effect.{Effect, filter_dry_run, flag_recompute, effect_on, predict_effect}

aged_out :
    (posted_at : Option Time) (before after : ℕ) (now : Time)
    → after ≤ before
    → (is_too_old posted_at (some before) now && not (is_too_old posted_at (some after) now))
      ≡ false
aged_out none before after now le = refl
aged_out (some t) before after now le = ground (arith, le)

older-newly_kept :
    (now : Time) (before after : ℕ)
    → after ≤ before
    → (j : BacklogJob) → newly_kept (decide_age now before) (decide_age now after) j ≡ false
unfolding decide_age
older-newly_kept now before after le j =
    rw
      (
        check_posting_age_drops j.posted_at (some before) now,
        check_posting_age_drops j.posted_at (some after) now,
      )
      (aged_out j.posted_at before after now le)

-- A bound that was moved inwards still flags what it flagged.
lower-rises :
    (old new : Rung) (detected : Option Rung)
    → index new ≤ index old
    → rises (bounded (some new) true detected) (bounded (some old) true detected) ≡ false
unfolding seniority_flag_raised
lower-rises old new none le = refl
lower-rises old new (some d) le = elim (Bool-cases (ltb (index old) (index d))) [
  | inl e ↦ let e' : ltb (index new) (index d) ≡ true = ground (arith, e, le) in rw (e, e') refl
  | inr e ↦ elim (Bool-cases (ltb (index new) (index d))) [
    | inl e' ↦ rw (e, e') refl
    | inr e' ↦ rw (e, e') refl
  ]
]

higher-rises :
    (old new : Rung) (detected : Option Rung)
    → index old ≤ index new
    → rises (bounded (some new) false detected) (bounded (some old) false detected) ≡ false
unfolding seniority_flag_raised
higher-rises old new none le = refl
higher-rises old new (some d) le = elim (Bool-cases (ltb (index d) (index old))) [
  | inl e ↦ let e' : ltb (index d) (index new) ≡ true = ground (arith, e, le) in rw (e, e') refl
  | inr e ↦ elim (Bool-cases (ltb (index d) (index new))) [
    | inl e' ↦ rw (e, e') refl
    | inr e' ↦ rw (e, e') refl
  ]
]

abbrev compared : Bool → Bool → ℕ → ℕ → FloorComparison
compared currency period minimum amount =
    if currency
    then if period then if leb amount minimum then above else below else not_comparable
    else not_comparable

sides :
    (after before : Bool)
    → (after ≡ true → before ≡ true)
    → rises (known (if after then above else below)) (known (if before then above else below))
      ≡ false
sides true true h = refl
sides true false h = absurd (let h' = h refl in cc)
sides false true h = refl
sides false false h = refl

compared-rises :
    (currency period : Bool) (minimum old new : ℕ)
    → old < new
    → rises
        (known (compared currency period minimum new))
        (known (compared currency period minimum old))
      ≡ false
compared-rises false period minimum old new lt = refl
compared-rises true false minimum old new lt = refl
compared-rises true true minimum old new lt =
    sides (leb new minimum) (leb old minimum) (λ e. ground (arith, e, lt))

floor-rises :
    (c : CriteriaPayload) (f : CompensationFloor)
    → RaisesFloor c f
    → (j : BacklogJob)
    → rises (comp_below_floor f j) (comp_below_floor c.compensation_floor j) ≡ false
unfolding comp_below_floor compare_to_floor
floor-rises c f (old, new, was, is, lt, currency, period) j = elim (Option-cases j.comp_min) [
  | inl e ↦ rw e refl
  | inr (m, e) ↦ rw (e, was, is, currency, period) (compared-rises _ _ m old new lt)
]

-- An effect that only takes away: no listing comes back, and no flag is dropped.
abbrev pub OnlyTightens : Supported Effect → Type 0
OnlyTightens (supported (filter_dry_run field e)) = e.would_include ≡ 0
OnlyTightens (supported (flag_recompute field e)) = e.would_unflag ≡ 0
OnlyTightens _ = 1 ≤ 0

module _ (io : Reading) (now : Time) (names : List (String × String)) (jobs : List BacklogJob) where
  abbrev Tightened : EditField → Value → Value → Type 0
  Tightened field before after =
      OnlyTightens (supported (effect_on io now names jobs field before after))

  effect_on-max :
      (c : CriteriaPayload) (new : Option Rung)
      → LowersMax c new
      → Tightened seniority_max (rung c.seniority_max) (rung new)
  unfolding effect_on predict_flag_change seniority_flag
  effect_on-max c none h = absurd (omega (arith, h))
  effect_on-max c (some new) (old, was, step, low) = rw was (
      select-false _ (load_live_backlog jobs) (λ j.
        lower-rises old new (detect_seniority io.search (λ description. none) j.title)
          (omega (arith, step))))

  effect_on-min :
      (c : CriteriaPayload) (new : Option Rung)
      → RaisesMin c new
      → Tightened seniority_min (rung c.seniority_min) (rung new)
  unfolding effect_on predict_flag_change seniority_flag
  effect_on-min c none h = absurd (omega (arith, h))
  effect_on-min c (some new) (old, was, step, high) = rw was (
      select-false _ (load_live_backlog jobs) (λ j.
        higher-rises old new (detect_seniority io.search (λ description. none) j.title)
          (omega (arith, step))))

  effect_on-floor :
      (c : CriteriaPayload) (f : CompensationFloor)
      → RaisesFloor c f
      → Tightened compensation_floor (floor c.compensation_floor) (floor f)
  unfolding effect_on predict_flag_change
  effect_on-floor c f h = select-false _ (load_live_backlog jobs) (floor-rises c f h)

  effect_on-age :
      (c : CriteriaPayload) (n : ℕ)
      → n < c.posting_age_days
      → Tightened posting_age_days (days c.posting_age_days) (days n)
  unfolding effect_on predict_filter_change
  effect_on-age c n lt =
      select-false _ (load_live_backlog jobs)
        (older-newly_kept now c.posting_age_days n (omega (arith, lt)))

  effect_on-Tightens :
      (c : CriteriaPayload) (field : EditField) (value current : Value)
      → Tightens c field value
      → Tightened field (current_of c field current) value
  effect_on-Tightens c seniority_max (rung new) current h = effect_on-max c new h
  effect_on-Tightens c seniority_min (rung new) current h = effect_on-min c new h
  effect_on-Tightens c compensation_floor (floor f) current h = effect_on-floor c f h
  effect_on-Tightens c posting_age_days (days n) current h = effect_on-age c n h.1
  effect_on-Tightens c _ _ current h = absurd (omega (arith, h))

  -- What a raised flag leads to is predicted to do what it says: the proposal has a predicted effect, and for no
  -- backlog does that effect bring back a listing or drop a flag.
  pub track_b-OnlyTightens :
      (fast : List Listed) (c : CriteriaPayload)
      → All (λ e. OnlyTightens (predict_effect io now names jobs (changes_for e))) (track_b fast c)
  unfolding predict_effect
  track_b-OnlyTightens fast c =
      All-map (IsTightening c) _ (track_b fast c)
        (λ e h. rw (permitted-field_name e.field) (
          subst (λ v. Tightened e.field v e.proposed_value) (sym h.1)
            (effect_on-Tightens c e.field e.proposed_value e.current_value h.2)))
        (track_b-IsTightening fast c)
