-- ===== src/Loop/Signals/Laws.antt =====
-- What a history has to hold for its signal.
use huntloop.Base.{
  ℕ, zero, suc, ◌+◌, ◌-◌, ◌*◌, ◌/◌, ◌%◌, ◌≤◌, ◌<◌, ◌≡◌, ◌↔◌, refl, sym, subst, String, true, false,
  ◌&&◌, Option, none, some, List, [], ◌∷◌, if◌then◌else◌, leb, ltb, ◌==◌, any, arith, Bool-cases,
  inl, inr,
}
use huntloop.Base.Sort.{sort}
use huntloop.Base.Clock.{Time, day, ℤ}
use huntloop.Jobs.{
  JobStatus, StatusEvent, new, shortlisted, applied, interviewing, offer, rejected, withdrawn,
}
use huntloop.Loop.{Signal, fast_reject, progressed, neutral}
use huntloop.Loop.Signals.{
  progression_depth, hundredth, scale, round_even, round_tie, pick, nearest, round_days, negated,
  dwell_days, is_fast, earlier, from_fast, from_late, is_rejected, is_withdrawn, max_depth, last_of,
  anchor_of, judge_rejection, classify_ordered, classify_transitions,
}

abbrev NotLater : StatusEvent → StatusEvent → Type 0
NotLater a b = a.changed_at ≤ b.changed_at

pick_near : (n exact float : ℕ) → (n ≤ pick n exact float) × (pick n exact float ≤ suc n)
pick_near n exact float = elim (Bool-cases (ltb exact float)) [
  | inl up ↦ rw up (omega arith, omega arith)
  | inr e ↦ elim (Bool-cases (ltb float exact)) [
    | inl down ↦ rw (e, down) (omega arith, omega arith)
    | inr same ↦ rw (e, same) (omega arith, omega arith)
  ]
]

round_tie_near : (n : ℕ) → (n ≤ round_tie n) × (round_tie n ≤ suc n)
unfolding round_tie
round_tie_near n =
    let exact = (2 * n + 1) * scale 60 (2 * n + 1) in pick_near n exact (200 * round_even exact 200)

-- The float nearest to 10.005 is greater.
round_tie_ten_days : round_tie 1000 ≡ 1001
unfolding round_tie scale round_even
round_tie_ten_days = refl

round_tie-le : (n : ℕ) → (round_tie n ≤ 1000) ↔ (n < 1000)
round_tie-le n = (
  (λ h. elim (Bool-cases (n == 1000)) [
    | inl e ↦
        let same : n ≡ 1000 = ground (arith, e) in
        absurd (let h' = rw (same, round_tie_ten_days) at h in omega (arith, h'))
    | inr e ↦ ground (arith, e, h, (round_tie_near n).0)
  ]),
  (λ h. omega (arith, h, (round_tie_near n).1)),
)

nearest-le :
    (below rest tie : ℕ)
    → rest < hundredth
    → (tie ≤ 1000) ↔ (below < 1000)
    → (leb (nearest below (2 * rest) tie) 1000 ≡ true)
      ↔ (2 * (hundredth * below + rest) < 2001 * hundredth)
nearest-le below rest tie small h = elim (Bool-cases (ltb (2 * rest) hundredth)) [
  | inl less ↦
      let l : 2 * rest < hundredth = ground (arith, less) in
      rw less (
        (λ k. let k' : below ≤ 1000 = ground (arith, k) in omega (arith, l, k')),
        (λ k. let k' : below ≤ 1000 = omega (arith, k) in ground (arith, k')),
      )
  | inr e ↦ elim (Bool-cases (ltb hundredth (2 * rest))) [
    | inl more ↦
        let m : hundredth < 2 * rest = ground (arith, more) in
        rw (e, more)
          (
            (λ k. let k' : suc below ≤ 1000 = ground (arith, k) in omega (arith, small, k')),
            (λ k. let k' : suc below ≤ 1000 = omega (arith, m, k) in ground (arith, k')),
          )
    | inr not_more ↦
        let same : 2 * rest ≡ hundredth = ground (arith, e, not_more) in
        rw (e, not_more)
          (
            (λ k. let k' : tie ≤ 1000 = ground (arith, k) in omega (arith, same, h.0 k')),
            (λ k.
                let k' : below < 1000 = omega (arith, same, k) in
                let t = h.1 k' in ground (arith, t)),
          )
  ]
]

round_days-le : (n : ℕ) → (leb (round_days n) 1000 ≡ true) ↔ (2 * n < 2001 * hundredth)
unfolding round_days
round_days-le n =
    let split : n ≡ hundredth * (n / hundredth) + n % hundredth = omega arith in
    subst (λ m. (leb (round_days n) 1000 ≡ true) ↔ (2 * m < 2001 * hundredth)) (sym split)
      (nearest-le (n / hundredth) (n % hundredth) (round_tie (n / hundredth)) (omega arith)
        (round_tie-le (n / hundredth)))

-- A rejection counts as fast up to ten days, and for the rounding less than 432 seconds more.
abbrev pub WithinTenDays : Time → Time → Type 0
WithinTenDays rejected_at start = rejected_at < start + 10 * day + 432000000

is_fast-negated : (n : ℕ) → is_fast (some (negated n)) ≡ true
is_fast-negated zero = refl
is_fast-negated (suc n) = refl

is_fast-dwell :
    (rejected_at start : Time)
    → (is_fast (dwell_days rejected_at (some start)) ≡ true) ↔ WithinTenDays rejected_at start
unfolding dwell_days
is_fast-dwell rejected_at start = elim (Bool-cases (leb start rejected_at)) [
  | inl e ↦
      let bound = round_days-le (rejected_at - start) in
      let ordered : start ≤ rejected_at = ground (arith, e) in
      rw e ((λ h. omega (arith, ordered, bound.0 h)), (λ h. bound.1 (omega (arith, ordered, h))))
  | inr e ↦
      let reversed : rejected_at ≤ start = ground (arith, e) in
      rw e
        ((λ h. omega (arith, reversed)), (λ h. is_fast-negated (round_days (start - rejected_at))))
]

-- Of a history in the order of its dates: the listing was not withdrawn, its last event is its rejection out
-- of a status in which it was not applied for, and that was soon after the event before, or the first sight.
abbrev pub IsFastReject : Option Time → JobStatus → StatusEvent → List StatusEvent → Type 0
IsFastReject first_seen_at job_status e rest =
    (is_withdrawn job_status ≡ false)
    × ((last_of e rest).to_status ≡ rejected)
    × (from_fast (last_of e rest).from_status ≡ true)
    × ((start : Time) × (anchor_of first_seen_at e rest ≡ some start)
        × WithinTenDays (last_of e rest).changed_at start)

is_rejected-eq : (s : JobStatus) → is_rejected s ≡ true → s ≡ rejected
is_rejected-eq new h = cc
is_rejected-eq shortlisted h = cc
is_rejected-eq applied h = cc
is_rejected-eq interviewing h = cc
is_rejected-eq offer h = cc
is_rejected-eq rejected h = refl
is_rejected-eq withdrawn h = cc

judge_rejection-fast :
    (from_status : JobStatus) (days : Option ℤ)
    → (judge_rejection from_status days ≡ fast_reject)
      ↔ ((from_fast from_status ≡ true) × (is_fast days ≡ true))
judge_rejection-fast new days = ((λ h. ground (arith, h)), (λ h. ground (arith, h)))
judge_rejection-fast shortlisted days = ((λ h. ground (arith, h)), (λ h. ground (arith, h)))
judge_rejection-fast applied days = ((λ h. absurd (cc)), (λ h. absurd (ground (arith, h))))
judge_rejection-fast interviewing days = ((λ h. absurd (cc)), (λ h. absurd (ground (arith, h))))
judge_rejection-fast offer days = ((λ h. absurd (cc)), (λ h. absurd (ground (arith, h))))
judge_rejection-fast rejected days = ((λ h. absurd (cc)), (λ h. absurd (ground (arith, h))))
judge_rejection-fast withdrawn days = ((λ h. absurd (cc)), (λ h. absurd (ground (arith, h))))

is_fast-some :
    (rejected_at : Time) (anchor : Option Time)
    → is_fast (dwell_days rejected_at anchor) ≡ true
    → (start : Time) × (anchor ≡ some start) × WithinTenDays rejected_at start
unfolding dwell_days
is_fast-some rejected_at none h = absurd (cc)
is_fast-some rejected_at (some start) h = (start, refl, (is_fast-dwell rejected_at start).0 h)

-- The signal of the classification, without the rest of its record.
abbrev signal_ordered : Option Time → JobStatus → StatusEvent → List StatusEvent → Signal
signal_ordered first_seen_at job_status e rest =
    let last = last_of e rest in
    if is_withdrawn job_status
    then neutral
    else if is_rejected last.to_status
    then judge_rejection last.from_status
        (dwell_days last.changed_at (anchor_of first_seen_at e rest))
    else if leb 2 (max_depth (e ∷ rest))
    then progressed
    else neutral

classify_transitions-signal :
    (events : List StatusEvent) (first_seen_at : Option Time) (job_status : JobStatus)
    (job_id : Option String) (e : StatusEvent) (rest : List StatusEvent)
    → sort earlier events ≡ e ∷ rest
    → (classify_transitions events first_seen_at job_status job_id).signal
      ≡ signal_ordered first_seen_at job_status e rest
unfolding classify_transitions classify_ordered
classify_transitions-signal events first_seen_at job_status job_id e rest h =
    rw h (elim (Bool-cases (is_withdrawn job_status)) [
      | inl w ↦ rw w refl
      | inr w ↦ elim (Bool-cases (is_rejected (last_of e rest).to_status)) [
        | inl r ↦ rw (w, r) refl
        | inr r ↦ elim (Bool-cases (leb 2 (max_depth (e ∷ rest)))) [
          | inl d ↦ rw (w, r, d) refl
          | inr d ↦ rw (w, r, d) refl
        ]
      ]
    ])

signal_ordered-fast :
    (first_seen_at : Option Time) (job_status : JobStatus) (e : StatusEvent)
    (rest : List StatusEvent)
    → (signal_ordered first_seen_at job_status e rest ≡ fast_reject)
      ↔ IsFastReject first_seen_at job_status e rest
signal_ordered-fast first job_status e rest =
    let last = last_of e rest in
    let anchor = anchor_of first e rest in
    let judged = judge_rejection-fast last.from_status (dwell_days last.changed_at anchor) in
    (
      (λ h. elim (Bool-cases (is_withdrawn job_status)) [
        | inl w ↦ absurd (let h' = rw w at h in cc)
        | inr w ↦ elim (Bool-cases (is_rejected last.to_status)) [
          | inl r ↦
              let both = judged.0 (rw (w, r) at h) in
              (
                w,
                is_rejected-eq last.to_status r,
                both.0,
                is_fast-some last.changed_at anchor both.1,
              )
          | inr r ↦ elim (Bool-cases (leb 2 (max_depth (e ∷ rest)))) [
            | inl d ↦ absurd (let h' = rw (w, r, d) at h in cc)
            | inr d ↦ absurd (let h' = rw (w, r, d) at h in cc)
          ]
        ]
      ]),
      (λ h.
          let (start, anchored, soon) = h.3 in
          let days : is_fast (dwell_days last.changed_at anchor) ≡ true =
            rw anchored ((is_fast-dwell last.changed_at start).1 soon) in
          let is : is_rejected last.to_status ≡ true = rw h.1 refl in
          rw (h.0, is) (judged.1 (h.2, days))),
    )

-- A history of a listing, of which e and rest are the events in the order of their dates, is a fast rejection
-- exactly when the listing was not withdrawn, the last event rejected it out of new or shortlisted, and that
-- was less than ten days and 432 seconds after the event before it, or after the first sight if there is none.
pub classify_transitions_fast :
    (events : List StatusEvent) (first_seen_at : Option Time) (job_status : JobStatus)
    (job_id : Option String) (e : StatusEvent) (rest : List StatusEvent)
    → sort earlier events ≡ e ∷ rest
    → ((classify_transitions events first_seen_at job_status job_id).signal ≡ fast_reject)
      ↔ IsFastReject first_seen_at job_status e rest
classify_transitions_fast events first job_status job_id e rest h =
    subst (λ s. (s ≡ fast_reject) ↔ IsFastReject first job_status e rest)
      (sym (classify_transitions-signal events first job_status job_id e rest h))
      (signal_ordered-fast first job_status e rest)

max_depth-any :
    (events : List StatusEvent)
    → (leb 2 (max_depth events) ≡ true)
      ↔ (any (λ e. leb 2 (progression_depth e.to_status)) events ≡ true)
max_depth-any [] = ((λ h. absurd (cc)), (λ h. absurd (cc)))
max_depth-any (e ∷ rest) =
    let later = max_depth-any rest in
    ((λ h. ground (arith, h, later.0, later.1)), (λ h. ground (arith, h, later.0, later.1)))

judge_rejection-progressed :
    (from_status : JobStatus) (days : Option ℤ)
    → judge_rejection from_status days ≡ progressed
    → 1 ≤ 0
judge_rejection-progressed from_status days h = elim (Bool-cases (from_late from_status)) [
  | inl late ↦ absurd (let h' = rw late at h in cc)
  | inr not_late ↦ elim (Bool-cases (from_fast from_status && is_fast days)) [
    | inl fast ↦ absurd (let h' = rw (not_late, fast) at h in cc)
    | inr slow ↦ absurd (let h' = rw (not_late, slow) at h in cc)
  ]
]

signal_ordered-progressed :
    (first_seen_at : Option Time) (job_status : JobStatus) (e : StatusEvent)
    (rest : List StatusEvent)
    → (signal_ordered first_seen_at job_status e rest ≡ progressed) ↔ (
        (is_withdrawn job_status ≡ false)
        × (is_rejected (last_of e rest).to_status ≡ false)
        × (any (λ x. leb 2 (progression_depth x.to_status)) (e ∷ rest) ≡ true))
signal_ordered-progressed first job_status e rest =
    let reached = max_depth-any (e ∷ rest) in
    (
      (λ h. elim (Bool-cases (is_withdrawn job_status)) [
        | inl w ↦ absurd (let h' = rw w at h in cc)
        | inr w ↦ elim (Bool-cases (is_rejected (last_of e rest).to_status)) [
          | inl r ↦
              let last = last_of e rest in
              let days = dwell_days last.changed_at (anchor_of first e rest) in
              absurd
                (omega (arith, judge_rejection-progressed last.from_status days (rw (w, r) at h)))
          | inr r ↦ elim (Bool-cases (leb 2 (max_depth (e ∷ rest)))) [
            | inl d ↦ (w, r, reached.0 d)
            | inr d ↦ absurd (let h' = rw (w, r, d) at h in cc)
          ]
        ]
      ]),
      (λ h. rw (h.0, h.1, reached.1 h.2) refl),
    )

-- The same history is confirmation of the score exactly when the listing was not withdrawn, its last event did
-- not reject it, and some event took it to applied, interviewing or an offer: shortlisting alone is not enough.
pub classify_transitions_progressed :
    (events : List StatusEvent) (first_seen_at : Option Time) (job_status : JobStatus)
    (job_id : Option String) (e : StatusEvent) (rest : List StatusEvent)
    → sort earlier events ≡ e ∷ rest
    → ((classify_transitions events first_seen_at job_status job_id).signal ≡ progressed) ↔ (
        (is_withdrawn job_status ≡ false)
        × (is_rejected (last_of e rest).to_status ≡ false)
        × (any (λ x. leb 2 (progression_depth x.to_status)) (e ∷ rest) ≡ true))
classify_transitions_progressed events first job_status job_id e rest h =
    subst
      (λ s. (s ≡ progressed) ↔ (
        (is_withdrawn job_status ≡ false)
        × (is_rejected (last_of e rest).to_status ≡ false)
        × (any (λ x. leb 2 (progression_depth x.to_status)) (e ∷ rest) ≡ true)))
      (sym (classify_transitions-signal events first job_status job_id e rest h))
      (signal_ordered-progressed first job_status e rest)
