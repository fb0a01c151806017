-- ===== src/Loop/Signals.antt =====
-- src/huntloop/loop/signals.py: what the stored history of a listing says of its score. The days between two
-- transitions are a quotient of microseconds, rounded to hundredths. The source divides floats: only where the
-- quotient lies midway between two hundredths does the nearest float decide, which is computed here. For less
-- than a hundred years a microsecond is more than the error of the division, so nothing else can differ.
pub mod Laws
use huntloop.Base.{
  ℕ, zero, suc, ◌+◌, ◌-◌, ◌*◌, ◌/◌, ◌%◌, ◌^◌, String, Bool, true, false, not, ◌&&◌, ◌||◌, Option,
  none, some, List, [], ◌∷◌, map, if◌then◌else◌, leb, ltb, ◌==◌, str_eq, select,
}
use huntloop.Base.Sort.{sort}
use huntloop.Base.Clock.{Time, day, ℤ, pos, negsuc}
use huntloop.Jobs.{
  JobStatus, new, shortlisted, applied, interviewing, offer, rejected, withdrawn, StatusEvent, Job,
  Tracker,
}
use huntloop.Registry.{text_le}
use huntloop.Loop.{Signal, fast_reject, late_reject, progressed, neutral, Transition}

pub record JobSignal : Type 0 where
  pub job_id : Option String
  pub signal : Signal
  pub dwell_days : Option ℤ
  pub depth : ℕ
  pub terminal_status : JobStatus
  pub transitions : List Transition

-- `PROGRESSION_DEPTH.get(status, 0)`
abbrev pub progression_depth : JobStatus → ℕ
progression_depth shortlisted = 1
progression_depth applied = 2
progression_depth interviewing = 3
progression_depth offer = 4
progression_depth _ = 0

abbrev pub hundredth : ℕ
hundredth = 864000000

-- `round(n / unit)`, to the even one of two that are as near.
unfoldable pub round_even : ℕ → ℕ → ℕ
round_even n unit =
    let below = n / unit in
    let twice = 2 * (n % unit) in
    if ltb twice unit then below else if ltb unit twice then suc below else below + below % 2

-- The greatest power of two up to `2 ^ e` by which `h / 200` keeps to the 53 bits of a float.
unfoldable pub scale : ℕ → ℕ → ℕ
scale zero h = 1
scale (suc e) h =
    let lower = scale e h in if ltb (h * 2 ^ suc e / 200) (2 ^ 53) then 2 ^ suc e else lower

abbrev pub pick : ℕ → ℕ → ℕ → ℕ
pick n exact float = if ltb exact float then suc n else if ltb float exact then n else n + n % 2

-- `round(x, 2)` of the float nearest to `n` hundredths and a half.
unfoldable pub round_tie : ℕ → ℕ
unfolding scale round_even
round_tie n =
    let h = 2 * n + 1 in let exact = h * scale 60 h in pick n exact (200 * round_even exact 200)

-- Of `below` hundredths, twice the microseconds beyond them, and what a tie is rounded to.
abbrev pub nearest : ℕ → ℕ → ℕ → ℕ
nearest below twice tie =
    if ltb twice hundredth then below else if ltb hundredth twice then suc below else tie

-- `round(seconds / 86400, 2)` in hundredths, of microseconds
unfoldable pub round_days : ℕ → ℕ
unfolding round_tie
round_days n = let below = n / hundredth in nearest below (2 * (n % hundredth)) (round_tie below)

abbrev negated : ℕ → ℤ
negated zero = pos 0
negated (suc n) = negsuc n

abbrev dwell : Time → Time → ℤ
unfolding round_days
dwell rejected_at start =
    if leb start rejected_at
    then pos (round_days (rejected_at - start))
    else negated (round_days (start - rejected_at))

unfoldable pub dwell_days : Time → Option Time → Option ℤ
unfolding dwell
dwell_days rejected_at none = none
dwell_days rejected_at (some start) = some (dwell rejected_at start)

-- `dwell_days is not None and dwell_days <= FAST_REJECT_DWELL_DAYS`, in hundredths
abbrev pub is_fast : Option ℤ → Bool
is_fast none = false
is_fast (some (pos n)) = leb n 1000
is_fast (some (negsuc n)) = true

abbrev pub serialise_transition : StatusEvent → Transition
serialise_transition e = record {
  from_ = e.from_status;
  to = e.to_status;
  changed_at = e.changed_at;
}

abbrev pub earlier : StatusEvent → StatusEvent → Bool
earlier a b = leb a.changed_at b.changed_at

-- `FAST_REJECT_FROM` and `LATE_REJECT_FROM`
abbrev pub from_fast : JobStatus → Bool
from_fast new = true
from_fast shortlisted = true
from_fast _ = false

abbrev pub from_late : JobStatus → Bool
from_late applied = true
from_late interviewing = true
from_late _ = false

abbrev pub is_rejected : JobStatus → Bool
is_rejected rejected = true
is_rejected _ = false

abbrev pub is_withdrawn : JobStatus → Bool
is_withdrawn withdrawn = true
is_withdrawn _ = false

abbrev larger : ℕ → ℕ → ℕ
larger a b = if leb a b then b else a

abbrev pub max_depth : List StatusEvent → ℕ
max_depth [] = 0
max_depth (e ∷ rest) = larger (progression_depth e.to_status) (max_depth rest)

-- `ordered[-1]`, and the date of `ordered[-2]` if there is one, else the one given.
abbrev pub last_of : StatusEvent → List StatusEvent → StatusEvent
last_of e [] = e
last_of e (d ∷ rest) = last_of d rest

abbrev pub anchor_of : Option Time → StatusEvent → List StatusEvent → Option Time
anchor_of first_seen_at e [] = first_seen_at
anchor_of first_seen_at e (d ∷ rest) = anchor_of (some e.changed_at) d rest

-- The signal of a rejection.
abbrev pub judge_rejection : JobStatus → Option ℤ → Signal
judge_rejection from_status days =
    if from_late from_status
    then late_reject
    else if from_fast from_status && is_fast days
    then fast_reject
    else neutral

unfoldable pub classify_ordered :
    (Signal → Option ℤ → ℕ → JobSignal) → Option Time → JobStatus → List StatusEvent → JobSignal
unfolding dwell_days
classify_ordered build first_seen_at job_status [] = build neutral none 0
classify_ordered build first_seen_at job_status (e ∷ rest) =
    let last = last_of e rest in
    let days = dwell_days last.changed_at (anchor_of first_seen_at e rest) in
    let depth = max_depth (e ∷ rest) in
    if is_withdrawn job_status
    then build neutral none 0
    else if is_rejected last.to_status
    then build (judge_rejection last.from_status days) days 0
    else if leb 2 depth
    then build progressed none depth
    else build neutral none depth

abbrev job_of : List StatusEvent → Option String
job_of [] = none
job_of (e ∷ rest) = some e.job_id

abbrev first_some : Option String → Option String → Option String
first_some none other = other
first_some (some id) other = some id

unfoldable pub classify_transitions :
    List StatusEvent → Option Time → JobStatus → Option String → JobSignal
unfolding classify_ordered
classify_transitions events first_seen_at job_status job_id =
    let chronological = sort earlier events in
    classify_ordered
      (λ signal days depth. record {
        job_id = first_some job_id (job_of chronological);
        signal = signal;
        dwell_days = days;
        depth = depth;
        terminal_status = job_status;
        transitions = map serialise_transition chronological;
      })
      first_seen_at job_status chronological

abbrev by_id : Job → Job → Bool
by_id a b = text_le a.id b.id

-- `max` of the dates of a group, and `latest < since`.
abbrev latest : Time → List StatusEvent → Time
latest t [] = t
latest t (e ∷ rest) = latest (larger t e.changed_at) rest

abbrev too_old : Option Time → StatusEvent → List StatusEvent → Bool
too_old none e rest = false
too_old (some since) e rest = ltb (latest e.changed_at rest) since

abbrev signal_of : Option Time → Job → List StatusEvent → List JobSignal → List JobSignal
unfolding classify_transitions
signal_of since j [] signals = signals
signal_of since j (e ∷ rest) signals =
    if too_old since e rest
    then signals
    else classify_transitions (e ∷ rest) (some j.first_seen_at) j.status (some j.id) ∷ signals

-- The rows of the join, ordered by job and date, and grouped by job. Of two events of the same instant,
-- which the query leaves in any order, the first in the list is the earlier one.
abbrev signals_from : Option Time → List StatusEvent → List Job → List JobSignal
unfolding signal_of
signals_from since events [] = []
signals_from since events (j ∷ rest) =
    signal_of since j (sort earlier (select (λ e. str_eq e.job_id j.id) events))
      (signals_from since events rest)

unfoldable pub collect_signals : Option Time → Tracker → List JobSignal
unfolding signals_from
collect_signals since t = signals_from since t.events (sort by_id t.jobs)
