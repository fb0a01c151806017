-- ===== src/Examples/Store.antt =====
-- A store with a live run, a dead one and a finished one, twenty seconds after the epoch.
use Prim.Native.String.{String}
use Prim.Native.Char.{Char, code}
use huntloop.Base.{
  ℕ, zero, suc, ◌+◌, ◌*◌, ◌/◌, ◌%◌, ◌≡◌, ◌≢◌, refl, ap, ◌∙◌, false, Option, none, some, [], ◌∷◌,
  ◌==◌, if◌then◌else◌, arith, str_eq, eq_iff,
}
use huntloop.Base.Clock.{Time, Iso, RoundTrips, microseconds}
use huntloop.Models.{manual, RunStatus, running, success, zero_counters, Run, Db}
use huntloop.Runs.Ids.{Distinct}
use huntloop.Liveness.{Env}

-- A time as strokes, one kind for seconds and one for microseconds.
abbrev strokes : Char → ℕ → String → String
strokes c zero rest = rest
strokes c (suc n) rest = String.◌∷◌ c (strokes c n rest)

abbrev weight : Char → ℕ
weight c = if code c == 115 then microseconds else 1

abbrev value : String → ℕ
value String.[] = 0
value (String.◌∷◌ c rest) = weight c + value rest

value-strokes :
    (c : Char) (n : ℕ) (rest : String) → value (strokes c n rest) ≡ n * weight c + value rest
value-strokes c zero rest = omega arith
value-strokes c (suc n) rest = omega (arith, value-strokes c n rest)

abbrev pub iso : Iso
iso = record {
  format = λ t. strokes "s" (t / microseconds) (strokes "u" (t % microseconds) String.[]);
  parse = λ s. some (value s);
}

pub iso-RoundTrips : RoundTrips iso
iso-RoundTrips t = ap some (
    value-strokes "s" (t / microseconds) (strokes "u" (t % microseconds) String.[])
    ∙ tail (value-strokes "u" (t % microseconds) String.[]))
  where
    tail :
        value (strokes "u" (t % microseconds) String.[]) ≡ t % microseconds * 1 + 0
        → t / microseconds * microseconds + value (strokes "u" (t % microseconds) String.[]) ≡ t
    tail e = omega (arith, e)

abbrev pub env : Env
env = record {
  iso = iso;
  clock = 20 * microseconds;
  run_stale_after_seconds = 5;
  run_stop_grace_seconds = 3;
}

abbrev pub run_of : String → RunStatus → ℕ → Option Time → Run
run_of id status seconds end = record {
  id = id;
  trigger = manual;
  status = status;
  started_at = seconds * microseconds;
  finished_at = end;
  counters = zero_counters;
  error_summary = none;
}

abbrev pub live : Run
live = run_of "live" running 18 none

abbrev pub dead : Run
dead = run_of "dead" running 2 none

abbrev pub done : Run
done = run_of "done" success 1 (some (2 * microseconds))

abbrev pub two_runs : Db
two_runs = record { runs = dead ∷ done ∷ []; settings = [] }

abbrev pub three_runs : Db
three_runs = record { runs = live ∷ dead ∷ done ∷ []; settings = [] }

pub differ : (a b : String) → str_eq a b ≡ false → a ≢ b
differ a b h e = ground (arith, eq_iff a b, h, e)

pub two_runs-Distinct : Distinct two_runs.runs
two_runs-Distinct = ((differ "done" "dead" refl, tt), (tt, tt))

pub three_runs-Distinct : Distinct three_runs.runs
three_runs-Distinct =
    ((differ "dead" "live" refl, (differ "done" "live" refl, tt)), two_runs-Distinct)
