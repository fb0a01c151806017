-- ===== src/Runs.antt =====
-- src/huntloop/db/repository.py, `RunRepository`: the one place that writes a row of `runs`.
pub mod Laws
pub mod Ids
use huntloop.Base.{
  ℕ, String, Bool, true, false, Option, none, some, List, [], ◌∷◌, if◌then◌else◌, str_eq, take, leb,
}
use huntloop.Base.Clock.{Time}
use huntloop.Models.{RunTrigger, RunStatus, running, is_running, Counters, zero_counters, Run, Db}

-- `session.get(Run, run_id)`
unfoldable pub get : String → List Run → Option Run
get id [] = none
get id (r ∷ rest) = let later = get id rest in if str_eq r.id id then some r else later

-- What a mutation of the object that `get` returned does to the table.
unfoldable pub put : Run → List Run → List Run
put run [] = []
put run (r ∷ rest) =
    let later = put run rest in if str_eq r.id run.id then run ∷ rest else r ∷ later

-- `start`; the new UUID and the clock are given
unfoldable pub start : String → RunTrigger → Time → Run
start id trigger clock = record {
  id = id;
  trigger = trigger;
  status = running;
  started_at = clock;
  finished_at = none;
  counters = zero_counters;
  error_summary = none;
}

unfoldable pub add : Run → Db → Db
add run db = record db { runs = run ∷ db.runs }

-- The keyword arguments of `finish`.
pub record Finish : Type 0 where
  pub status : RunStatus
  pub counters : Counters
  pub error_summary : Option String

abbrev keep_summary : Option String → Option String → Option String
keep_summary none old = old
keep_summary (some new) old = some new

-- `_apply_finish`
unfoldable pub apply_finish : Finish → Time → Run → Run
apply_finish f clock run = record run {
  status = f.status;
  counters = f.counters;
  error_summary = keep_summary f.error_summary run.error_summary;
  finished_at = some clock;
}

abbrev finished : Finish → Time → Db → Run → Db × Option Run
finished f clock db run =
    let run' = apply_finish f clock run in (record db { runs = put run' db.runs }, some run')

-- `finish` on an absent row is an AttributeError, here `none` with nothing written.
abbrev finish_row : Finish → Time → Db → Option Run → Db × Option Run
finish_row f clock db none = (db, none)
finish_row f clock db (some run) = finished f clock db run

unfoldable pub finish : String → Finish → Time → Db → Db × Option Run
unfolding apply_finish
finish id f clock db = finish_row f clock db (get id db.runs)

abbrev finish_running_row : Finish → Time → Db → Option Run → Db × Option Run
finish_running_row f clock db none = (db, none)
finish_running_row f clock db (some run) =
    if is_running run.status then finished f clock db run else (db, none)

unfoldable pub finish_if_running : String → Finish → Time → Db → Db × Option Run
unfolding apply_finish
finish_if_running id f clock db = finish_running_row f clock db (get id db.runs)

-- Insertion by `started_at`, newest first.
unfoldable pub insert_newest : Run → List Run → List Run
insert_newest r [] = r ∷ []
insert_newest r (s ∷ rest) =
    let later = insert_newest r rest in
    if leb s.started_at r.started_at then r ∷ s ∷ rest else s ∷ later

unfoldable pub newest_first : List Run → List Run
newest_first [] = []
newest_first (r ∷ rest) = insert_newest r (newest_first rest)

-- ORDER BY started_at DESC LIMIT
unfoldable pub list_recent : ℕ → Db → List Run
unfolding newest_first insert_newest
list_recent limit db = take limit (newest_first db.runs)
