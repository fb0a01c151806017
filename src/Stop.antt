-- ===== src/Stop.antt =====
-- src/huntloop/graph/cancellation.py: the durable marker by which one process asks another to stop a
-- run, and the two stop gates of src/huntloop/graph/nodes.py that read it.
pub mod Laws
use huntloop.Base.{
  String, Bool, true, false, Option, none, some, if◌then◌else◌, or_default, str_eq, not,
}
use huntloop.Base.Clock.{Time}
use huntloop.Models.{is_running, Run, Json, null, text, other, Db}
use huntloop.Settings
use huntloop.Settings.{Result, ok, ◌>>=◌}
use huntloop.Runs
use huntloop.Liveness.{
  Env, parse_timestamp, stop_request_key, stop_requested_at_key, delete_setting, names,
}

module _ (env : Env) where
  unfoldable pub request_stop : String → Option Time → Db → Result Db
  request_stop run_id now db = do
    marked ← Settings.set_value stop_request_key (text run_id) db.settings
    settings ←
        Settings.set_value (stop_requested_at_key run_id)
          (text (env.iso.format (or_default now env.clock))) marked
    ok (record db { settings = settings })

  unfoldable pub stop_requested_at : String → Db → Option Time
  stop_requested_at run_id db =
      parse_timestamp env (Settings.get_value (stop_requested_at_key run_id) db.settings)

-- `str(value) == str(run_id)`; what `str` prints of a number, a list or an object is no UUID.
unfoldable pub is_stop_requested : String → Db → Bool
unfolding names
is_stop_requested run_id db = names run_id (Settings.get_value stop_request_key db.settings)

abbrev clear_requested_at : Option String → Db → Db
clear_requested_at none db = db
clear_requested_at (some run_id) db = delete_setting (stop_requested_at_key run_id) db

unfoldable pub clear_stop_request : Option String → Db → Db
unfolding delete_setting
clear_stop_request run_id db = clear_requested_at run_id (delete_setting stop_request_key db)

-- Why the gate raises `RunStoppedByUser`.
pub data Stopped : Type 0 where
  no_longer_running requested : Stopped

abbrev row_is_running : Option Run → Bool
row_is_running none = false
row_is_running (some r) = is_running r.status

-- `_raise_if_stop_requested`, the gate between two listings that are scored, which reads the marker only
unfoldable pub listing_gate : String → Db → Option Stopped
unfolding is_stop_requested
listing_gate run_id db = if is_stop_requested run_id db then some requested else none

-- `_raise_if_stop_requested_or_finished`: `none` lets the thread go on
unfoldable pub stop_gate : String → Db → Option Stopped
unfolding listing_gate
stop_gate run_id db =
    if row_is_running (Runs.get run_id db.runs)
    then listing_gate run_id db
    else some no_longer_running
