-- ===== src/Server/Recovery/Events.antt =====
-- The store's recovery calls as one step function, with the constants of
-- crates/mpc-server/src/recovery.rs. A history is a list of calls, each at the unix time when the
-- store reads the clock; a call that fails leaves the database as it was.
use mpc_ext.Base.{ℕ, ◌*◌, List, [], ◌∷◌}
use mpc_ext.Server.Types.{Text, Blob, Db}
use mpc_ext.Server.Recovery.{
  register_device_key, create_recovery_request, start_recovery_cooling, complete_recovery,
  cancel_recovery,
}

abbrev pub request_ttl_seconds : ℕ
request_ttl_seconds = 900

abbrev pub complete_window_seconds : ℕ
complete_window_seconds = 72 * 3600

abbrev pub max_requests_per_hour : ℕ
max_requests_per_hour = 5

abbrev pub default_cooling_seconds : ℕ
default_cooling_seconds = 24 * 3600

pub data Call : Type 0 where
  registers : Text → Blob → Call
  creates : Text → Text → Blob → Call
  starts : Text → Text → Call
  completes : Text → Text → Call
  cancels : Text → Text → Call

-- `cooling_seconds` is the server's setting.
unfoldable pub step : ℕ → ℕ × Call → Db → Db
step cooling_seconds (now, registers w key) db = (register_device_key w key db).1
step cooling_seconds (now, creates rid w key) db =
    (create_recovery_request rid w key request_ttl_seconds max_requests_per_hour now db).1
step cooling_seconds (now, starts rid w) db =
    (start_recovery_cooling rid w cooling_seconds complete_window_seconds now db).1
step cooling_seconds (now, completes rid w) db = (complete_recovery rid w now db).1
step cooling_seconds (now, cancels rid w) db = (cancel_recovery rid w db).1

unfoldable pub run : ℕ → List (ℕ × Call) → Db → Db
run cooling_seconds [] db = db
run cooling_seconds (c ∷ cs) db = run cooling_seconds cs (step cooling_seconds c db)
