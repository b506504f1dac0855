-- ===== src/Server/Recovery.antt =====
-- The recovery methods of crates/mpc-server/src/store.rs. Each takes the unix time that it reads
-- at its start and returns its result with the database after the call. A transaction that returns
-- before its commit leaves the database as it was.
pub mod Events
pub mod Completion
pub mod CoolingOff
pub mod KeySwap
pub mod Limits
pub mod State
pub mod OneCooling
pub mod Settled
use mpc_ext.Base.{
  ℕ, ◌+◌, ◌-◌, ◌≡◌, List, [], ◌∷◌, Option, none, some, Bool, true, false, not, ◌&&◌, ◌||◌, ltb, leb,
  ◌==◌, if◌then◌else◌, is_some, find_where, update_where, count_where, select_where,
}
use mpc_ext.Server.Types.{
  Text, Blob, Error, Status, RecoveryRequest, DeviceKey, AuditEvent, AuditRow, Db, is_cooling,
  is_awaiting, is_open,
}

pub data CoolingStart : Type 0 where
  started : ℕ → CoolingStart
  not_awaiting : CoolingStart
  another_cooling : CoolingStart

pub data RecoveryCompletion : Type 0 where
  done : RecoveryCompletion
  not_ready : ℕ → RecoveryCompletion
  gone : RecoveryCompletion

-- INSERT INTO audit_log.
unfoldable pub log_event : Text → AuditEvent → Db → Db
log_event w e db = record db {
  audit_log = record { wallet_id = w; event = e; detail = none } ∷ db.audit_log;
}

-- WHERE request_id = ? AND wallet_id = ? AND new_device_key IS NOT NULL
abbrev pub names_request : Text → Text → RecoveryRequest → Bool
names_request rid w r = (r.request_id == rid) && (r.wallet_id == w) && is_some r.new_device_key

unfoldable pub recovery_request : Text → Text → Db → Option RecoveryRequest
recovery_request rid w db = find_where (names_request rid w) db.recovery_requests

unfoldable pub device_key : Text → Db → Option Blob
device_key w db = elim (find_where (λ k. k.wallet_id == w) db.device_keys) [
  | none ↦ none
  | some k ↦ some k.public_key
]

-- INSERT … ON CONFLICT(wallet_id) DO NOTHING; the result is whether a row was inserted.
unfoldable pub register_device_key : Text → Blob → Db → Bool × Db
register_device_key w key db =
    if is_some (find_where (λ k. k.wallet_id == w) db.device_keys) then (false, db) else (
      true,
      record db { device_keys = record { wallet_id = w; public_key = key } ∷ db.device_keys },
    )

-- INSERT … ON CONFLICT(wallet_id) DO UPDATE SET public_key.
unfoldable pub replace_device_key : Text → Blob → Db → Db
replace_device_key w key db =
    if is_some (find_where (λ k. k.wallet_id == w) db.device_keys)
    then record db {
      device_keys =
          update_where (λ k. k.wallet_id == w) (λ k. record k { public_key = key }) db.device_keys;
    }
    else record db { device_keys = record { wallet_id = w; public_key = key } ∷ db.device_keys }

-- A request of the wallet made in the hour before `now`.
abbrev pub is_recent : Text → ℕ → RecoveryRequest → Bool
is_recent w now r = (r.wallet_id == w) && leb (now - 3600) r.created_unix

abbrev pub new_request : Text → Text → Blob → ℕ → ℕ → RecoveryRequest
new_request rid w key ttl_seconds now = record {
  request_id = rid;
  wallet_id = w;
  status = Status.awaiting_assertion;
  new_device_key = some key;
  created_unix = now;
  expires_unix = now + ttl_seconds;
  ready_unix = none;
}

-- `none` is the database's refusal of a request id that is already there.
unfoldable pub create_recovery_request : Text → Text → Blob → ℕ → ℕ → ℕ → Db → Option Bool × Db
unfolding log_event
create_recovery_request rid w key ttl_seconds max_per_hour now db =
    if leb max_per_hour (count_where (is_recent w now) db.recovery_requests)
    then (some false, db)
    else if is_some (find_where (λ r. r.request_id == rid) db.recovery_requests)
    then (none, db)
    else (
      some true,
      log_event w AuditEvent.recovery_requested (record db {
        recovery_requests = new_request rid w key ttl_seconds now ∷ db.recovery_requests;
      }),
    )

-- WHERE wallet_id = ? AND status = 'cooling'
abbrev pub cools : Text → RecoveryRequest → Bool
cools w r = (r.wallet_id == w) && is_cooling r.status

-- UPDATE … SET status = 'expired' WHERE wallet_id = ? AND status = 'cooling' AND expires_unix < ?
unfoldable pub sweep_cooling : Text → ℕ → List RecoveryRequest → List RecoveryRequest
sweep_cooling w now =
    update_where (λ r. cools w r && ltb r.expires_unix now)
      (λ r. record r { status = Status.expired })

-- WHERE request_id = ? AND wallet_id = ? AND status = 'awaiting_assertion' AND expires_unix >= ?
abbrev pub awaits : Text → Text → ℕ → RecoveryRequest → Bool
awaits rid w now r =
    (r.request_id == rid) && (r.wallet_id == w) && is_awaiting r.status && leb now r.expires_unix

unfoldable pub begin_cooling : Text → Text → ℕ → ℕ → ℕ → List RecoveryRequest → List RecoveryRequest
begin_cooling rid w now ready last =
    update_where (awaits rid w now)
      (λ r. record r { status = Status.cooling; ready_unix = some ready; expires_unix = last })

-- The unique index recovery_one_cooling rejects the update when another request of the wallet is
-- cooling already.
unfoldable pub start_recovery_cooling : Text → Text → ℕ → ℕ → ℕ → Db → CoolingStart × Db
unfolding log_event
start_recovery_cooling rid w cooling_seconds complete_window_seconds now db =
    if ltb 1 (count_where (cools w) updated)
    then (another_cooling, db)
    else if count_where (awaits rid w now) swept == 1
    then (
      started ready,
      log_event w AuditEvent.recovery_cooling (record db { recovery_requests = updated }),
    )
    else (not_awaiting, db)
  where
    ready : ℕ
    ready = now + cooling_seconds

    swept : List RecoveryRequest
    swept = sweep_cooling w now db.recovery_requests

    updated : List RecoveryRequest
    updated = begin_cooling rid w now ready (ready + complete_window_seconds) swept

-- UPDATE … SET status = 'completed' WHERE request_id = ?, and the end of the wallet's other open
-- requests.
unfoldable pub end_requests : Text → Text → List RecoveryRequest → List RecoveryRequest
end_requests rid w rs =
    update_where (λ r. (r.wallet_id == w) && not (r.request_id == rid) && is_open r.status)
      (λ r. record r { status = Status.cancelled })
      (update_where (λ r. r.request_id == rid) (λ r. record r { status = Status.completed }) rs)

-- What complete_recovery decides from the row that it read.
unfoldable pub judge : Option RecoveryRequest → ℕ → RecoveryCompletion
judge none now = gone
judge (some r) now = elim r.ready_unix [
  | none ↦ gone
  | some ready ↦
      if not (is_cooling r.status) || ltb r.expires_unix now
      then gone
      else if ltb now ready
      then not_ready ready
      else done
]

-- The writes of complete_recovery, once the row passed.
unfoldable pub take_over : Text → Text → Blob → Db → Db
unfolding log_event
take_over rid w key db =
    let keyed = replace_device_key w key db in
    log_event w AuditEvent.recovery_completed
      (record keyed { recovery_requests = end_requests rid w keyed.recovery_requests })

-- The key column is not null in a row that the query returns.
unfoldable pub commit_row : Text → Text → Option Blob → Db → Db
unfolding take_over
commit_row rid w none db = db
commit_row rid w (some key) db = take_over rid w key db

unfoldable pub commit_recovery : Text → Text → Option RecoveryRequest → Db → Db
unfolding commit_row
commit_recovery rid w none db = db
commit_recovery rid w (some r) db = commit_row rid w r.new_device_key db

-- The early returns write nothing.
unfoldable pub conclude :
    RecoveryCompletion → Text → Text → Option RecoveryRequest → Db → RecoveryCompletion × Db
unfolding commit_recovery
conclude done rid w row db = (done, commit_recovery rid w row db)
conclude (not_ready ready) rid w row db = (not_ready ready, db)
conclude gone rid w row db = (gone, db)

unfoldable pub complete_recovery : Text → Text → ℕ → Db → RecoveryCompletion × Db
unfolding conclude
complete_recovery rid w now db =
    let row = recovery_request rid w db in conclude (judge row now) rid w row db

-- WHERE request_id = ? AND wallet_id = ? AND status IN ('awaiting_assertion', 'cooling')
abbrev pub cancellable : Text → Text → RecoveryRequest → Bool
cancellable rid w r = (r.request_id == rid) && (r.wallet_id == w) && is_open r.status

unfoldable pub cancel_recovery : Text → Text → Db → Bool × Db
unfolding log_event
cancel_recovery rid w db =
    if count_where (cancellable rid w) db.recovery_requests == 1
    then (
      true,
      log_event w AuditEvent.recovery_cancelled (record db {
        recovery_requests =
            update_where (cancellable rid w) (λ r. record r { status = Status.cancelled })
              db.recovery_requests;
      }),
    )
    else (false, db)

-- WHERE wallet_id = ? AND status = 'cooling' AND expires_unix >= ? AND new_device_key IS NOT NULL
abbrev pub is_live : Text → ℕ → RecoveryRequest → Bool
is_live w now r = cools w r && leb now r.expires_unix && is_some r.new_device_key

-- ORDER BY created_unix: each row goes before the first that is younger.
unfoldable pub insert_by_age : RecoveryRequest → List RecoveryRequest → List RecoveryRequest
insert_by_age r [] = r ∷ []
insert_by_age r (x ∷ xs) =
    if leb r.created_unix x.created_unix then r ∷ x ∷ xs else x ∷ insert_by_age r xs

unfoldable pub order_by_age : List RecoveryRequest → List RecoveryRequest
unfolding insert_by_age
order_by_age [] = []
order_by_age (r ∷ rs) = insert_by_age r (order_by_age rs)

unfoldable pub live_recoveries : Text → ℕ → Db → List RecoveryRequest
live_recoveries w now db = order_by_age (select_where (is_live w now) db.recovery_requests)
