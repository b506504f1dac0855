-- ===== src/Server/Handlers.antt =====
-- The handlers of crates/mpc-server/src/recovery.rs that are signed with a device key: status,
-- complete, pending and cancel. Each takes the readings of the clock that it makes, in their order.
pub mod Guards
use mpc_ext.Base.{ℕ, List, [], ◌∷◌, Option, none, some, Bool, true, false, not, ◌&&◌, if◌then◌else◌}
use mpc_ext.Server.Types.{Text, Blob, Error, Db, RecoveryRequest, recovery}
use mpc_ext.Server.Clock.{Stamps}
use mpc_ext.Server.Auth.{
  Proof, Verifier, Reading, Access, granted, denied, authenticate, authenticate_with_key,
}
use mpc_ext.Server.Grants.{consume_passkey_authorization}
use mpc_ext.Server.Recovery.{
  CoolingStart, RecoveryCompletion, started, not_awaiting, another_cooling, done, not_ready, gone,
  recovery_request, start_recovery_cooling, complete_recovery, cancel_recovery, live_recoveries,
}
use mpc_ext.Server.Recovery.Events.{complete_window_seconds}
use mpc_ext.Server.Recovery.State.{RecoveryState, awaiting, state_of}

pub record RecoveryCall : Type 0 where
  pub wallet_id : Text
  pub request_id : Text

pub record PendingRecovery : Type 0 where
  pub request_id : Text
  pub requested_at : ℕ
  pub ready_at : ℕ
  pub key_fingerprint : Text

-- The checks of the two ids as texts, and the SHA-256 digests.
pub record Formats : Type 0 where
  pub is_wallet_id : Text → Bool
  pub is_hex32 : Text → Bool
  pub assertion_digest : Text → Blob → Text → Text
  pub key_fingerprint : Blob → Text

-- The readings of `status`: for the proof, the first state, the grant (twice), the start of the
-- cooling-off period and the last state.
pub record Moments : Type 0 where
  pub proof : Reading
  pub first : ℕ
  pub mark : ℕ
  pub grant : ℕ
  pub start : ℕ
  pub last : ℕ

pub data Reply (A : Type 0) : Type 0 where
  reply : A → Reply A
  failed : Error → Reply A

abbrev pub post : Text
post = 1

abbrev pub status_path : Text
status_path = 11

abbrev pub complete_path : Text
complete_path = 12

abbrev pub pending_path : Text
pending_path = 13

abbrev pub cancel_path : Text
cancel_path = 14

abbrev pub is_awaiting_state : RecoveryState → Bool
is_awaiting_state awaiting = true
is_awaiting_state _ = false

module _ (s : Stamps) (v : Verifier) (f : Formats) where
  -- The reply once the proof with the request's key has been checked.
  unfoldable pub admit : RecoveryRequest → Access × Db → Reply RecoveryRequest × Db
  admit r (granted, db) = (reply r, db)
  admit r (denied e, db) = (failed e, db)

  -- A row that the query returns has a key.
  unfoldable pub check_own_key :
      Text
      → Text
      → Text
      → Proof
      → Reading
      → Db
      → RecoveryRequest
      → Option Blob
      → Reply RecoveryRequest × Db
  unfolding admit authenticate_with_key
  check_own_key path w raw p t db r none = (failed Error.authentication, db)
  check_own_key path w raw p t db r (some key) =
      admit r (authenticate_with_key s v post path w raw key p t db)

  unfoldable pub check_found :
      Text
      → Text
      → Text
      → Proof
      → Reading
      → Db
      → Option RecoveryRequest
      → Reply RecoveryRequest × Db
  unfolding check_own_key
  check_found path w raw p t db none = (failed Error.authentication, db)
  check_found path w raw p t db (some r) = check_own_key path w raw p t db r r.new_device_key

  unfoldable pub authenticated_request :
      Text → RecoveryCall → Text → Proof → Reading → Db → Reply RecoveryRequest × Db
  unfolding check_found
  authenticated_request path call raw p t db =
      if f.is_wallet_id call.wallet_id && f.is_hex32 call.request_id
      then check_found path call.wallet_id raw p t db
          (recovery_request call.request_id call.wallet_id db)
      else (failed Error.authentication, db)

  unfoldable pub reread : ℕ → Option RecoveryRequest → Db → Reply RecoveryState × Db
  unfolding state_of
  reread now none db = (failed Error.authentication, db)
  reread now (some r) db = (reply (state_of r now), db)

  unfoldable pub after_start : RecoveryCall → ℕ → CoolingStart × Db → Reply RecoveryState × Db
  unfolding reread
  after_start call last (another_cooling, db) = (failed Error.protocol, db)
  after_start call last (not_awaiting, db) =
      reread last (recovery_request call.request_id call.wallet_id db) db
  after_start call last (started _, db) =
      reread last (recovery_request call.request_id call.wallet_id db) db

  -- What `status` does with the grant that it looked for.
  unfoldable pub after_grant :
      ℕ → RecoveryCall → Moments → RecoveryRequest → Bool × Db → Reply RecoveryState × Db
  unfolding after_start state_of
  after_grant cooling_seconds call m r (false, db) = (reply (state_of r m.last), db)
  after_grant cooling_seconds call m r (true, db) = after_start call m.last (
      start_recovery_cooling call.request_id call.wallet_id cooling_seconds complete_window_seconds
        m.start db)

  -- The grant is bound to the key that the request names.
  unfoldable pub look_for_grant :
      ℕ → RecoveryCall → Moments → RecoveryRequest → Option Blob → Db → Reply RecoveryState × Db
  unfolding after_grant
  look_for_grant cooling_seconds call m r none db = (failed Error.authentication, db)
  look_for_grant cooling_seconds call m r (some key) db = after_grant cooling_seconds call m r (
      consume_passkey_authorization s call.wallet_id recovery call.request_id
        (f.assertion_digest call.wallet_id key call.request_id) m.mark m.grant db)

  unfoldable pub report :
      ℕ → RecoveryCall → Moments → Reply RecoveryRequest × Db → Reply RecoveryState × Db
  unfolding look_for_grant state_of
  report cooling_seconds call m (failed e, db) = (failed e, db)
  report cooling_seconds call m (reply r, db) =
      if is_awaiting_state (state_of r m.first)
      then look_for_grant cooling_seconds call m r r.new_device_key db
      else (reply (state_of r m.last), db)

  unfoldable pub status : ℕ → RecoveryCall → Text → Proof → Moments → Db → Reply RecoveryState × Db
  unfolding report authenticated_request
  status cooling_seconds call raw p m db =
      report cooling_seconds call m (authenticated_request status_path call raw p m.proof db)

  unfoldable pub answer_completion : RecoveryCompletion × Db → Reply (Unit {0}) × Db
  answer_completion (done, db) = (reply tt, db)
  answer_completion (not_ready _, db) = (failed Error.protocol, db)
  answer_completion (gone, db) = (failed Error.unknown_session, db)

  unfoldable pub complete_admitted :
      RecoveryCall → ℕ → Reply RecoveryRequest × Db → Reply (Unit {0}) × Db
  unfolding answer_completion
  complete_admitted call now (failed e, db) = (failed e, db)
  complete_admitted call now (reply r, db) =
      answer_completion (complete_recovery call.request_id call.wallet_id now db)

  unfoldable pub complete : RecoveryCall → Text → Proof → Reading → ℕ → Db → Reply (Unit {0}) × Db
  unfolding complete_admitted authenticated_request
  complete call raw p t now db =
      complete_admitted call now (authenticated_request complete_path call raw p t db)

  -- A row with no ready_unix is left out.
  unfoldable pub pending_rows : List RecoveryRequest → List PendingRecovery
  pending_rows [] = []
  pending_rows (r ∷ rs) = elim r.ready_unix [
    | none ↦ pending_rows rs
    | some at ↦ elim r.new_device_key [
      | none ↦ pending_rows rs
      | some key ↦
          record {
            request_id = r.request_id;
            requested_at = r.created_unix;
            ready_at = at;
            key_fingerprint = f.key_fingerprint key;
          }
          ∷ pending_rows rs
    ]
  ]

  unfoldable pub list_pending : Text → ℕ → Access × Db → Reply (List PendingRecovery) × Db
  unfolding pending_rows
  list_pending w now (denied e, db) = (failed e, db)
  list_pending w now (granted, db) = (reply (pending_rows (live_recoveries w now db)), db)

  unfoldable pub pending :
      Text → Text → Proof → Reading → ℕ → Db → Reply (List PendingRecovery) × Db
  unfolding list_pending
  pending w raw p t now db = list_pending w now (authenticate s v post pending_path w raw p t db)

  -- The current key is tried first, then the request's own.
  unfoldable pub try_own_key :
      RecoveryCall
      → Text
      → Proof
      → Reading
      → RecoveryRequest
      → Access × Db
      → Reply RecoveryRequest × Db
  unfolding check_own_key
  try_own_key call raw p t r (granted, db) = (reply r, db)
  try_own_key call raw p t r (denied _, db) =
      check_own_key cancel_path call.wallet_id raw p t db r r.new_device_key

  unfoldable pub withdraw : RecoveryCall → Reply RecoveryRequest × Db → Reply (Unit {0}) × Db
  withdraw call (failed e, db) = (failed e, db)
  withdraw call (reply r, db) =
      let (cancelled, after) = cancel_recovery call.request_id call.wallet_id db in
      (if cancelled then reply tt else failed Error.unknown_session, after)

  unfoldable pub cancel_found :
      RecoveryCall
      → Text
      → Proof
      → Reading
      → Reading
      → Db
      → Option RecoveryRequest
      → Reply (Unit {0}) × Db
  unfolding withdraw try_own_key
  cancel_found call raw p t own db none = (failed Error.authentication, db)
  cancel_found call raw p t own db (some r) =
      withdraw call
        (try_own_key call raw p own r (authenticate s v post cancel_path call.wallet_id raw p t db))

  unfoldable pub cancel :
      RecoveryCall → Text → Proof → Reading → Reading → Db → Reply (Unit {0}) × Db
  unfolding cancel_found
  cancel call raw p t own db =
      if f.is_wallet_id call.wallet_id && f.is_hex32 call.request_id
      then cancel_found call raw p t own db (recovery_request call.request_id call.wallet_id db)
      else (failed Error.authentication, db)
