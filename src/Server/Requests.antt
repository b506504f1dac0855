-- ===== src/Server/Requests.antt =====
-- The handler `request` of crates/mpc-server/src/recovery.rs, which starts a recovery. The ids are drawn
-- at random.
use mpc_ext.Base.{ℕ, some, Bool, false, if◌then◌else◌, is_some}
use mpc_ext.Server.Types.{Text, Blob, Error, assert, recovery}
use mpc_ext.Server.Auth.{Verifier}
use mpc_ext.Server.Recovery.{create_recovery_request}
use mpc_ext.Server.Recovery.Events.{request_ttl_seconds, max_requests_per_hour}
use mpc_ext.Server.Sessions.{public_key}
use mpc_ext.Server.Handlers.{Formats}
use mpc_ext.Server.Ceremonies.{put_browser_ceremony}
use mpc_ext.Server.Keygen.{is_uncompressed}
use mpc_ext.Server.Passkeys.{has_credential, handoff_ttl_seconds}
use mpc_ext.Server.Passkeys.Checks.{validate_wallet_id}
use mpc_ext.Server.Steps.{
  Action, ◌>>=◌, answer, query, query_writing, need, check, Host, decode_hex,
}

pub record RequestRecovery : Type 0 where
  pub wallet_id : Text
  pub device_public_key : Text

pub record RecoveryRequested : Type 0 where
  pub request_id : Text
  pub ceremony_id : Text
  pub handoff_token : Text

module _ (h : Host) (v : Verifier) where
  unfoldable pub parse_device_key : Text → Action Blob
  parse_device_key value = do
    bytes ← need Error.protocol (decode_hex h value)
    _ ← check Error.protocol (is_uncompressed bytes)
    _ ← check Error.protocol (v.is_key (h.blob bytes))
    answer (h.blob bytes)

  -- The passkey is looked up only for a wallet that is there.
  unfoldable pub is_recoverable : Text → Action Bool
  is_recoverable w = do
    key ← query (public_key w)
    if is_some key then has_credential w else answer false

  unfoldable pub request_recovery :
      Formats
      → (Text → Blob)
      → RequestRecovery
      → RecoveryRequested
      → ℕ
      → ℕ
      → Action RecoveryRequested
  request_recovery f hash_handoff request drawn asked opened = do
    _ ← validate_wallet_id h request.wallet_id
    device_key ← parse_device_key request.device_public_key
    recoverable ← is_recoverable request.wallet_id
    _ ← check Error.unknown_session recoverable
    created ← query_writing (
        create_recovery_request drawn.request_id request.wallet_id device_key request_ttl_seconds
          max_requests_per_hour asked)
    within ← need Error.storage created
    _ ← check Error.rate_limited within
    stored ← query_writing (
        put_browser_ceremony drawn.ceremony_id (hash_handoff drawn.handoff_token) request.wallet_id
          assert recovery (some drawn.request_id)
          (some (f.assertion_digest request.wallet_id device_key drawn.request_id))
          handoff_ttl_seconds opened)
    _ ← check Error.storage stored
    answer drawn
