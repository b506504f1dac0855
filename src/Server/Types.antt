-- ===== src/Server/Types.antt =====
-- The data of crates/mpc-server/src/store.rs and the error type of crates/mpc-server/src/lib.rs.
--
-- A text or a byte string that the code only compares for equality is a number. A column that the
-- code writes and never reads back (created_at, updated_at, approved_at, refreshed_at and the like)
-- is left out. A time of day column in text is the instant in nanoseconds that was formatted; the
-- unix columns are in seconds.
use mpc_ext.Base.{ℕ, List, [], Option, Bool, true, false}

abbrev pub Text : Type 0
Text = ℕ

-- Byte strings that are compared whole.
abbrev pub Blob : Type 0
Blob = ℕ

-- lib.rs, `enum Error`, without the messages; `storage` covers the constraint violations that the
-- database reports.
pub data Error : Type 0 where
  config crypto storage unknown_session authentication rate_limited protocol : Error

pub data Status : Type 0 where
  awaiting_assertion cooling completed cancelled expired : Status

abbrev pub is_cooling : Status → Bool
is_cooling cooling = true
is_cooling _ = false

abbrev pub is_awaiting : Status → Bool
is_awaiting awaiting_assertion = true
is_awaiting _ = false

-- status IN ('awaiting_assertion', 'cooling')
abbrev pub is_open : Status → Bool
is_open awaiting_assertion = true
is_open cooling = true
is_open _ = false

-- A row of recovery_requests.
pub record RecoveryRequest : Type 0 where
  pub request_id : Text
  pub wallet_id : Text
  pub status : Status
  pub new_device_key : Option Blob
  pub created_unix : ℕ
  pub expires_unix : ℕ
  pub ready_unix : Option ℕ

-- A row of device_keys.
pub record DeviceKey : Type 0 where
  pub wallet_id : Text
  pub public_key : Blob

pub record Sealed : Type 0 where
  pub ciphertext : Blob
  pub nonce : Blob

-- A row of key_shares.
pub record KeyShareRow : Type 0 where
  pub wallet_id : Text
  pub share : Sealed
  pub public_key : Blob

-- A row of dkg_sessions, sign_sessions or reshare_sessions.
pub record SessionRow : Type 0 where
  pub session_id : Text
  pub wallet_id : Text
  pub round : ℕ
  pub state : Sealed
  pub expires_at : ℕ

-- A row of pending_reshares.
pub record StagedRow : Type 0 where
  pub wallet_id : Text
  pub reshare_id : Text
  pub share : Sealed
  pub expires_at : ℕ

-- A row of used_device_nonces.
pub record NonceRow : Type 0 where
  pub wallet_id : Text
  pub nonce : Text
  pub expires_at : ℕ

-- A row of passkey_authorizations.
pub record AuthorizationRow : Type 0 where
  pub wallet_id : Text
  pub purpose : Text
  pub operation_id : Text
  pub digest : Text
  pub expires_at : ℕ
  pub consumed_at : Option ℕ

-- A row of passkey_challenges.
pub record ChallengeRow : Type 0 where
  pub challenge_id : Text
  pub wallet_id : Text
  pub purpose : Text
  pub challenge : Blob
  pub binding : Blob
  pub expires_at : ℕ
  pub used_at : Option ℕ

-- A row of browser_ceremonies.
pub record CeremonyRow : Type 0 where
  pub session_id : Text
  pub handoff_hash : Blob
  pub wallet_id : Text
  pub kind : Text
  pub purpose : Text
  pub operation_id : Option Text
  pub digest : Option Text
  pub challenge_id : Option Text
  pub options : Option Text
  pub expires_at : ℕ
  pub claimed_at : Option ℕ
  pub completed_at : Option ℕ
  pub cancelled_at : Option ℕ

-- A row of passkey_credentials.
pub record CredentialRow : Type 0 where
  pub wallet_id : Text
  pub credential : Blob
  pub sign_count : ℕ
  pub user_handle : Option Blob

-- A row of manage_sessions.
pub record ManageRow : Type 0 where
  pub session_hash : Blob
  pub wallet_id : Text
  pub expires_unix : ℕ

-- The event column of audit_log.
pub data AuditEvent : Type 0 where
  recovery_requested recovery_cooling recovery_completed recovery_cancelled : AuditEvent
  dkg_completed sign_completed reshare_staged reshare_committed reshare_aborted : AuditEvent

-- A row of audit_log; `detail` is the sign id of a sign.completed row.
pub record AuditRow : Type 0 where
  pub wallet_id : Text
  pub event : AuditEvent
  pub detail : Option Text

-- The database.
pub record Db : Type 0 where
  pub key_shares : List KeyShareRow
  pub dkg_sessions : List SessionRow
  pub sign_sessions : List SessionRow
  pub reshare_sessions : List SessionRow
  pub pending_reshares : List StagedRow
  pub device_keys : List DeviceKey
  pub used_device_nonces : List NonceRow
  pub passkey_authorizations : List AuthorizationRow
  pub passkey_challenges : List ChallengeRow
  pub browser_ceremonies : List CeremonyRow
  pub passkey_credentials : List CredentialRow
  pub manage_sessions : List ManageRow
  pub recovery_requests : List RecoveryRequest
  pub audit_log : List AuditRow

abbrev pub empty_db : Db
empty_db = record {
  key_shares = [];
  dkg_sessions = [];
  sign_sessions = [];
  reshare_sessions = [];
  pending_reshares = [];
  device_keys = [];
  used_device_nonces = [];
  passkey_authorizations = [];
  passkey_challenges = [];
  browser_ceremonies = [];
  passkey_credentials = [];
  manage_sessions = [];
  recovery_requests = [];
  audit_log = [];
}

-- Numbers for the texts that the code writes literally.
abbrev pub sign : Text
sign = 1

abbrev pub recovery : Text
recovery = 2

abbrev pub register : Text
register = 3

abbrev pub assert : Text
assert = 4

abbrev pub manage : Text
manage = 5

-- The empty text.
abbrev pub manage_wallet : Text
manage_wallet = 0
