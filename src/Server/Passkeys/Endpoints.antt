-- ===== src/Server/Passkeys/Endpoints.antt =====
-- The endpoints of crates/mpc-server/src/passkey.rs.
use mpc_ext.Base.{ℕ, Option, none, some, Bool, not, ◌&&◌, ◌||◌, ◌==◌, if◌then◌else◌, is_some}
use mpc_ext.Server.Types.{Text, Blob, Error, CeremonyRow, register, assert}
use mpc_ext.Server.Clock.{Stamps}
use mpc_ext.Server.Auth.{Proof, Verifier, Reading, authenticate}
use mpc_ext.Server.Handlers.{post}
use mpc_ext.Server.Ceremonies.{put_browser_ceremony, browser_ceremony}
use mpc_ext.Server.Steps.{Action, ◌>>=◌, answer, query, query_writing, need, check, admitted, Host}
use mpc_ext.Server.Passkeys.{
  Webauthn, Begun, Options, AssertOptionsRequest, AssertFinishRequest, has_credential,
  registration_options, take_registration, store_registered, assertion_options, verify_assertion,
  handoff_ttl_seconds,
}
use mpc_ext.Server.Passkeys.Checks.{
  HandoffRequest, is_between, validate_wallet_id, validate_challenge_id, validate_assertion_binding,
  validate_assertion_finish, validate_handoff_request,
}

pub record RegisterFinishRequest : Type 0 where
  pub wallet_id : Text
  pub challenge_id : Text
  pub credential : Text

pub record CeremonyStatusRequest : Type 0 where
  pub wallet_id : Text
  pub ceremony_id : Text

pub data CeremonyStatus : Type 0 where
  completed in_progress waiting_for_browser : CeremonyStatus

abbrev pub register_options_path : Text
register_options_path = 41

abbrev pub register_finish_path : Text
register_finish_path = 42

abbrev pub assert_options_path : Text
assert_options_path = 43

abbrev pub assert_finish_path : Text
assert_finish_path = 44

abbrev pub handoff_path : Text
handoff_path = 45

abbrev pub registered_path : Text
registered_path = 46

abbrev pub ceremony_status_path : Text
ceremony_status_path = 47

unfoldable pub status_of_ceremony : CeremonyRow → CeremonyStatus
status_of_ceremony c =
    if is_some c.completed_at
    then completed
    else if is_some c.claimed_at
    then in_progress
    else waiting_for_browser

unfoldable pub of_wallet : Text → Option CeremonyRow → Option CeremonyRow
of_wallet w none = none
of_wallet w (some c) = if c.wallet_id == w then some c else none

module _ (h : Host) (a : Webauthn) (s : Stamps) (v : Verifier) where
  unfoldable pub register_options : Text → Text → Proof → Reading → Begun → ℕ → Action Options
  register_options w raw p t drawn now = do
    _ ← admitted (authenticate s v post register_options_path w raw p t)
    _ ← validate_wallet_id h w
    registration_options h a w drawn now

  -- The handler repeats `verify_registration`, but for the test that the key is a P-256 key.
  unfoldable pub register_finish :
      RegisterFinishRequest → Text → Proof → Reading → ℕ → Action (Unit {0})
  register_finish r raw p t now = do
    _ ← admitted (authenticate s v post register_finish_path r.wallet_id raw p t)
    _ ← validate_wallet_id h r.wallet_id
    _ ← validate_challenge_id h r.challenge_id
    registered ← take_registration h a s r.wallet_id r.challenge_id r.credential now
    store_registered h a r.wallet_id registered

  -- The handler repeats `assertion_options`.
  unfoldable pub assert_options :
      AssertOptionsRequest → Text → Proof → Reading → Begun → ℕ → Action Options
  assert_options r raw p t drawn now = do
    _ ← admitted (authenticate s v post assert_options_path r.wallet_id raw p t)
    _ ← validate_assertion_binding h r
    assertion_options h a r drawn now

  unfoldable pub assert_finish :
      AssertFinishRequest → Text → Proof → Reading → ℕ → ℕ → Action (Text × Text)
  assert_finish r raw p t now granted = do
    _ ← admitted (authenticate s v post assert_finish_path r.wallet_id raw p t)
    _ ← validate_assertion_finish h r
    _ ← verify_assertion h a s r now granted
    answer (r.purpose, r.operation_id)

  -- The ids are drawn at random; the SHA-256 of the token is a parameter.
  unfoldable pub handoff :
      (Text → Blob)
      → HandoffRequest
      → Text
      → Proof
      → Reading
      → Text
      → Text
      → ℕ
      → Action (Text × Text)
  handoff hash_handoff r raw p t ceremony_id token now = do
    _ ← admitted (authenticate s v post handoff_path r.wallet_id raw p t)
    _ ← validate_handoff_request h r
    registered ← has_credential r.wallet_id
    _ ← check Error.protocol (not ((r.purpose == register) && registered))
    _ ← check Error.authentication ((r.purpose == register) || registered)
    stored ← query_writing (
        put_browser_ceremony ceremony_id (hash_handoff token) r.wallet_id
          (if r.purpose == register then register else assert) r.purpose r.operation_id r.digest
          handoff_ttl_seconds now)
    _ ← check Error.storage stored
    answer (ceremony_id, token)

  unfoldable pub registered : Text → Text → Proof → Reading → Action Bool
  registered w raw p t = do
    _ ← admitted (authenticate s v post registered_path w raw p t)
    has_credential w

  unfoldable pub ceremony_status :
      CeremonyStatusRequest → Text → Proof → Reading → ℕ → Action CeremonyStatus
  ceremony_status r raw p t now = do
    _ ← admitted (authenticate s v post ceremony_status_path r.wallet_id raw p t)
    _ ← validate_wallet_id h r.wallet_id
    _ ← check Error.protocol (is_between h 64 r.ceremony_id)
    found ← query (browser_ceremony s r.ceremony_id now)
    ceremony ← need Error.unknown_session (of_wallet r.wallet_id found)
    answer (status_of_ceremony ceremony)
