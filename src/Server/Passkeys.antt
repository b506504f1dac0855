-- ===== src/Server/Passkeys.antt =====
-- The ceremonies of crates/mpc-server/src/passkey.rs. The webauthn_rp and serde_json crates are a
-- parameter. A function takes the readings of the clock and what it draws at random; the warnings that
-- it logs are left out.
pub mod Checks
pub mod Endpoints
pub mod Proved
pub mod Guarded
use mpc_ext.Base.{
  ℕ, ◌+◌, ◌*◌, ◌≡◌, List, [], ◌∷◌, Option, none, some, Bool, true, false, not, ◌&&◌, ◌||◌, ◌==◌,
  ltb, leb, if◌then◌else◌, is_some, length,
}
use mpc_ext.Server.Types.{Text, Blob, Error, Db, register, assert, manage, manage_wallet}
use mpc_ext.Server.Clock.{Stamps}
use mpc_ext.Server.Grants.{
  put_passkey_challenge_with_binding, take_passkey_challenge_with_binding,
  put_passkey_authorization,
}
use mpc_ext.Server.Credentials.{
  passkey_credential, put_passkey_credential, update_passkey_credential, wallet_for_user_handle,
}
use mpc_ext.Server.Steps.{
  Action, ◌>>=◌, answer, fail, query, query_writing, write, need, check, Host,
}

abbrev pub ceremony_ttl_seconds : ℕ
ceremony_ttl_seconds = 300

abbrev pub user_handle_len : ℕ
user_handle_len = 64

abbrev pub max_credential_json_bytes : ℕ
max_credential_json_bytes = 128 * 1024

abbrev pub handoff_ttl_seconds : ℕ
handoff_ttl_seconds = 300

abbrev pub authorization_ttl_seconds : ℕ
authorization_ttl_seconds = 300

pub record AssertionBinding : Type 0 where
  pub purpose : Text
  pub operation_id : Text
  pub digest : Text

pub record StoredCredential : Type 0 where
  pub id : Blob
  pub user_id : Blob
  pub static_state : Blob
  pub dynamic_state : Blob

-- A credential that the library has registered: its parts, each encoded, if it can be.
pub record Registered : Type 0 where
  pub user_verified : Bool
  pub is_p256 : Bool
  pub sign_count : ℕ
  pub static_state : Option Blob
  pub id : Option Blob
  pub user_id : Blob
  pub dynamic_state : Option Blob

-- A credential after the library has verified an assertion with it.
pub record Verified : Type 0 where
  pub user_verified : Bool
  pub sign_count : ℕ
  pub dynamic_state : Option Blob

pub record Webauthn : Type 1 where
  pub RegistrationState : Type 0
  pub Registration : Type 0
  pub ServerState : Type 0
  pub Authentication : Type 0
  pub UserHandle : Type 0
  pub Static : Type 0
  pub Dynamic : Type 0
  pub Credential : Type 0
  -- The configured relying party and origin, where they are valid.
  pub rp_id : Option Blob
  pub origin : Option Blob
  pub decode_registration_state : Blob → Option RegistrationState
  pub parse_registration : Blob → Option Registration
  pub verify_registration : Blob → Blob → RegistrationState → Registration → Option Registered
  pub decode_state : Blob → Option ServerState
  pub parse_authentication : Blob → Option Authentication
  pub raw_id : Authentication → Option Blob
  pub handle_of : Authentication → Blob
  pub decode_handle : Blob → Option UserHandle
  pub decode_static : Blob → Option Static
  pub is_p256 : Static → Bool
  pub decode_dynamic : Blob → Option Dynamic
  pub sign_count : Dynamic → ℕ
  pub assemble : Authentication → UserHandle → Static → Dynamic → Option Credential
  -- The relying party, the origin, the ceremony's state, the answer and the credential.
  pub verify : Blob → Blob → ServerState → Authentication → Credential → Option Verified
  pub stored_to_json : StoredCredential → Option Blob
  pub stored_from_json : Blob → Option StoredCredential
  pub binding_to_json : AssertionBinding → Option Blob
  pub value_to_json : Text → Option Blob
  pub user_handle_of : Blob → Option Blob

-- What a ceremony's start draws: an id, and the server's state and the client's options, if the library
-- starts and encodes them.
pub record Begun : Type 0 where
  pub challenge_id : Text
  pub states : Option (Blob × Blob)

pub record Options : Type 0 where
  pub challenge_id : Text
  pub options : Blob

-- b"register" and MANAGE_PURPOSE.
abbrev pub register_binding : Blob
register_binding = register

abbrev pub manage_binding : Blob
manage_binding = manage

-- A step whose result is already a reply.
abbrev pub has_credential : Text → Action Bool
has_credential w = do found ← passkey_credential w; answer (is_some found)

pub record AssertOptionsRequest : Type 0 where
  pub wallet_id : Text
  pub purpose : Text
  pub operation_id : Text
  pub digest : Text

pub record AssertFinishRequest : Type 0 where
  pub wallet_id : Text
  pub challenge_id : Text
  pub purpose : Text
  pub operation_id : Text
  pub digest : Text
  pub credential : Text

module _ (h : Host) (a : Webauthn) where
  unfoldable pub credential_bytes : Text → Action Blob
  credential_bytes credential = do
    bytes ← need Error.protocol (a.value_to_json credential)
    _ ← check Error.protocol (leb (length (h.bytes bytes)) max_credential_json_bytes)
    answer bytes

  -- A ceremony whose challenge is stored under a wallet, a purpose and a binding.
  unfoldable pub put_challenge : Text → Text → Blob → Begun → ℕ → Action Options
  put_challenge w purpose binding drawn now = do
    (server_state, options) ← need Error.protocol drawn.states
    stored ← query_writing (
        put_passkey_challenge_with_binding drawn.challenge_id w purpose server_state binding
          ceremony_ttl_seconds now)
    _ ← check Error.storage stored
    answer (record { challenge_id = drawn.challenge_id; options = options })

  unfoldable pub registration_options : Text → Begun → ℕ → Action Options
  registration_options w drawn now = do
    taken ← has_credential w
    _ ← check Error.protocol (not taken)
    _ ← need Error.config a.rp_id
    put_challenge w register register_binding drawn now

  unfoldable pub from_registered : Registered → Option StoredCredential
  from_registered r = elim (r.static_state) [
    | none ↦ none
    | some static ↦ elim (r.id) [
      | none ↦ none
      | some id ↦ elim (r.dynamic_state) [
        | none ↦ none
        | some dynamic ↦ some (record {
          id = id;
          user_id = r.user_id;
          static_state = static;
          dynamic_state = dynamic;
        })
      ]
    ]
  ]

  -- A registration that the library accepts with user verification.
  unfoldable pub check_registration : Blob → Blob → Blob → Action Registered
  check_registration server_state binding json = do
    _ ← check Error.authentication (binding == register_binding)
    state ← need Error.protocol (a.decode_registration_state server_state)
    registration ← need Error.protocol (a.parse_registration json)
    rp_id ← need Error.config a.rp_id
    origin ← need Error.config a.origin
    credential ← need Error.protocol (a.verify_registration rp_id origin state registration)
    _ ← check Error.authentication credential.user_verified
    answer credential

  -- A wallet that has a credential by then refuses the new one with a protocol error.
  unfoldable pub store_registered : Text → Registered → Action (Unit {0})
  store_registered w credential = do
    stored ← need Error.protocol (from_registered credential)
    encoded ← need Error.protocol (a.stored_to_json stored)
    written ←
        query_writing (put_passkey_credential a.user_handle_of w encoded credential.sign_count)
    check Error.protocol written

  -- The challenge that the call takes, and the registration that answers it.
  unfoldable pub take_registration : Stamps → Text → Text → Text → ℕ → Action Registered
  take_registration s w challenge_id credential now = do
    json ← credential_bytes credential
    taken ← has_credential w
    _ ← check Error.protocol (not taken)
    found ← query_writing (take_passkey_challenge_with_binding s challenge_id w register now)
    (server_state, binding) ← need Error.authentication found
    check_registration server_state binding json

  unfoldable pub verify_registration : Stamps → Text → Text → Text → ℕ → Action (Unit {0})
  verify_registration s w challenge_id credential now = do
    registered ← take_registration s w challenge_id credential now
    _ ← check Error.protocol registered.is_p256
    store_registered w registered

  unfoldable pub assertion_options : AssertOptionsRequest → Begun → ℕ → Action Options
  assertion_options request drawn now = do
    registered ← has_credential request.wallet_id
    _ ← check Error.authentication registered
    _ ← need Error.config a.rp_id
    binding ← need Error.protocol (
        a.binding_to_json (record {
          purpose = request.purpose;
          operation_id = request.operation_id;
          digest = request.digest;
        }))
    put_challenge request.wallet_id assert binding drawn now

  -- UserHandle64 takes 64 bytes.
  unfoldable pub read_handle : StoredCredential → Action a.UserHandle
  read_handle stored = do
    _ ← check Error.authentication (length (h.bytes stored.user_id) == user_handle_len)
    need Error.authentication (a.decode_handle stored.user_id)

  -- The stored credential that the answer names, reassembled, with the counter that the database keeps.
  unfoldable pub identify : a.Authentication → StoredCredential → ℕ → Action a.Credential
  identify authentication stored count = do
    handle ← read_handle stored
    id ← need Error.authentication (a.raw_id authentication)
    _ ← check Error.authentication (id == stored.id)
    static ← need Error.authentication (a.decode_static stored.static_state)
    _ ← check Error.authentication (a.is_p256 static)
    dynamic ← need Error.authentication (a.decode_dynamic stored.dynamic_state)
    _ ← check Error.authentication (a.sign_count dynamic == count)
    need Error.authentication (a.assemble authentication handle static dynamic)

  -- `verify_and_advance` once the stored credential is read, up to what it stores.
  unfoldable pub check_assertion :
      a.ServerState → a.Authentication → StoredCredential → ℕ → Action Verified
  check_assertion state authentication stored count = do
    rp_id ← need Error.config a.rp_id
    origin ← need Error.config a.origin
    credential ← identify authentication stored count
    verified ← need Error.authentication (a.verify rp_id origin state authentication credential)
    _ ← check Error.authentication verified.user_verified
    answer verified

  unfoldable pub verify_and_advance : Text → Blob → Blob → Action (Unit {0})
  verify_and_advance w server_state json = do
    state ← need Error.protocol (a.decode_state server_state)
    authentication ← need Error.protocol (a.parse_authentication json)
    found ← passkey_credential w
    (bytes, count) ← need Error.authentication found
    stored ← need Error.protocol (a.stored_from_json bytes)
    verified ← check_assertion state authentication stored count
    dynamic ← need Error.authentication verified.dynamic_state
    encoded ← need Error.protocol (a.stored_to_json (record stored { dynamic_state = dynamic }))
    write (update_passkey_credential w encoded verified.sign_count)

  -- The challenge that the call takes, bound to what the call names.
  unfoldable pub take_bound : Stamps → AssertFinishRequest → ℕ → Action Blob
  take_bound s request now = do
    found ←
        query_writing
          (take_passkey_challenge_with_binding s request.challenge_id request.wallet_id assert now)
    (server_state, binding) ← need Error.authentication found
    expected ← need Error.authentication (
        a.binding_to_json (record {
          purpose = request.purpose;
          operation_id = request.operation_id;
          digest = request.digest;
        }))
    _ ← check Error.authentication (binding == expected)
    answer server_state

  unfoldable pub verify_assertion : Stamps → AssertFinishRequest → ℕ → ℕ → Action (Unit {0})
  verify_assertion s request now granted = do
    json ← credential_bytes request.credential
    server_state ← take_bound s request now
    _ ← verify_and_advance request.wallet_id server_state json
    stored ← query_writing (
        put_passkey_authorization request.wallet_id request.purpose request.operation_id
          request.digest authorization_ttl_seconds granted)
    check Error.storage stored

  unfoldable pub manage_options : Begun → ℕ → Action Options
  manage_options drawn now = do
    _ ← need Error.config a.rp_id
    put_challenge manage_wallet assert manage_binding drawn now

  unfoldable pub verify_manage_assertion : Stamps → Text → Text → ℕ → Action Text
  verify_manage_assertion s challenge_id credential now = do
    json ← credential_bytes credential
    found ←
        query_writing (take_passkey_challenge_with_binding s challenge_id manage_wallet assert now)
    (server_state, binding) ← need Error.authentication found
    _ ← check Error.authentication (binding == manage_binding)
    authentication ← need Error.protocol (a.parse_authentication json)
    named ← query (wallet_for_user_handle (a.handle_of authentication))
    wallet_id ← need Error.authentication named
    _ ← verify_and_advance wallet_id server_state json
    answer wallet_id
