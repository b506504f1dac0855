-- ===== src/Server/Examples/Ceremonies.antt =====
-- Passkey ceremonies and the management page on concrete inputs, with a library that accepts every
-- answer.
use mpc_ext.Base.{
  ℕ, ◌≡◌, ◌⊎◌, ◌+◌, ◌*◌, ◌==◌, if◌then◌else◌, refl, List, [], ◌∷◌, ◌++◌, some, none, true,
  find_where, update_where, count_where, select_where, delete_where,
}
use mpc_ext.Server.Types.{Db, Status, empty_db, sign, assert}
use mpc_ext.Server.Clock.{nanos}
use mpc_ext.Server.Auth.{Reading, granted, authenticate}
use mpc_ext.Server.Handlers.{Formats, reply, post, pending_rows}
use mpc_ext.Server.Steps.{Host}
use mpc_ext.Server.Passkeys.{
  Webauthn, AssertFinishRequest, verify_assertion, credential_bytes, take_bound, verify_and_advance,
  check_assertion, identify, read_handle,
}
use mpc_ext.Server.Passkeys.Checks.{
  validate_assertion_finish, validate_wallet_id, validate_challenge_id, validate_purpose,
  validate_operation_id, all_chars, validate_digest,
}
use mpc_ext.Server.Credentials.{
  passkey_credential, read_credential, update_passkey_credential, manage_session_wallet,
}
use mpc_ext.Server.Grants.{take_passkey_challenge_with_binding, put_passkey_authorization}
use mpc_ext.Server.Recovery.{device_key, cancel_recovery, live_recoveries, order_by_age}
use mpc_ext.Server.Passkeys.Endpoints.{assert_finish, assert_finish_path}
use mpc_ext.Server.Passkeys.Guarded.{IsApproved, assert_finish_guarded}
use mpc_ext.Server.Manage.{
  Site, manage_cancel, require_origin, session_wallet, view, token_of, session_cookie,
}
use mpc_ext.Server.Manage.Guarded.{MayCancel, manage_cancel_guarded}
use mpc_ext.Server.Examples.{by_second, one_key}
use mpc_ext.Server.Examples.Protocols.{host, device_proof, eight}

abbrev long : List ℕ
long = eight ++ eight ++ eight ++ eight ++ eight ++ eight ++ eight ++ eight

-- The text of the purpose has four characters; byte string 2 has 64 bytes.
abbrev texts : Host
texts = record host {
  chars = λ t. if t == sign then 115 ∷ 105 ∷ 103 ∷ 110 ∷ [] else long;
  bytes = λ b. if b == 2 then long else eight;
}

abbrev accepting : Webauthn
accepting = record {
  RegistrationState = ℕ;
  Registration = ℕ;
  ServerState = ℕ;
  Authentication = ℕ;
  UserHandle = ℕ;
  Static = ℕ;
  Dynamic = ℕ;
  Credential = ℕ;
  rp_id = some 1;
  origin = some 1;
  decode_registration_state = λ b. some b;
  parse_registration = λ b. some b;
  verify_registration = λ _ _ _ _. none;
  decode_state = λ b. some b;
  parse_authentication = λ b. some b;
  raw_id = λ _. some 1;
  handle_of = λ _. 2;
  decode_handle = λ b. some b;
  decode_static = λ b. some b;
  is_p256 = λ _. true;
  decode_dynamic = λ b. some b;
  sign_count = λ n. n;
  assemble = λ _ _ _ _. some 1;
  verify =
      λ _ _ _ _ _. some (record { user_verified = true; sign_count = 6; dynamic_state = some 6 });
  stored_to_json = λ c. some c.dynamic_state;
  stored_from_json =
      λ b. some (record { id = 1; user_id = 2; static_state = 3; dynamic_state = b });
  binding_to_json = λ b. some (b.operation_id + b.digest);
  value_to_json = λ t. some t;
  user_handle_of = λ _. some 2;
}

abbrev with_challenge : Db
with_challenge = record empty_db {
  device_keys = record { wallet_id = 7; public_key = 5 } ∷ [];
  passkey_credentials =
      record { wallet_id = 7; credential = 5; sign_count = 5; user_handle = some 2 } ∷ [];
  passkey_challenges =
      record {
        challenge_id = 60;
        wallet_id = 7;
        purpose = assert;
        challenge = 8;
        binding = 183;
        expires_at = 2000 * nanos;
        used_at = none;
      }
      ∷ [];
}

abbrev finish_request : AssertFinishRequest
finish_request = record {
  wallet_id = 7;
  challenge_id = 60;
  purpose = sign;
  operation_id = 91;
  digest = 92;
  credential = 70;
}

abbrev at_proof : Reading
at_proof = record { check_ms = 1000000; now = 1000 * nanos; later = 1000 * nanos }

assert_finish_guarded_example :
    ((assert_finish texts accepting by_second one_key finish_request 50 device_proof at_proof
        (1001 * nanos)
        (1002 * nanos)
        with_challenge).1.passkey_authorizations
      ≡ with_challenge.passkey_authorizations)
    ⊎ (((authenticate by_second one_key post assert_finish_path 7 50 device_proof at_proof
            with_challenge).0
          ≡ granted)
        × IsApproved texts accepting by_second finish_request (1001 * nanos) with_challenge)
assert_finish_guarded_example =
    assert_finish_guarded texts accepting by_second one_key finish_request 50 device_proof at_proof
      (1001 * nanos) (1002 * nanos) with_challenge

assertion_recorded :
    (assert_finish texts accepting by_second one_key finish_request 50 device_proof at_proof
      (1001 * nanos)
      (1002 * nanos)
      with_challenge).0
    ≡ reply (sign, 91)
unfolding assert_finish authenticate device_key find_where delete_where validate_assertion_finish
    validate_wallet_id validate_challenge_id validate_purpose validate_operation_id all_chars
    validate_digest verify_assertion credential_bytes take_bound take_passkey_challenge_with_binding
    verify_and_advance passkey_credential read_credential update_passkey_credential
    put_passkey_authorization check_assertion identify read_handle
assertion_recorded = refl

abbrev site : Site
site = record { origin = 80; session_hash = λ cs. 81 }

-- "a=b; mpc_manage_session=t"
abbrev cookie : List ℕ
cookie = 97 ∷ 61 ∷ 98 ∷ 59 ∷ 32 ∷ session_cookie ++ 61 ∷ 116 ∷ []

token_read : token_of (some cookie) ≡ some (116 ∷ [])
unfolding token_of all_chars
token_read = refl

abbrev formats : Formats
formats = record {
  is_wallet_id = λ _. true;
  is_hex32 = λ _. true;
  assertion_digest = λ w k r. r;
  key_fingerprint = λ k. k;
}

abbrev with_cooling : Db
with_cooling = record empty_db {
  manage_sessions = record { session_hash = 81; wallet_id = 7; expires_unix = 1300 } ∷ [];
  recovery_requests =
      record {
        request_id = 70;
        wallet_id = 7;
        status = Status.cooling;
        new_device_key = some 5;
        created_unix = 950;
        expires_unix = 2000;
        ready_unix = some 1060;
      }
      ∷ [];
}

manage_cancel_guarded_example :
    ((manage_cancel texts accepting by_second one_key formats site 70
        (some 80)
        (some cookie)
        1000
        1001
        with_cooling).1.recovery_requests
      ≡ with_cooling.recovery_requests)
    ⊎ MayCancel texts accepting by_second one_key formats site 70
        (some 80)
        (some cookie)
        1000
        with_cooling
manage_cancel_guarded_example =
    manage_cancel_guarded texts accepting by_second one_key formats site 70 (some 80) (some cookie)
      1000 1001 with_cooling

cancelled_run :
    (manage_cancel texts accepting by_second one_key formats site 70
      (some 80)
      (some cookie)
      1000
      1001
      with_cooling).0
    ≡ reply []
unfolding manage_cancel require_origin session_wallet token_of all_chars manage_session_wallet
    find_where cancel_recovery count_where view pending_rows live_recoveries order_by_age
    select_where update_where
cancelled_run = refl
