-- ===== src/Server/Examples/Protocols.antt =====
-- The handlers of the protocols over toy messages, with a cipher that leaves the text as it is.
use mpc_ext.Base.{
  ℕ, ◌≡◌, ◌⊎◌, ◌*◌, ◌==◌, if◌then◌else◌, refl, List, [], ◌∷◌, ◌++◌, some, none, find_where,
  count_where, delete_where,
}
use mpc_ext.Core.Types.{Envelope, traverse}
use mpc_ext.Core.Maps.{insert}
use mpc_ext.Core.Upstream.{Codec}
use mpc_ext.Core.Dkg.{DkgParty, round2, decode_envelope, round2_envelopes, to_party, new_envelope}
use mpc_ext.Core.Dkg.Rounds.{advance}
use mpc_ext.Core.Examples.{toy, third_party}
use mpc_ext.Core.SignExamples.{toy_signing, signer}
use mpc_ext.Core.Sign.{SignParty, hex_pairs, sign_start}
use mpc_ext.Server.Types.{Text, Sealed, Db, empty_db, sign}
use mpc_ext.Server.Clock.{nanos}
use mpc_ext.Server.Auth.{Proof, granted, authenticate}
use mpc_ext.Server.Recovery.{device_key}
use mpc_ext.Server.Grants.{consume_passkey_authorization}
use mpc_ext.Server.Sessions.{key_share}
use mpc_ext.Server.Handlers.{reply, post}
use mpc_ext.Server.Steps.{Host, WireEnvelope, from_wires, to_wire, parse_hex32, open_sealed, seal}
use mpc_ext.Server.Keygen.{AdvanceDkg, advance_dkg}
use mpc_ext.Server.Keygen.Mirrors.{Opens, IsNonce, IsKept, Stores, Mirrors, advance-Mirrors}
use mpc_ext.Server.Signing.{
  StartSign, SignMoments, purpose_of, open_sign, use_grant, start_sign, sign_session_path,
}
use mpc_ext.Server.Signing.Guarded.{IsFor, UsesGrant, start_sign_guarded}
use mpc_ext.Server.Examples.{by_second, one_key}

abbrev pub eight : List ℕ
eight = 48 ∷ 48 ∷ 48 ∷ 48 ∷ 48 ∷ 48 ∷ 48 ∷ 48 ∷ []

abbrev pub host : Host
host = record {
  chars = λ _. eight ++ eight ++ eight ++ eight ++ eight ++ eight ++ eight ++ eight;
  bytes = λ _. eight ++ 0 ∷ 0 ∷ 0 ∷ 0 ∷ [];
  blob = λ _. 9;
  encode_base64 = λ n. n;
  decode_base64 = λ t. some t;
  encrypt = λ _ p. some p;
  decrypt = λ _ c. some c;
}

abbrev fragments : List WireEnvelope
fragments =
    record { round = 1; from = 0; to = some 2; payload = 4 }
    ∷ record { round = 1; from = 1; to = some 2; payload = 5 }
    ∷ []

abbrev inbox : List Envelope
inbox =
    record { round = 1; from = 0; to = some 2; payload = 4 }
    ∷ record { round = 1; from = 1; to = some 2; payload = 5 }
    ∷ []

-- A party is told by its round.
abbrev by_round : Codec (DkgParty toy)
by_round = record {
  encode = λ p. some p.round;
  decode = λ n. if n == 1 then some third_party else some (advance toy third_party inbox).1;
}

abbrev stored : Sealed
stored = record { ciphertext = 1; nonce = 3 }

abbrev with_session : Db
with_session = record empty_db {
  dkg_sessions =
      record { session_id = 90; wallet_id = 7; round = 1; state = stored; expires_at = 600 * nanos }
      ∷ [];
}

abbrev round_request : AdvanceDkg
round_request = record { wallet_id = 7; session_id = 90; envelopes = fragments }

holds_party : Stores host by_second toy by_round 90 third_party (600 * nanos) with_session
unfolding Stores Opens find_where
holds_party = (_, 1, refl, refl, (refl, refl), refl)

read_fragments : from_wires host fragments with_session ≡ (reply inbox, with_session)
unfolding from_wires
read_fragments = refl

fresh : IsNonce host by_second 4
fresh = record { size = refl; opens = λ p. (p, refl, refl) }

next-IsKept : IsKept host by_second toy by_round (advance toy third_party inbox).1
unfolding IsKept advance round2 decode_envelope insert round2_envelopes traverse to_party
    new_envelope
next-IsKept = (2, refl, refl)

advance-Mirrors_example :
    Mirrors host by_second toy by_round round_request
      (600 * nanos)
      with_session
      (advance toy third_party inbox)
      (advance_dkg host toy by_round by_second round_request 4
        (10 * nanos)
        (11 * nanos)
        with_session)
advance-Mirrors_example =
    advance-Mirrors host by_second toy by_round round_request 4 (10 * nanos) (11 * nanos)
      (600 * nanos) inbox third_party with_session holds_party refl read_fragments fresh next-IsKept

-- A wallet with a device key, a share and a passkey grant to sign.
abbrev with_grant : Db
with_grant = record empty_db {
  device_keys = record { wallet_id = 7; public_key = 5 } ∷ [];
  key_shares = record { wallet_id = 7; share = stored; public_key = 77 } ∷ [];
  passkey_authorizations =
      record {
        wallet_id = 7;
        purpose = sign;
        operation_id = 91;
        digest = 92;
        expires_at = 2000 * nanos;
        consumed_at = none;
      }
      ∷ [];
}

abbrev sign_request : StartSign
sign_request = record { wallet_id = 7; sign_id = 91; digest = 92; counterparty = 0 }

abbrev pub device_proof : Proof
device_proof = record { timestamp = some 1000000; nonce = some 3; signature = some 9 }

abbrev sign_moments : SignMoments
sign_moments = record {
  proof = record { check_ms = 1000000; now = 1000 * nanos; later = 1000 * nanos };
  mark = 1001 * nanos;
  grant = 1001 * nanos;
  written = 1002 * nanos;
}

abbrev always_signer : Codec (SignParty toy_signing)
always_signer = record { encode = λ p. some p.round; decode = λ _. some signer }

start_sign_guarded_example :
    let proven =
      authenticate by_second one_key post sign_session_path 7 50 device_proof sign_moments.proof
        with_grant in
    let after =
      (start_sign host toy_signing always_signer by_second one_key sign_request 50 device_proof
        sign_moments 4 with_grant).1 in
    (after.sign_sessions ≡ with_grant.sign_sessions)
    ⊎ ((proven.0 ≡ granted)
        × ((purpose : Text) × IsFor 0 purpose
            × UsesGrant by_second sign_request purpose sign_moments proven.1 after))
start_sign_guarded_example =
    start_sign_guarded host toy_signing always_signer by_second one_key sign_request 50 device_proof
      sign_moments 4 with_grant

session_opened :
    (start_sign host toy_signing always_signer by_second one_key sign_request 50 device_proof
      sign_moments 4 with_grant).0
    ≡ reply (record { round = 1; from = 2; to = some 2; payload = 3 } ∷ [])
unfolding start_sign authenticate device_key find_where delete_where use_grant parse_hex32 hex_pairs
    purpose_of consume_passkey_authorization count_where open_sign key_share open_sealed sign_start
    traverse seal to_wire to_party new_envelope
session_opened = refl
