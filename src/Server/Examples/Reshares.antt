-- ===== src/Server/Examples/Reshares.antt =====
-- A reshare of the server over the field of five elements.
use mpc_ext.Base.{
  ℕ, ◌≡◌, ◌⊎◌, ◌%◌, ◌*◌, ◌==◌, if◌then◌else◌, refl, List, [], ◌∷◌, ◌++◌, none, some, find_where,
  count_where, delete_where, update_where, ltb,
}
use mpc_ext.Core.Types.{traverse}
use mpc_ext.Core.Upstream.{Codec, Dkls}
use mpc_ext.Core.Dkg.{DkgParty}
use mpc_ext.Core.Examples.{doubled, plain}
use mpc_ext.Core.ReshareExamples.{Five, f0, f1, f4, value, of, five, point_of}
use mpc_ext.Server.Types.{Db, empty_db, recovery}
use mpc_ext.Server.Clock.{nanos}
use mpc_ext.Server.Auth.{Proof, Reading}
use mpc_ext.Server.Steps.{Host}
use mpc_ext.Server.Auth.{authenticate}
use mpc_ext.Server.Recovery.{device_key}
use mpc_ext.Server.Grants.{consume_passkey_authorization}
use mpc_ext.Server.Sessions.{
  put_row, public_key, key_share, put_reshare_session, commit_reshare, swap_share,
}
use mpc_ext.Server.Steps.{to_wire, parse_hex32, open_sealed, seal}
use mpc_ext.Core.Sign.{hex_pairs}
use mpc_ext.Core.Dkg.{deal, start_with, session_data, to_index, to_party, new_envelope}
use mpc_ext.Core.Reshare.{
  start_reshare, role_row, reshare_row, own_row, index_of, weight, row_of, lagrange_at_zero,
}
use mpc_ext.Server.Reshares.{
  ReshareMoments, reshare_start, open_reshare, to_public_key, reshare_commit,
}
use mpc_ext.Server.Reshares.Live.{
  ReshareCall, starts, commits, aborts, handle, handle_all, HasCommit, reshare_keeps_live,
}
use mpc_ext.Server.Examples.{by_second, one_key}
use mpc_ext.Server.Examples.Protocols.{host, eight}

abbrev small : Dkls
small = record {
  Scalar = Five;
  Proof = ℕ;
  Zero24 = ℕ;
  Zero34 = ℕ;
  Mul34 = ℕ;
  Bip24 = ℕ;
  Bip34 = ℕ;
  KeepZero23 = ℕ;
  KeepBip23 = ℕ;
  KeepZero34 = ℕ;
  KeepMul34 = ℕ;
  Party = ℕ;
  is_index = λ n. ltb 0 n;
  scalar = record { encode = λ x. some (value x); decode = λ n. some (of (n % 5)) };
  round2_broadcast = doubled;
  zero24 = plain;
  round3_broadcast = plain;
  round3_private = doubled;
  receiver24 = λ n. n;
  receiver34 = λ n. n;
  receiver_mul = λ n. n;
  phase1 = λ _. f4 ∷ f0 ∷ f1 ∷ [];
  phase2 = λ _ _. (f1, 1, 1, 2 ∷ 3 ∷ [], 1, 1);
  phase3 = λ _ _ _. (1, 2 ∷ 3 ∷ [], 1, 2 ∷ 3 ∷ [], 1);
  phase4 = λ _ _ _ _ _ _ _ _ _ _. some 1;
  no_zero23 = 0;
  no_zero34 = 0;
  no_mul34 = 0;
  public_key_of = λ p. some p;
  encode_party = λ p. some p;
}

-- The nonces have twelve bytes, and the public key 77 has 33.
abbrev small_host : Host
small_host = record host {
  bytes =
      λ n. if n == 77 then 2 ∷ (eight ++ eight ++ eight ++ eight) else eight ++ 0 ∷ 0 ∷ 0 ∷ 0 ∷ [];
}

abbrev one_party : Codec (DkgParty small)
one_party = record { encode = λ p. some p.round; decode = λ _. none }

-- The share of the wallet decodes to the point at 3, and another share is staged.
abbrev with_staged : Db
with_staged = record empty_db {
  device_keys = record { wallet_id = 7; public_key = 5 } ∷ [];
  key_shares =
      record { wallet_id = 7; share = record { ciphertext = 3; nonce = 3 }; public_key = 77 } ∷ [];
  pending_reshares =
      record {
        wallet_id = 7;
        reshare_id = 95;
        share = record { ciphertext = 8; nonce = 4 };
        expires_at = 2000 * nanos;
      }
      ∷ [];
  passkey_authorizations =
      record {
        wallet_id = 7;
        purpose = recovery;
        operation_id = 91;
        digest = 92;
        expires_at = 2000 * nanos;
        consumed_at = none;
      }
      ∷ [];
}

abbrev proof_with : ℕ → Proof
proof_with n = record { timestamp = some 1000000; nonce = some n; signature = some 9 }

abbrev reading : Reading
reading = record { check_ms = 1000000; now = 1000 * nanos; later = 1000 * nanos }

abbrev moments : ReshareMoments
moments = record {
  proof = reading;
  mark = 1001 * nanos;
  grant = 1001 * nanos;
  written = 1002 * nanos;
}

abbrev opening : ReshareCall small_host small one_party by_second one_key point_of (λ _ _. 92)
opening = starts (record { wallet_id = 7; reshare_id = 91 }) 50 (proof_with 1) moments f1 4

abbrev committing : ReshareCall small_host small one_party by_second one_key point_of (λ _ _. 92)
committing =
    commits (record { wallet_id = 7; reshare_id = 95 }) 50 (proof_with 3) reading (1003 * nanos)

abbrev calls : List (ReshareCall small_host small one_party by_second one_key point_of (λ _ _. 92))
calls =
    opening
    ∷ aborts (record { wallet_id = 7; reshare_id = 91 }) 50 (proof_with 2) reading
    ∷ committing
    ∷ []

reshare_keeps_live_example :
    ((handle_all small_host small one_party by_second one_key point_of
        (λ _ _. 92)
        calls
        with_staged).key_shares
      ≡ with_staged.key_shares)
    ⊎ HasCommit small_host small one_party by_second one_key point_of (λ _ _. 92) calls with_staged
reshare_keeps_live_example =
    reshare_keeps_live small_host small one_party by_second one_key point_of (λ _ _. 92) calls
      with_staged

session_opened :
    count_where
      (λ r. r.session_id == 91)
      (handle small_host small one_party by_second one_key point_of
        (λ _ _. 92)
        opening
        with_staged).reshare_sessions
    ≡ 1
unfolding handle count_where reshare_start authenticate device_key find_where delete_where
    parse_hex32 hex_pairs public_key consume_passkey_authorization open_reshare key_share
    open_sealed to_public_key start_reshare role_row reshare_row own_row row_of lagrange_at_zero
    start_with deal traverse seal put_reshare_session session_data to_index to_party new_envelope
    to_wire index_of weight put_row
session_opened = refl

share_swapped :
    find_where
      (λ r. r.wallet_id == 7)
      (handle small_host small one_party by_second one_key point_of
        (λ _ _. 92)
        committing
        with_staged).key_shares
    ≡ some (record { wallet_id = 7; share = record { ciphertext = 8; nonce = 4 }; public_key = 77 })
unfolding handle find_where reshare_commit authenticate device_key delete_where parse_hex32
    hex_pairs commit_reshare swap_share count_where update_where
share_swapped = refl
