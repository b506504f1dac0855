-- ===== src/Server/Examples/Access.antt =====
-- Device proofs on concrete inputs.
use mpc_ext.Base.{
  ◌+◌, ◌*◌, ◌≡◌, ◌⊎◌, ◌↔◌, refl, [], some, true, false, arith, find_where, delete_where,
}
use mpc_ext.Server.Types.{empty_db}
use mpc_ext.Server.Clock.{nanos}
use mpc_ext.Server.Auth.{
  Proof, Reading, granted, authenticate_with_key, is_skewed, sub_i64, abs_i64, gt_i64, sign_bit,
  read_headers, authenticate_headers, is_signed, reserve_device_nonce,
}
use mpc_ext.Server.Auth.Skew.{IsNear, not_skewed_iff}
use mpc_ext.Server.Auth.Nonces.{Reservation, reserve, reserve_all}
use mpc_ext.Server.Auth.Proven.{IsProven}
use mpc_ext.Server.Auth.Replay.{granted_iff_proven, replay_denied, replay_after_expiry}
use mpc_ext.Server.Examples.{by_second, one_key}

abbrev proof : Proof
proof = record { timestamp = some 1000000; nonce = some 3; signature = some 9 }

abbrev at_first : Reading
at_first = record { check_ms = 1000000; now = 1000 * nanos; later = 1000 * nanos }

abbrev soon_after : Reading
soon_after = record { check_ms = 1001000; now = 1001 * nanos; later = 1001 * nanos }

-- Six hundred and one seconds later, with a proof stamped 300 seconds ahead.
abbrev ahead : Proof
ahead = record { timestamp = some 1300000; nonce = some 3; signature = some 9 }

abbrev at_end : Reading
at_end = record { check_ms = 1600000; now = 1601 * nanos; later = 1601 * nanos }

first_granted :
    (authenticate_with_key by_second one_key 1 11 7 50 5 proof at_first empty_db).0 ≡ granted
unfolding authenticate_with_key read_headers authenticate_headers is_skewed sub_i64 abs_i64 gt_i64
    is_signed reserve_device_nonce delete_where find_where
first_granted = refl

ahead_proven : IsProven by_second one_key 1 11 7 50 5 ahead at_first empty_db
unfolding is_skewed sub_i64 abs_i64 gt_i64 is_signed reserve reserve_device_nonce delete_where
    find_where
ahead_proven = record {
  timestamp = 1300000;
  nonce = 3;
  signature = 9;
  bytes = 9;
  has_timestamp = refl;
  has_nonce = refl;
  has_signature = refl;
  near = ground arith;
  not_empty = omega arith;
  not_long = omega arith;
  is_key = refl;
  decoded = refl;
  is_signature = refl;
  verified = refl;
  fresh = tt;
}

granted_iff_proven_example :
    ((authenticate_with_key by_second one_key 1 11 7 50 5 proof at_first empty_db).0 ≡ granted)
    ↔ IsProven by_second one_key 1 11 7 50 5 proof at_first empty_db
granted_iff_proven_example =
    granted_iff_proven by_second one_key 1 11 7 50 5 proof at_first empty_db

replay_denied_example : ¬ (
    (authenticate_with_key by_second one_key 1 12 7 51 5 proof soon_after (
      reserve_all by_second []
        (authenticate_with_key by_second one_key 1 11 7 50 5 proof at_first empty_db).1)).0
    ≡ granted)
replay_denied_example =
    replay_denied by_second one_key 1 11 50 1 12 51 7 5 5 proof proof at_first soon_after []
      empty_db refl (ground arith) (ground arith) tt first_granted

still_near : is_skewed at_end.check_ms 1300000 ≡ false
unfolding is_skewed sub_i64 abs_i64 gt_i64
still_near = refl

replay_after_expiry_example :
    (authenticate_with_key by_second one_key 1 11 7 50 5 ahead at_end
      (authenticate_with_key by_second one_key 1 11 7 50 5 ahead at_first empty_db).1).0
    ≡ granted
unfolding ahead_proven
replay_after_expiry_example =
    replay_after_expiry by_second one_key 1 11 7 50 5 ahead at_first at_end empty_db ahead_proven
      still_near refl

abbrev reservation : Reservation
reservation = record {
  wallet_id = 7;
  nonce = 3;
  ttl_seconds = 600;
  now = 1000 * nanos;
  later = 1000 * nanos;
}

reserved : (reserve by_second reservation empty_db).0 ≡ true
unfolding reserve reserve_device_nonce delete_where find_where
reserved = refl

not_skewed_iff_example :
    (is_skewed 1000000 1300000 ≡ false) ↔ (IsNear 1000000 1300000 ⊎ (1300000 ≡ 1000000 + sign_bit))
not_skewed_iff_example = not_skewed_iff 1000000 1300000 (ground arith) (ground arith)
