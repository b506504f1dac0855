-- ===== src/Server/Examples/Sessions.antt =====
-- Sessions, key shares and reshares on concrete inputs, and the recovery handlers.
use mathlib.Core.Option
use mpc_ext.Base.{
  if◌then◌else◌, ◌≤◌, ◌+◌, ◌*◌, ◌==◌, ◌≡◌, ◌⊎◌, refl, List, [], ◌∷◌, some, none, true, not, arith,
  is_some, find_where, delete_where, count_where,
}
use mpc_ext.Server.Types.{Status, Sealed, SessionRow, RecoveryRequest, Db, empty_db}
use mpc_ext.Server.Clock.{nanos}
use mpc_ext.Server.Sessions.{
  has_id, put_row, take_row, take_sign_session, key_share, public_key, stage_reshare,
  commit_reshare,
}
use mpc_ext.Server.Sessions.Sweeping.{sweep_unseen}
use mpc_ext.Server.Sessions.{take_session, sweep_expired}
use mpc_ext.Server.Sessions.Live.{
  Call, commits, IsSwap, step, run, public_key_permanent, share_changes_by_commit,
}
use mpc_ext.Server.Sessions.Staging.{IsSwapped, staged_committed}
use mpc_ext.Server.Sessions.Deadlines.{Write, put_all, deadline_fixed}
use mpc_ext.Server.Auth.{
  Proof, Reading, authenticate_with_key, is_skewed, sub_i64, abs_i64, gt_i64, read_headers,
  authenticate_headers, is_signed, reserve_device_nonce,
}
use mpc_ext.Server.Types.{Blob}
use mpc_ext.Server.Recovery.Completion.{IsReady}
use mpc_ext.Server.Recovery.{device_key, recovery_request, complete_recovery, judge}
use mpc_ext.Server.Handlers.{
  RecoveryCall, Formats, Moments, reply, complete, complete_admitted, answer_completion,
  authenticated_request, check_found, check_own_key, admit, complete_path, status_path, status,
}
use mpc_ext.Server.Handlers.Guards.{IsOwned, HasGrant, complete_guarded, status_needs_grant}
use mpc_ext.Server.Examples.{by_second, one_key}

abbrev old_share : Sealed
old_share = record { ciphertext = 1; nonce = 2 }

abbrev new_share : Sealed
new_share = record { ciphertext = 3; nonce = 4 }

abbrev with_share : Db
with_share = record empty_db {
  key_shares = record { wallet_id = 7; share = old_share; public_key = 77 } ∷ [];
}

has_public_key : public_key 7 with_share ≡ some 77
unfolding public_key find_where
has_public_key = refl

has_share : key_share 7 with_share ≡ some old_share
unfolding key_share find_where
has_share = refl

one_row : count_where (λ r. r.wallet_id == 7) with_share.key_shares ≡ 1
unfolding count_where
one_row = refl

public_key_permanent_example :
    public_key 7 (run by_second (Call.stages 90 7 new_share 600 0 ∷ commits 90 7 1 ∷ []) with_share)
    ≡ some 77
public_key_permanent_example =
    public_key_permanent by_second (Call.stages 90 7 new_share 600 0 ∷ commits 90 7 1 ∷ []) 7 77
      with_share has_public_key

share_changes_by_commit_example :
    (key_share 7 (step by_second (commits 90 7 1) with_share) ≡ some old_share)
    ⊎ IsSwap by_second (commits 90 7 1) 7 with_share (step by_second (commits 90 7 1) with_share)
share_changes_by_commit_example =
    share_changes_by_commit by_second (commits 90 7 1) 7 old_share with_share has_share

staged_committed_example :
    IsSwapped by_second 7 new_share
      (commit_reshare by_second 90 7 (500 * nanos) (stage_reshare 90 7 new_share 600 0 with_share))
staged_committed_example =
    staged_committed by_second 90 7 new_share 600 0 (500 * nanos) with_share one_row (ground arith)

no_row : find_where (has_id 30) [] ≡ none
unfolding find_where
no_row = refl

abbrev later_writes : List Write
later_writes = (7, 2, new_share, 600, 100 * nanos) ∷ []

deadline_fixed_example :
    let found =
      (take_row by_second
        (has_id 30)
        (599 * nanos)
        (put_all 30 later_writes (put_row 30 7 1 old_share 600 0 []))).0 in
    (is_some found ≡ not (by_second.before (0 + 600 * nanos) (599 * nanos)))
    × (Option.map (λ r. r.wallet_id) found
        ≡ (if by_second.before (0 + 600 * nanos) (599 * nanos) then none else some 7))
    × (Option.map (λ r. r.expires_at) found ≡ (
        if by_second.before (0 + 600 * nanos) (599 * nanos) then none else some (0 + 600 * nanos)))
deadline_fixed_example =
    deadline_fixed by_second 30 7 1 old_share 600 0 (599 * nanos) later_writes [] no_row

abbrev signing : SessionRow
signing = record {
  session_id = 30;
  wallet_id = 7;
  round = 1;
  state = old_share;
  expires_at = 600 * nanos;
}

abbrev signing_db : Db
signing_db = record empty_db { sign_sessions = signing ∷ [] }

signing_found : find_where (has_id 30) signing_db.sign_sessions ≡ some signing
unfolding find_where
signing_found = refl

one_signing : count_where (has_id 30) signing_db.sign_sessions ≤ 1
unfolding count_where
one_signing = ground arith

no_dkg : count_where (has_id 30) signing_db.dkg_sessions ≤ 1
unfolding count_where
no_dkg = ground arith

sweep_unseen_example :
    ((take_session by_second 30
        (100 * nanos)
        (sweep_expired by_second (100 * nanos) signing_db).1).0
      ≡ (take_session by_second 30 (100 * nanos) signing_db).0)
    × ((take_sign_session by_second 30
          (100 * nanos)
          (sweep_expired by_second (100 * nanos) signing_db).1).0
        ≡ (take_sign_session by_second 30 (100 * nanos) signing_db).0)
sweep_unseen_example = sweep_unseen by_second 30 (100 * nanos) signing_db no_dkg one_signing

abbrev formats : Formats
formats = record {
  is_wallet_id = λ _. true;
  is_hex32 = λ _. true;
  assertion_digest = λ w k r. k;
  key_fingerprint = λ k. k;
}

abbrev call : RecoveryCall
call = record { wallet_id = 7; request_id = 70 }

abbrev proof : Proof
proof = record { timestamp = some 1060000; nonce = some 3; signature = some 9 }

abbrev reading : Reading
reading = record { check_ms = 1060000; now = 1060 * nanos; later = 1060 * nanos }

abbrev moments : Moments
moments = record {
  proof = reading;
  first = 1060;
  mark = 1060;
  grant = 1060;
  start = 1060;
  last = 1060;
}

abbrev ready_db : Db
ready_db = record empty_db {
  recovery_requests =
      record {
        request_id = 70;
        wallet_id = 7;
        status = Status.cooling;
        new_device_key = some 5;
        created_unix = 950;
        expires_unix = 2000;
        ready_unix = some 1060;
      }
      ∷ [];
}

completed_run :
    (complete by_second one_key formats call 50 proof reading 1060 ready_db).0 ≡ reply tt
unfolding complete complete_admitted answer_completion authenticated_request check_found
    check_own_key admit authenticate_with_key read_headers authenticate_headers is_skewed sub_i64
    abs_i64 gt_i64 is_signed reserve_device_nonce recovery_request complete_recovery judge
    delete_where find_where
completed_run = refl

complete_guarded_example :
    let after = (complete by_second one_key formats call 50 proof reading 1060 ready_db).1 in
    (r : RecoveryRequest) × (key : Blob) × IsOwned by_second one_key formats complete_path call 50
      proof reading ready_db r
    × IsReady r key 1060
    × (device_key 7 after ≡ some key)
    × (after
        ≡ (complete_recovery 70 7 1060
            (authenticated_request by_second one_key formats complete_path call 50 proof reading
              ready_db).1).1)
complete_guarded_example =
    complete_guarded by_second one_key formats call 50 proof reading 1060 ready_db completed_run

status_needs_grant_example :
    ((status by_second one_key formats 60 call 50 proof moments ready_db).1.recovery_requests
      ≡ ready_db.recovery_requests)
    ⊎ ((r : RecoveryRequest) × IsOwned by_second one_key formats status_path call 50 proof reading
          ready_db r
        × HasGrant by_second one_key formats call moments r
            (authenticated_request by_second one_key formats status_path call 50 proof reading
              ready_db).1)
status_needs_grant_example =
    status_needs_grant by_second one_key formats 60 call 50 proof moments ready_db
