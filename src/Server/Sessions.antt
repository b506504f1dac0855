-- ===== src/Server/Sessions.antt =====
-- The protocol sessions and the key shares of crates/mpc-server/src/store.rs. A method that reads the
-- clock takes the instant. The three session tables have the same columns, so each query on them is
-- one helper here.
pub mod Live
pub mod Staging
pub mod Sweeping
pub mod Deadlines
use mathlib.Core.Option
use mpc_ext.Base.{
  ℕ, ◌+◌, ◌*◌, List, [], ◌∷◌, Option, none, some, Bool, true, false, not, ◌&&◌, ◌==◌, if◌then◌else◌,
  is_some, find_where, update_where, delete_where, count_where,
}
use mpc_ext.Server.Types.{
  Text, Blob, Sealed, KeyShareRow, SessionRow, StagedRow, AuditEvent, AuditRow, Db, dkg_completed,
  sign_completed, reshare_staged, reshare_committed, reshare_aborted,
}
use mpc_ext.Server.Clock.{Stamps, nanos}
use mpc_ext.Server.Recovery.{log_event}

abbrev pub has_id : Text → SessionRow → Bool
has_id id r = r.session_id == id

-- INSERT … ON CONFLICT(session_id) DO UPDATE SET round, state, nonce: the row that is there keeps its
-- wallet and its deadline.
unfoldable pub put_row : Text → Text → ℕ → Sealed → ℕ → ℕ → List SessionRow → List SessionRow
put_row id w round state ttl_seconds now rows =
    if is_some (find_where (has_id id) rows)
    then update_where (has_id id) (λ r. record r { round = round; state = state }) rows
    else record {
      session_id = id;
      wallet_id = w;
      round = round;
      state = state;
      expires_at = now + ttl_seconds * nanos;
    }
      ∷ rows

unfoldable pub put_session : Text → Text → ℕ → Sealed → ℕ → ℕ → Db → Db
unfolding put_row
put_session id w round state ttl_seconds now db = record db {
  dkg_sessions = put_row id w round state ttl_seconds now db.dkg_sessions;
}

unfoldable pub put_reshare_session : Text → Text → ℕ → Sealed → ℕ → ℕ → Db → Db
unfolding put_row
put_reshare_session id w round state ttl_seconds now db = record db {
  reshare_sessions = put_row id w round state ttl_seconds now db.reshare_sessions;
}

-- The digest column is written and not read back.
unfoldable pub put_sign_session : Text → Text → ℕ → Sealed → ℕ → ℕ → Db → Db
unfolding put_row
put_sign_session id w round state ttl_seconds now db = record db {
  sign_sessions = put_row id w round state ttl_seconds now db.sign_sessions;
}

unfoldable pub key_share : Text → Db → Option Sealed
key_share w db = Option.map (λ r. r.share) (find_where (λ r. r.wallet_id == w) db.key_shares)

unfoldable pub public_key : Text → Db → Option Blob
public_key w db = Option.map (λ r. r.public_key) (find_where (λ r. r.wallet_id == w) db.key_shares)

-- The result is whether the transaction was committed: a wallet that has a share refuses the insert.
unfoldable pub finish_dkg : Text → Text → Sealed → Blob → Db → Bool × Db
unfolding log_event
finish_dkg id w share key db =
    if is_some (find_where (λ r. r.wallet_id == w) db.key_shares) then (false, db) else (
      true,
      log_event w dkg_completed (record db {
        dkg_sessions = delete_where (has_id id) db.dkg_sessions;
        key_shares = record { wallet_id = w; share = share; public_key = key } ∷ db.key_shares;
      }),
    )

-- ON CONFLICT(wallet_id) DO UPDATE: a wallet keeps one staged share.
unfoldable pub stage_row : Text → Text → Sealed → ℕ → List StagedRow → List StagedRow
stage_row id w share expires rows =
    if is_some (find_where (λ r. r.wallet_id == w) rows)
    then update_where (λ r. r.wallet_id == w)
        (λ r. record r { reshare_id = id; share = share; expires_at = expires }) rows
    else record { wallet_id = w; reshare_id = id; share = share; expires_at = expires } ∷ rows

unfoldable pub stage_reshare : Text → Text → Sealed → ℕ → ℕ → Db → Db
unfolding log_event stage_row
stage_reshare id w share ttl_seconds now db = log_event w reshare_staged (record db {
  reshare_sessions = delete_where (has_id id) db.reshare_sessions;
  pending_reshares = stage_row id w share (now + ttl_seconds * nanos) db.pending_reshares;
})

abbrev pub is_staged_for : Text → Text → StagedRow → Bool
is_staged_for id w r = (r.reshare_id == id) && (r.wallet_id == w)

unfoldable pub abort_reshare : Text → Text → Db → Db
unfolding log_event
abort_reshare id w db = log_event w reshare_aborted (record db {
  reshare_sessions = delete_where (λ r. has_id id r && (r.wallet_id == w)) db.reshare_sessions;
  pending_reshares = delete_where (is_staged_for id w) db.pending_reshares;
})

-- sign.completed carries the sign id.
unfoldable pub finish_sign : Text → Text → Db → Db
finish_sign id w db = record db {
  sign_sessions = delete_where (has_id id) db.sign_sessions;
  audit_log = record { wallet_id = w; event = sign_completed; detail = some id } ∷ db.audit_log;
}

module _ (s : Stamps) where
  -- The read of a session that `mine` selects; one that has expired is deleted, and reads as absent.
  unfoldable pub take_row :
      (SessionRow → Bool) → ℕ → List SessionRow → Option SessionRow × List SessionRow
  take_row mine now rows = elim (find_where mine rows) [
    | none ↦ (none, rows)
    | some r ↦
        if s.before r.expires_at now
        then (none, delete_where (has_id r.session_id) rows)
        else (some r, rows)
  ]

  unfoldable pub take_session : Text → ℕ → Db → Option (ℕ × Sealed) × Db
  unfolding take_row
  take_session id now db =
      let (found, rows) = take_row (has_id id) now db.dkg_sessions in
      (Option.map (λ r. (r.round, r.state)) found, record db { dkg_sessions = rows })

  unfoldable pub take_reshare_session : Text → Text → ℕ → Db → Option Sealed × Db
  unfolding take_row
  take_reshare_session id w now db =
      let (found, rows) =
        take_row (λ r. has_id id r && (r.wallet_id == w)) now db.reshare_sessions in
      (Option.map (λ r. r.state) found, record db { reshare_sessions = rows })

  unfoldable pub take_sign_session : Text → ℕ → Db → Option Sealed × Db
  unfolding take_row
  take_sign_session id now db =
      let (found, rows) = take_row (has_id id) now db.sign_sessions in
      (Option.map (λ r. r.state) found, record db { sign_sessions = rows })

  -- WHERE wallet_id = ? AND reshare_id = ? AND expires_at >= ?
  abbrev pub is_committable : Text → Text → ℕ → StagedRow → Bool
  is_committable id w now r = is_staged_for id w r && not (s.before r.expires_at now)

  -- What commit_reshare does with the staged share that it read; no live share rolls it back.
  unfoldable pub swap_share : Text → Db → Option StagedRow → Bool × Db
  unfolding log_event
  swap_share w db none = (false, db)
  swap_share w db (some staged) =
      if count_where (λ r. r.wallet_id == w) db.key_shares == 1
      then (
        true,
        log_event w reshare_committed (record db {
          key_shares =
              update_where (λ r. r.wallet_id == w) (λ r. record r { share = staged.share })
                db.key_shares;
          pending_reshares = delete_where (λ r. r.wallet_id == w) db.pending_reshares;
        }),
      )
      else (false, db)

  unfoldable pub commit_reshare : Text → Text → ℕ → Db → Bool × Db
  unfolding swap_share
  commit_reshare id w now db =
      swap_share w db (find_where (is_committable id w now) db.pending_reshares)

  -- The result is the number of rows deleted.
  unfoldable pub sweep_expired : ℕ → Db → ℕ × Db
  sweep_expired now db =
      let old : SessionRow → Bool = λ r. s.before r.expires_at now in
      let stale : StagedRow → Bool = λ r. s.before r.expires_at now in
      (
        count_where old db.dkg_sessions
            + count_where old db.sign_sessions
            + count_where old db.reshare_sessions
            + count_where stale db.pending_reshares,
        record db {
          dkg_sessions = delete_where old db.dkg_sessions;
          sign_sessions = delete_where old db.sign_sessions;
          reshare_sessions = delete_where old db.reshare_sessions;
          pending_reshares = delete_where stale db.pending_reshares;
        },
      )
