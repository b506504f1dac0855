-- ===== src/Server/Sessions/Staging.antt =====
-- A reshare from its staging to its commit or its abort, in crates/mpc-server/src/store.rs.
use mathlib.Core.Option
use mpc_ext.Base.{
  ℕ, ◌+◌, ◌*◌, ◌≡◌, refl, List, [], ◌∷◌, Option, none, some, Bool, true, false, ◌==◌, is_some,
  find_where, update_where, count_where, find_where-deleted, arith,
}
use mpc_ext.Server.Types.{Text, Sealed, KeyShareRow, StagedRow, Db}
use mpc_ext.Server.Clock.{Stamps, nanos}
use mpc_ext.Server.Recovery.{log_event}
use mpc_ext.Server.Sessions.{
  key_share, stage_row, stage_reshare, abort_reshare, swap_share, commit_reshare, is_committable,
  is_staged_for,
}

module _ (s : Stamps) where
  updated_found :
      (id w : Text) (share : Sealed) (expires now : ℕ) (rows : List StagedRow)
      → s.before expires now ≡ false
      → is_some (find_where (λ r. r.wallet_id == w) rows) ≡ true
      → Option.map
          (λ r. r.share)
          (find_where (is_committable s id w now) (
            update_where
              (λ r. r.wallet_id == w)
              (λ r. record r { reshare_id = id; share = share; expires_at = expires })
              rows))
        ≡ some share
  unfolding find_where update_where
  updated_found id w share expires now [] live h = cc
  updated_found id w share expires now (r ∷ rows) live h =
      ground (arith, updated_found id w share expires now rows live)

  -- After staging, the row of the wallet is the new one.
  staged_found :
      (id w : Text) (share : Sealed) (expires now : ℕ) (rows : List StagedRow)
      → s.before expires now ≡ false
      → Option.map
          (λ r. r.share)
          (find_where (is_committable s id w now) (stage_row id w share expires rows))
        ≡ some share
  unfolding stage_row find_where
  staged_found id w share expires now rows live =
      ground (arith, updated_found id w share expires now rows live)

  share_written :
      (w : Text) (share : Sealed) (rows : List KeyShareRow)
      → count_where (λ r. r.wallet_id == w) rows ≡ 1
      → Option.map
          (λ r. r.share)
          (find_where
            (λ r. r.wallet_id == w)
            (update_where (λ r. r.wallet_id == w) (λ r. record r { share = share }) rows))
        ≡ some share
  unfolding find_where update_where count_where
  share_written w share [] h = ground arith
  share_written w share (r ∷ rows) h = ground (arith, share_written w share rows)

  -- What a commit leaves: the share is live, and no further commit for the wallet succeeds.
  pub IsSwapped : Text → Sealed → Bool × Db → Type 0
  IsSwapped w share (committed, db) =
      (committed ≡ true)
      × (key_share w db ≡ some share)
      × ((id : Text) (now : ℕ) → (commit_reshare s id w now db).0 ≡ false)

  swap_share-IsSwapped :
      (w : Text) (share : Sealed) (db : Db) (o : Option StagedRow)
      → count_where (λ r. r.wallet_id == w) db.key_shares ≡ 1
      → Option.map (λ r. r.share) o ≡ some share
      → IsSwapped w share (swap_share s w db o)
  unfolding swap_share IsSwapped key_share commit_reshare log_event
  swap_share-IsSwapped w share db none one h = ground arith
  swap_share-IsSwapped w share db (some staged) one h = rw one (
    refl,
    ground (arith, share_written w staged.share db.key_shares one),
    λ id now.
        rw
          (find_where-deleted (is_committable s id w now) (λ r. r.wallet_id == w)
            db.pending_reshares (λ x hit. ground arith))
          refl,
  )

  -- A staged share that has not expired becomes the live share of its wallet when it is committed,
  -- provided that the wallet has one row in key_shares; the commit then cannot be repeated.
  pub staged_committed :
      (id w : Text) (share : Sealed) (ttl now later : ℕ) (db : Db)
      → count_where (λ r. r.wallet_id == w) db.key_shares ≡ 1
      → s.before (now + ttl * nanos) later ≡ false
      → IsSwapped w share (commit_reshare s id w later (stage_reshare id w share ttl now db))
  unfolding commit_reshare stage_reshare log_event
  staged_committed id w share ttl now later db one live =
      swap_share-IsSwapped w share (stage_reshare id w share ttl now db)
        (find_where (is_committable s id w later)
          (stage_row id w share (now + ttl * nanos) db.pending_reshares))
        one (staged_found id w share (now + ttl * nanos) later db.pending_reshares live)

  -- An abort leaves nothing of that reshare to commit.
  aborted_not_committed :
      (id w : Text) (now : ℕ) (db : Db)
      → commit_reshare s id w now (abort_reshare id w db) ≡ (false, abort_reshare id w db)
  unfolding commit_reshare swap_share abort_reshare log_event
  aborted_not_committed id w now db =
      rw
        (find_where-deleted (is_committable s id w now) (is_staged_for id w) db.pending_reshares
          (λ x h. ground arith))
        refl
