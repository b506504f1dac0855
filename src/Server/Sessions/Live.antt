-- ===== src/Server/Sessions/Live.antt =====
-- The live key share and the public key of a wallet in crates/mpc-server/src/store.rs.
use mathlib.Core.Option
use mpc_ext.Base.{
  ℕ, ◌≡◌, ◌≢◌, ◌⊎◌, ◌∙◌, refl, ap, subst, List, [], ◌∷◌, Option, none, some, ◌==◌, find_where,
  update_where, count_where, arith, Bool-cases, inl, inr,
}
use mpc_ext.Server.Types.{Text, Blob, Sealed, KeyShareRow, StagedRow, Db}
use mpc_ext.Server.Clock.{Stamps}
use mpc_ext.Server.Recovery.{log_event}
use mpc_ext.Server.Sessions.{
  put_session, put_sign_session, put_reshare_session, take_session, take_sign_session,
  take_reshare_session, key_share, public_key, finish_dkg, finish_sign, stage_reshare,
  abort_reshare, swap_share, commit_reshare, sweep_expired, is_committable,
}

-- A call of the store that works on sessions and shares.
pub data Call : Type 0 where
  puts_session : Text → Text → ℕ → Sealed → ℕ → ℕ → Call
  puts_reshare_session : Text → Text → ℕ → Sealed → ℕ → ℕ → Call
  puts_sign_session : Text → Text → ℕ → Sealed → ℕ → ℕ → Call
  takes_session : Text → ℕ → Call
  takes_reshare_session : Text → Text → ℕ → Call
  takes_sign_session : Text → ℕ → Call
  finishes_dkg : Text → Text → Sealed → Blob → Call
  finishes_sign : Text → Text → Call
  stages : Text → Text → Sealed → ℕ → ℕ → Call
  commits : Text → Text → ℕ → Call
  aborts : Text → Text → Call
  sweeps : ℕ → Call

module _ (s : Stamps) where
  unfoldable pub step : Call → Db → Db
  unfolding put_session put_reshare_session put_sign_session take_session take_reshare_session
      take_sign_session finish_dkg finish_sign stage_reshare commit_reshare abort_reshare
      sweep_expired
  step (puts_session id w round state ttl now) db = put_session id w round state ttl now db
  step (puts_reshare_session id w round state ttl now) db =
      put_reshare_session id w round state ttl now db
  step (puts_sign_session id w round state ttl now) db =
      put_sign_session id w round state ttl now db
  step (takes_session id now) db = (take_session s id now db).1
  step (takes_reshare_session id w now) db = (take_reshare_session s id w now db).1
  step (takes_sign_session id now) db = (take_sign_session s id now db).1
  step (finishes_dkg id w share key) db = (finish_dkg id w share key db).1
  step (finishes_sign id w) db = finish_sign id w db
  step (stages id w share ttl now) db = stage_reshare id w share ttl now db
  step (commits id w now) db = (commit_reshare s id w now db).1
  step (aborts id w) db = abort_reshare id w db
  step (sweeps now) db = (sweep_expired s now db).1

  unfoldable pub run : List Call → Db → Db
  unfolding step
  run [] db = db
  run (c ∷ cs) db = run cs (step c db)

  -- Writing the share of one wallet leaves every public key.
  write_share-public_key :
      (v w : Text) (share : Sealed) (rows : List KeyShareRow)
      → Option.map
          (λ r. r.public_key)
          (find_where
            (λ r. r.wallet_id == w)
            (update_where (λ r. r.wallet_id == v) (λ r. record r { share = share }) rows))
        ≡ Option.map (λ r. r.public_key) (find_where (λ r. r.wallet_id == w) rows)
  unfolding find_where update_where
  write_share-public_key v w share [] = refl
  write_share-public_key v w share (r ∷ rows) =
      ground (arith, write_share-public_key v w share rows)

  write_share-other :
      (v w : Text) (share : Sealed) (rows : List KeyShareRow)
      → v ≢ w
      → find_where
          (λ r. r.wallet_id == w)
          (update_where (λ r. r.wallet_id == v) (λ r. record r { share = share }) rows)
        ≡ find_where (λ r. r.wallet_id == w) rows
  unfolding find_where update_where
  write_share-other v w share [] apart = refl
  write_share-other v w share (r ∷ rows) apart =
      ground (arith, write_share-other v w share rows apart)

  write_share-own :
      (v w : Text) (old share : Sealed) (rows : List KeyShareRow)
      → v ≡ w
      → Option.map (λ r. r.share) (find_where (λ r. r.wallet_id == w) rows) ≡ some old
      → Option.map
          (λ r. r.share)
          (find_where
            (λ r. r.wallet_id == w)
            (update_where (λ r. r.wallet_id == v) (λ r. record r { share = share }) rows))
        ≡ some share
  unfolding find_where update_where
  write_share-own v w old share [] e h = cc
  write_share-own v w old share (r ∷ rows) e h =
      ground (arith, write_share-own v w old share rows e)

  swap_share-public_key :
      (v w : Text) (db : Db) (o : Option StagedRow)
      → public_key w (swap_share s v db o).1 ≡ public_key w db
  unfolding public_key swap_share log_event
  swap_share-public_key v w db none = refl
  swap_share-public_key v w db (some staged) =
      ground (arith, write_share-public_key v w staged.share db.key_shares)

  finish-public_key :
      (id v w : Text) (share : Sealed) (key k : Blob) (db : Db)
      → public_key w db ≡ some k
      → public_key w (finish_dkg id v share key db).1 ≡ some k
  unfolding public_key finish_dkg log_event find_where
  finish-public_key id v w share key k db h = ground arith

  step-public_key :
      (c : Call) (w : Text) (k : Blob) (db : Db)
      → public_key w db ≡ some k
      → public_key w (step c db) ≡ some k
  unfolding step public_key put_session put_reshare_session put_sign_session take_session
      take_reshare_session take_sign_session finish_sign stage_reshare commit_reshare abort_reshare
      sweep_expired log_event
  step-public_key (puts_session _ _ _ _ _ _) w k db h = h
  step-public_key (puts_reshare_session _ _ _ _ _ _) w k db h = h
  step-public_key (puts_sign_session _ _ _ _ _ _) w k db h = h
  step-public_key (takes_session _ _) w k db h = h
  step-public_key (takes_reshare_session _ _ _) w k db h = h
  step-public_key (takes_sign_session _ _) w k db h = h
  step-public_key (finishes_dkg id v share key) w k db h = finish-public_key id v w share key k db h
  step-public_key (finishes_sign _ _) w k db h = h
  step-public_key (stages _ _ _ _ _) w k db h = h
  step-public_key (commits id v now) w k db h =
      swap_share-public_key v w db (find_where (is_committable s id v now) db.pending_reshares) ∙ h
  step-public_key (aborts _ _) w k db h = h
  step-public_key (sweeps _) w k db h = h

  -- Once a wallet has a public key, no sequence of calls on its sessions and shares, reshares
  -- included, changes it.
  pub public_key_permanent :
      (cs : List Call) (w : Text) (k : Blob) (db : Db)
      → public_key w db ≡ some k
      → public_key w (run cs db) ≡ some k
  unfolding run
  public_key_permanent [] w k db h = h
  public_key_permanent (c ∷ cs) w k db h =
      public_key_permanent cs w k (step c db) (step-public_key c w k db h)

  finish-key_share :
      (id v w : Text) (old share : Sealed) (key : Blob) (db : Db)
      → key_share w db ≡ some old
      → key_share w (finish_dkg id v share key db).1 ≡ some old
  unfolding key_share finish_dkg log_event find_where
  finish-key_share id v w old share key db h = ground arith

  -- How a call can change the live share of a wallet that has one: it is a commit, and the share is
  -- then the one that was staged for that wallet under that id and had not expired.
  pub IsSwap : Call → Text → Db → Db → Type 0
  IsSwap c w db after =
      (id : Text) × (now : ℕ) × (staged : StagedRow) × (c ≡ commits id w now)
      × (find_where (is_committable s id w now) db.pending_reshares ≡ some staged)
      × (key_share w after ≡ some staged.share)

  swap_share-key_share :
      (v w : Text) (db : Db) (share : Sealed) (o : Option StagedRow)
      → key_share w db ≡ some share
      → (key_share w (swap_share s v db o).1 ≡ some share)
        ⊎ ((staged : StagedRow) × (v ≡ w)
            × (o ≡ some staged)
            × (key_share w (swap_share s v db o).1 ≡ some staged.share))
  unfolding key_share swap_share log_event
  swap_share-key_share v w db share none h = inl h
  swap_share-key_share v w db share (some staged) h =
      elim (Bool-cases (count_where (λ r. r.wallet_id == v) db.key_shares == 1)) [
        | inr none_there ↦ inl (ground arith)
        | inl one ↦ elim (Bool-cases (v == w)) [
          | inr other ↦
              inl (ground (arith, write_share-other v w staged.share db.key_shares (ground arith)))
          | inl same ↦
              let e : v ≡ w = ground arith in
              inr (
                staged,
                e,
                refl,
                ground (arith, write_share-own v w share staged.share db.key_shares e h),
              )
        ]
      ]

  -- A wallet's live share stays as it is under every call but a commit for that wallet, and then it is
  -- the share that was staged under that id and had not expired.
  pub share_changes_by_commit :
      (c : Call) (w : Text) (share : Sealed) (db : Db)
      → key_share w db ≡ some share
      → (key_share w (step c db) ≡ some share) ⊎ IsSwap c w db (step c db)
  unfolding step key_share put_session put_reshare_session put_sign_session take_session
      take_reshare_session take_sign_session finish_sign stage_reshare commit_reshare abort_reshare
      sweep_expired log_event IsSwap
  share_changes_by_commit (puts_session _ _ _ _ _ _) w share db h = inl h
  share_changes_by_commit (puts_reshare_session _ _ _ _ _ _) w share db h = inl h
  share_changes_by_commit (puts_sign_session _ _ _ _ _ _) w share db h = inl h
  share_changes_by_commit (takes_session _ _) w share db h = inl h
  share_changes_by_commit (takes_reshare_session _ _ _) w share db h = inl h
  share_changes_by_commit (takes_sign_session _ _) w share db h = inl h
  share_changes_by_commit (finishes_dkg id v new key) w share db h =
      inl (finish-key_share id v w share new key db h)
  share_changes_by_commit (finishes_sign _ _) w share db h = inl h
  share_changes_by_commit (stages _ _ _ _ _) w share db h = inl h
  share_changes_by_commit (commits id v now) w share db h =
      elim (swap_share-key_share v w db share
        (find_where (is_committable s id v now) db.pending_reshares) h) [
          | inl kept ↦ inl kept
          | inr (staged, e, found, swapped) ↦ inr (
            id,
            now,
            staged,
            ap (λ x. commits id x now) e,
            subst (λ x. find_where (is_committable s id x now) db.pending_reshares ≡ some staged) e
                found,
            swapped,
          )
        ]
  share_changes_by_commit (aborts _ _) w share db h = inl h
  share_changes_by_commit (sweeps _) w share db h = inl h
