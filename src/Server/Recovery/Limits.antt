-- ===== src/Server/Recovery/Limits.antt =====
-- The rate limit on requests, and the calls that touch a device key (crates/mpc-server/src/store.rs).
use mpc_ext.Base.{
  ℕ, ◌+◌, ◌∷◌, ◌≤◌, ◌<◌, ◌≡◌, refl, ◌∙◌, ◌≢◌, ◌⊎◌, inl, inr, true, false, none, some, arith, ◌==◌,
  leb, is_some, count_where, find_where, Bool-cases,
}
use mpc_ext.Server.Types.{Text, Blob, Db, Status}
use mpc_ext.Server.Recovery.{
  RecoveryCompletion, done, not_ready, gone, create_recovery_request, is_recent,
  register_device_key, device_key, complete_recovery, start_recovery_cooling, cancel_recovery,
}
use mpc_ext.Server.Recovery.Completion.{complete_replaces_key, complete_refused}
use mpc_ext.Server.Recovery.Events.{Call, registers, creates, starts, completes, cancels, step}

-- A request is refused for its rate exactly when the wallet made `limit` in the hour before. Otherwise
-- the database refuses it, which it does exactly when its id is taken, or the request is recorded before
-- the others, awaiting its assertion until its lifetime ends, it counts as one more of the wallet in the
-- hour before, and these are at most `limit`. A refusal of either kind writes nothing.
pub create_within_limit :
    (rid w : Text) (key : Blob) (ttl limit now : ℕ) (db : Db)
    → let (r, db') = create_recovery_request rid w key ttl limit now db in
      let made = count_where (is_recent w now) db.recovery_requests in
      let taken = is_some (find_where (λ r. r.request_id == rid) db.recovery_requests) in
      ((r ≡ some false) × (limit ≤ made) × (db' ≡ db))
      ⊎ ((r ≡ none) × (made < limit) × (taken ≡ true) × (db' ≡ db))
      ⊎ ((r ≡ some true)
          × (made < limit)
          × (taken ≡ false)
          × (db'.recovery_requests
              ≡ record {
                request_id = rid;
                wallet_id = w;
                status = Status.awaiting_assertion;
                new_device_key = some key;
                created_unix = now;
                expires_unix = now + ttl;
                ready_unix = none;
              }
                ∷ db.recovery_requests)
          × (count_where (is_recent w now) db'.recovery_requests ≡ made + 1)
          × (count_where (is_recent w now) db'.recovery_requests ≤ limit))
unfolding create_recovery_request count_where
create_within_limit rid w key ttl limit now db =
    elim (Bool-cases (leb limit (count_where (is_recent w now) db.recovery_requests))) [
      | inl full ↦ inl (ground arith, ground arith, ground arith)
      | inr room ↦
          elim (Bool-cases (is_some (find_where (λ r. r.request_id == rid) db.recovery_requests))) [
            | inl there ↦ inr (inl (ground arith, ground arith, there, ground arith))
            | inr absent ↦
                inr (
                  inr
                    (ground arith, ground arith, absent, ground arith, ground arith, ground arith))
          ]
    ]

done_or_not : (c : RecoveryCompletion) → (c ≡ done) ⊎ (c ≢ done)
done_or_not done = inl refl
done_or_not (not_ready at) = inr (λ e. cc)
done_or_not gone = inr (λ e. cc)

device_key-register :
    (v w : Text) (key k : Blob) (db : Db)
    → device_key v db ≡ some k
    → device_key v (register_device_key w key db).1 ≡ some k
unfolding device_key register_device_key find_where
device_key-register v w key k db h = ground arith

device_key-same :
    (v : Text) (db db' : Db) → db'.device_keys ≡ db.device_keys → device_key v db' ≡ device_key v db
unfolding device_key
device_key-same v db db' e = rw e refl

keys-create :
    (rid w : Text) (key : Blob) (ttl limit now : ℕ) (db : Db)
    → (create_recovery_request rid w key ttl limit now db).1.device_keys ≡ db.device_keys
unfolding create_recovery_request
keys-create rid w key ttl limit now db = ground arith

keys-start :
    (rid w : Text) (cooling window now : ℕ) (db : Db)
    → (start_recovery_cooling rid w cooling window now db).1.device_keys ≡ db.device_keys
unfolding start_recovery_cooling
keys-start rid w cooling window now db = ground arith

keys-cancel : (rid w : Text) (db : Db) → (cancel_recovery rid w db).1.device_keys ≡ db.device_keys
unfolding cancel_recovery
keys-cancel rid w db = ground arith

-- A completion for another wallet leaves this one's key alone.
device_key_complete :
    (v rid w : Text) (now : ℕ) (db : Db)
    → ((complete_recovery rid w now db).0 ≡ done → v ≢ w)
    → device_key v (complete_recovery rid w now db).1 ≡ device_key v db
device_key_complete v rid w now db apart = elim (done_or_not (complete_recovery rid w now db).0) [
  | inl e ↦
      let (_, _, _, _, _, others, _) = complete_replaces_key rid w now db e in
      elim (others v) [ inl same ↦ absurd (apart e same) | inr kept ↦ kept ]
  | inr ne ↦ rw (complete_refused rid w now db ne) refl
]

-- Once a wallet has a device key, no call changes it but a completion for that wallet that succeeds.
pub device_key_changes_by_completion :
    (cooling : ℕ) (now : ℕ) (c : Call) (db : Db) (v : Text) (k : Blob)
    → device_key v db ≡ some k
    → (device_key v (step cooling (now, c) db) ≡ some k)
      ⊎ ((rid : Text) × (c ≡ completes rid v) × ((complete_recovery rid v now db).0 ≡ done))
unfolding step
device_key_changes_by_completion cooling now (registers w key) db v k h =
    inl (device_key-register v w key k db h)
device_key_changes_by_completion cooling now (creates rid w key) db v k h =
    inl (device_key-same v db _ (keys-create rid w key _ _ now db) ∙ h)
device_key_changes_by_completion cooling now (starts rid w) db v k h =
    inl (device_key-same v db _ (keys-start rid w cooling _ now db) ∙ h)
device_key_changes_by_completion cooling now (completes rid w) db v k h =
    elim (Bool-cases (v == w)) [
      | inl same ↦
          let e : w ≡ v = ground arith in
          elim (done_or_not (complete_recovery rid v now db).0) [
            | inl finished ↦ inr (rid, rw e refl, finished)
            | inr ne ↦ inl (rw (e, complete_refused rid v now db ne) h)
          ]
      | inr apart ↦ inl (device_key_complete v rid w now db (λ _. ground arith) ∙ h)
    ]
device_key_changes_by_completion cooling now (cancels rid w) db v k h =
    inl (device_key-same v db _ (keys-cancel rid w db) ∙ h)
