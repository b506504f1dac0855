-- ===== src/Server/Recovery/Completion.antt =====
-- What complete_recovery of crates/mpc-server/src/store.rs requires, and what it changes.
use mpc_ext.Base.{
  All-find_where, ◌⊎◌, Bool-cases, ℕ, ◌≤◌, ◌≡◌, refl, sym, ◌∙◌, ◌≢◌, ◌↔◌, ◌&&◌, true, false, Option,
  none, some, arith, ◌==◌, is_some, find_where, update_where, Option-cases, List, [], ◌∷◌, inl, inr,
  All, find_where_holds,
}
use mpc_ext.Server.Types.{Text, Blob, Status, Db, RecoveryRequest, is_open}
use mpc_ext.Server.Recovery.{
  done, gone, not_ready, device_key, take_over, conclude, commit_recovery, commit_row,
  complete_recovery, recovery_request, judge, end_requests, names_request,
}
use mpc_ext.Server.Recovery.KeySwap.{
  requests-replace_device_key, device_key-take_over, device_key-take_over_other,
}

commit_cases {ℓ} :
    (P : Db → Type ℓ) (rid w : Text) (o : Option RecoveryRequest) (db : Db)
    → P db
    → ((key : Blob) → P (take_over rid w key db))
    → P (commit_recovery rid w o db)
unfolding commit_recovery
commit_cases P rid w none db same taken = same
commit_cases P rid w (some r) db same taken = elim (Option-cases r.new_device_key) [
  | inl e ↦ rw (e, commit_row) same
  | inr (key, e) ↦ rw (e, commit_row) (taken key)
]

-- After a completion the database is as it was, or some key has taken the wallet over.
pub complete_cases {ℓ} :
    (P : Db → Type ℓ) (rid w : Text) (now : ℕ) (db : Db)
    → P db
    → ((key : Blob) → P (take_over rid w key db))
    → P (complete_recovery rid w now db).1
unfolding complete_recovery
complete_cases P rid w now db same taken =
    let row = recovery_request rid w db in
    elim (judge row now) as (λ v. P (conclude v rid w row db).1) [
      | done ↦ commit_cases P rid w row db same taken
      | not_ready _ ↦ same
      | gone ↦ same
    ]

-- The row that lets a completion through: past its cooling-off period and inside its window.
pub record IsReady (r : RecoveryRequest) (key : Blob) (now : ℕ) : Type 0 where
  pub ready : ℕ
  pub is_cooling : r.status ≡ Status.cooling
  pub ready_unix : r.ready_unix ≡ some ready
  pub past : ready ≤ now
  pub in_window : now ≤ r.expires_unix
  pub new_key : r.new_device_key ≡ some key

judge-done :
    (r : RecoveryRequest) (key : Blob) (now : ℕ)
    → r.new_device_key ≡ some key
    → judge (some r) now ≡ done
    → IsReady r key now
unfolding judge
judge-done r key now k h = elim (Option-cases r.ready_unix) [
  | inl e ↦ absurd (ground arith)
  | inr (ready, e) ↦ record {
    ready = ready;
    is_cooling = ground arith;
    ready_unix = e;
    past = ground arith;
    in_window = ground arith;
    new_key = k;
  }
]

key_of_named :
    (rid w : Text) (r : RecoveryRequest)
    → names_request rid w r ≡ true
    → (key : Blob) × (r.new_device_key ≡ some key)
key_of_named rid w r h = elim (Option-cases r.new_device_key) [
  | inl e ↦ absurd (ground arith)
  | inr found ↦ found
]

judge-none : (now : ℕ) → judge none now ≢ done
unfolding judge
judge-none now h = cc

pub recovery_request-named :
    (rid w : Text) (db : Db) (r : RecoveryRequest)
    → recovery_request rid w db ≡ some r
    → names_request rid w r ≡ true
unfolding recovery_request
recovery_request-named rid w db r e = find_where_holds _ db.recovery_requests r e

complete-commits :
    (rid w : Text) (now : ℕ) (db : Db) (r : RecoveryRequest) (key : Blob)
    → recovery_request rid w db ≡ some r
    → r.new_device_key ≡ some key
    → judge (some r) now ≡ done
    → (complete_recovery rid w now db).1 ≡ take_over rid w key db
unfolding complete_recovery
complete-commits rid w now db r key e k j = rw (e, j, commit_recovery, k, commit_row) refl

pub recovery_request-found :
    (rid w : Text) (db : Db) (r : RecoveryRequest)
    → recovery_request rid w db ≡ some r
    → is_some (find_where (names_request rid w) db.recovery_requests) ≡ true
unfolding recovery_request
recovery_request-found rid w db r e = rw e refl

-- The verdict is the result.
pub complete-judge :
    (rid w : Text) (now : ℕ) (db : Db)
    → (complete_recovery rid w now db).0 ≡ judge (recovery_request rid w db) now
unfolding complete_recovery
complete-judge rid w now db = ground arith

-- A completion that succeeds read a ready row, and made the writes for the row's key.
pub complete-done :
    (rid w : Text) (now : ℕ) (db : Db)
    → (complete_recovery rid w now db).0 ≡ done
    → (r : RecoveryRequest) × (key : Blob) × (recovery_request rid w db ≡ some r)
      × IsReady r key now
      × ((complete_recovery rid w now db).1 ≡ take_over rid w key db)
complete-done rid w now db h =
    let verdict = sym (complete-judge rid w now db) ∙ h in
    elim (Option-cases (recovery_request rid w db)) [
      | inl e ↦ absurd (judge-none now (rw e at verdict))
      | inr (r, e) ↦
          let (key, k) = key_of_named rid w r (recovery_request-named rid w db r e) in
          let j : judge (some r) now ≡ done = rw e at verdict in
          (r, key, e, judge-done r key now k j, complete-commits rid w now db r key e k j)
    ]

judge-IsReady :
    (r : RecoveryRequest) (key : Blob) (now : ℕ) → IsReady r key now → judge (some r) now ≡ done
unfolding judge
judge-IsReady r key now v = ground (arith, v.ready_unix, v.past, v.in_window, v.is_cooling)

-- complete_recovery succeeds exactly when the wallet has a request under this id that is cooling,
-- whose cooling-off period has ended, and whose completion window has not.
pub complete_iff_IsReady :
    (rid w : Text) (now : ℕ) (db : Db)
    → ((complete_recovery rid w now db).0 ≡ done) ↔ (
        (r : RecoveryRequest) × (key : Blob) × (recovery_request rid w db ≡ some r)
        × IsReady r key now)
complete_iff_IsReady rid w now db = (
  λ h. let (r, key, e, v, _) = complete-done rid w now db h in (r, key, e, v),
  λ (r, key, e, v). rw (complete-judge rid w now db, e) (judge-IsReady r key now v),
)

no_open_left :
    (rid w : Text) (rs : List RecoveryRequest)
    → All (λ x. ((x.wallet_id == w) && is_open x.status) ≡ false) (end_requests rid w rs)
unfolding end_requests update_where
no_open_left rid w [] = tt
no_open_left rid w (r ∷ rs) = (ground arith, no_open_left rid w rs)

pub requests-take_over :
    (rid w : Text) (key : Blob) (db : Db)
    → (take_over rid w key db).recovery_requests ≡ end_requests rid w db.recovery_requests
unfolding take_over
requests-take_over rid w key db = rw (requests-replace_device_key w key db) refl

-- A completion that succeeds hands the wallet to the key of the request that was ready, leaves
-- every other wallet's key alone, and leaves the wallet with no open request.
pub complete_replaces_key :
    (rid w : Text) (now : ℕ) (db : Db)
    → (complete_recovery rid w now db).0 ≡ done
    → let db' = (complete_recovery rid w now db).1 in
      (r : RecoveryRequest) × (key : Blob) × (recovery_request rid w db ≡ some r)
      × IsReady r key now
      × (device_key w db' ≡ some key)
      × ((v : Text) → (v ≡ w) ⊎ (device_key v db' ≡ device_key v db))
      × All (λ x. ((x.wallet_id == w) && is_open x.status) ≡ false) db'.recovery_requests
complete_replaces_key rid w now db h =
    let (r, key, e, v, after) = complete-done rid w now db h in
    (
      r,
      key,
      e,
      v,
      rw after (device_key-take_over rid w key db),
      λ u. elim (Bool-cases (u == w)) [
        | inl same ↦ inl (ground arith)
        | inr other ↦ inr (rw after (device_key-take_over_other u rid w key db (λ e. ground arith)))
      ],
      rw (after, requests-take_over rid w key db) (no_open_left rid w db.recovery_requests),
    )

-- In every other case the database is as it was.
pub complete_refused :
    (rid w : Text) (now : ℕ) (db : Db)
    → (complete_recovery rid w now db).0 ≢ done
    → (complete_recovery rid w now db).1 ≡ db
unfolding complete_recovery
complete_refused rid w now db h = ground arith

-- What holds of every row holds of the row that a completion reads.
pub All-recovery_request {ℓ} :
    (P : RecoveryRequest → Type ℓ) (rid w : Text) (db : Db) (r : RecoveryRequest)
    → All P db.recovery_requests
    → recovery_request rid w db ≡ some r
    → P r
unfolding recovery_request
All-recovery_request P rid w db r all e = All-find_where P _ db.recovery_requests r all e
