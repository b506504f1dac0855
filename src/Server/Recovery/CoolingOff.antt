-- ===== src/Server/Recovery/CoolingOff.antt =====
-- Where a completed recovery came from: the calls of the history that made the row.
use mpc_ext.Base.{
  ℕ, ◌+◌, ◌≤◌, ◌≡◌, refl, ◌⊎◌, inl, inr, List, [], ◌∷◌, Bool, true, some, arith, All, All-map,
  All-update_where, update_where, subst,
}
use mpc_ext.Server.Types.{Text, Blob, Status, Db, RecoveryRequest, empty_db}
use mpc_ext.Server.Recovery.{
  done, device_key, names_request, sweep_cooling, begin_cooling, end_requests,
  start_recovery_cooling, complete_recovery, create_recovery_request, cancel_recovery, cancellable,
  register_device_key, awaits, new_request,
}
use mpc_ext.Server.Recovery.Completion.{
  complete_cases, requests-take_over, complete-done, recovery_request-named, All-recovery_request,
}
use mpc_ext.Server.Recovery.KeySwap.{device_key-take_over}
use mpc_ext.Server.Recovery.Events.{Call, registers, creates, starts, completes, cancels, step, run}

abbrev pub Occurs : ℕ × Call → List (ℕ × Call) → Type 0
Occurs c [] = ⊥
Occurs c (x ∷ xs) = (x ≡ c) ⊎ Occurs c xs

-- A call of `Past` asked for the row, and if the row is cooling, one started it `cooling` seconds
-- before its cooling-off period ends.
pub record HasOrigin (Past : ℕ × Call → Type 0) (cooling : ℕ) (r : RecoveryRequest) : Type 0 where
  pub made :
      (t : ℕ) × (key : Blob) × Past (t, creates r.request_id r.wallet_id key)
      × (r.new_device_key ≡ some key)
  pub begun :
      r.status ≡ Status.cooling
      → (t : ℕ) × Past (t, starts r.request_id r.wallet_id) × (r.ready_unix ≡ some (t + cooling))

module _ (Past : ℕ × Call → Type 0) (cooling : ℕ) where
  -- Closing a row keeps its origin.
  close_row :
      (r : RecoveryRequest) (s : Status)
      → (s ≡ Status.cooling → ⊥)
      → HasOrigin Past cooling r
      → HasOrigin Past cooling (record r { status = s })
  close_row r s ne h = record { made = h.made; begun = λ e. absurd (ne e) }

  close_rows :
      (p : RecoveryRequest → Bool) (s : Status) (rs : List RecoveryRequest)
      → (s ≡ Status.cooling → ⊥)
      → All (HasOrigin Past cooling) rs
      → All (HasOrigin Past cooling) (update_where p (λ r. record r { status = s }) rs)
  close_rows p s rs ne =
      All-update_where (HasOrigin Past cooling) p _ rs (λ r _ h. close_row r s ne h)

  end_requests-HasOrigin :
      (rid w : Text) (rs : List RecoveryRequest)
      → All (HasOrigin Past cooling) rs
      → All (HasOrigin Past cooling) (end_requests rid w rs)
  unfolding end_requests
  end_requests-HasOrigin rid w rs h =
      close_rows _ Status.cancelled _ (λ e. cc) (close_rows _ Status.completed rs (λ e. cc) h)

  complete-HasOrigin :
      (rid w : Text) (now : ℕ) (db : Db)
      → All (HasOrigin Past cooling) db.recovery_requests
      → All (HasOrigin Past cooling) (complete_recovery rid w now db).1.recovery_requests
  complete-HasOrigin rid w now db h =
      complete_cases (λ d. All (HasOrigin Past cooling) d.recovery_requests) rid w now db h
        λ key. rw (requests-take_over rid w key db) (end_requests-HasOrigin rid w _ h)

  cancel-HasOrigin :
      (rid w : Text) (db : Db)
      → All (HasOrigin Past cooling) db.recovery_requests
      → All (HasOrigin Past cooling) (cancel_recovery rid w db).1.recovery_requests
  unfolding cancel_recovery
  cancel-HasOrigin rid w db h =
      ground
        (arith, close_rows (cancellable rid w) Status.cancelled db.recovery_requests (λ e. cc) h)

  begin_row :
      (rid w : Text) (now last : ℕ) (r : RecoveryRequest)
      → Past (now, starts rid w)
      → awaits rid w now r ≡ true
      → HasOrigin Past cooling r
      → HasOrigin Past cooling (record r {
        status = Status.cooling;
        ready_unix = some (now + cooling);
        expires_unix = last;
      })
  begin_row rid w now last r past p h =
      let same_id : rid ≡ r.request_id = ground arith in
      let same_wallet : w ≡ r.wallet_id = ground arith in
      record {
        made = h.made;
        begun = λ _. (
          now,
          subst (λ i. Past (now, starts i r.wallet_id)) same_id
              (subst (λ v. Past (now, starts rid v)) same_wallet past),
          refl,
        );
      }

  start-HasOrigin :
      (rid w : Text) (window now : ℕ) (db : Db)
      → Past (now, starts rid w)
      → All (HasOrigin Past cooling) db.recovery_requests
      → All
          (HasOrigin Past cooling)
          (start_recovery_cooling rid w cooling window now db).1.recovery_requests
  unfolding start_recovery_cooling sweep_cooling begin_cooling
  start-HasOrigin rid w window now db past h = ground (
    arith,
    All-update_where (HasOrigin Past cooling) (awaits rid w now)
        (λ r. record r {
          status = Status.cooling;
          ready_unix = some (now + cooling);
          expires_unix = now + cooling + window;
        })
        (sweep_cooling w now db.recovery_requests) (λ r p o. begin_row rid w now _ r past p o)
        (close_rows _ Status.expired db.recovery_requests (λ e. cc) h),
  )

  create-HasOrigin :
      (rid w : Text) (key : Blob) (ttl limit now : ℕ) (db : Db)
      → Past (now, creates rid w key)
      → All (HasOrigin Past cooling) db.recovery_requests
      → All
          (HasOrigin Past cooling)
          (create_recovery_request rid w key ttl limit now db).1.recovery_requests
  unfolding create_recovery_request
  create-HasOrigin rid w key ttl limit now db past h =
      let new : HasOrigin Past cooling (new_request rid w key ttl now) = record {
        made = (now, key, past, refl);
        begun = λ e. cc;
      } in
      ground (arith, new, h)

  step-HasOrigin :
      (c : ℕ × Call) (db : Db)
      → Past c
      → All (HasOrigin Past cooling) db.recovery_requests
      → All (HasOrigin Past cooling) (step cooling c db).recovery_requests
  unfolding step register_device_key
  step-HasOrigin (now, registers w key) db past h = ground (arith, h)
  step-HasOrigin (now, creates rid w key) db past h = create-HasOrigin rid w key _ _ now db past h
  step-HasOrigin (now, starts rid w) db past h = start-HasOrigin rid w _ now db past h
  step-HasOrigin (now, completes rid w) db past h = complete-HasOrigin rid w now db h
  step-HasOrigin (now, cancels rid w) db past h = cancel-HasOrigin rid w db h

HasOrigin-mono :
    (P Q : ℕ × Call → Type 0) (cooling : ℕ) (r : RecoveryRequest)
    → ((c : ℕ × Call) → P c → Q c)
    → HasOrigin P cooling r
    → HasOrigin Q cooling r
HasOrigin-mono P Q cooling r f h =
    let (t, key, past, k) = h.made in
    record {
      made = (t, key, f _ past, k);
      begun = λ e. let (t', past', ready) = h.begun e in (t', f _ past', ready);
    }

run-HasOrigin :
    (Past : ℕ × Call → Type 0) (cooling : ℕ) (cs : List (ℕ × Call)) (db : Db)
    → All (HasOrigin Past cooling) db.recovery_requests
    → All (HasOrigin (λ c. Past c ⊎ Occurs c cs) cooling) (run cooling cs db).recovery_requests
unfolding run
run-HasOrigin Past cooling [] db h =
    All-map db.recovery_requests (λ r. HasOrigin-mono Past _ cooling r (λ c p. inl p)) h
run-HasOrigin Past cooling (c ∷ cs) db h =
    let before = λ (x : ℕ × Call). Past x ⊎ (c ≡ x) in
    All-map (run cooling cs (step cooling c db)).recovery_requests
      (λ r. HasOrigin-mono (λ x. before x ⊎ Occurs x cs) _ cooling r (λ x. regroup x))
      (run-HasOrigin before cooling cs (step cooling c db) (
        step-HasOrigin before cooling c db (inr refl) (
          All-map db.recovery_requests (λ r. HasOrigin-mono Past before cooling r (λ x p. inl p))
            h)))
  where
    regroup : (x : ℕ × Call) → (Past x ⊎ (c ≡ x)) ⊎ Occurs x cs → Past x ⊎ Occurs x (c ∷ cs)
    regroup x (inl (inl p)) = inl p
    regroup x (inl (inr e)) = inr (inl e)
    regroup x (inr o) = inr (inr o)

from_past : (c : ℕ × Call) (cs : List (ℕ × Call)) → ⊥ ⊎ Occurs c cs → Occurs c cs
from_past c cs (inl e) = absurd e
from_past c cs (inr o) = o

same_request :
    (rid w : Text) (r : RecoveryRequest)
    → names_request rid w r ≡ true
    → (r.request_id ≡ rid) × (r.wallet_id ≡ w)
same_request rid w r h = (ground arith, ground arith)

-- In any history from the empty database, whatever its order and its times, a completion that
-- succeeds installs a device key that an earlier call of the history requested for this wallet under
-- this request id, and the cooling-off period of that request was started by an earlier call at least
-- the whole cooling-off period before.
pub completion_waited :
    (cooling : ℕ) (cs : List (ℕ × Call)) (rid w : Text) (now : ℕ)
    → (complete_recovery rid w now (run cooling cs empty_db)).0 ≡ done
    → (key : Blob) × (device_key w (complete_recovery rid w now (run cooling cs empty_db)).1
        ≡ some key)
      × ((t : ℕ) × Occurs (t, creates rid w key) cs)
      × ((t : ℕ) × Occurs (t, starts rid w) cs × (t + cooling ≤ now))
completion_waited cooling cs rid w now h =
    let db = run cooling cs empty_db in
    let (r, key, found, ready, after) = complete-done rid w now db h in
    let origins = run-HasOrigin (λ _. ⊥) cooling cs empty_db tt in
    let origin = All-recovery_request _ rid w db r origins found in
    let (id, wallet) = same_request rid w r (recovery_request-named rid w db r found) in
    let (t, key', made, named) = origin.made in
    let (s, begun, due) = origin.begun ready.is_cooling in
    let same_key : key' ≡ key = ground (arith, ready.new_key) in
    (
      key,
      rw after (device_key-take_over rid w key db),
      (
        t,
        rw (← id, ← wallet, ← same_key)
            (from_past (t, creates r.request_id r.wallet_id key') cs made),
      ),
      (
        s,
        rw (← id, ← wallet) (from_past (s, starts r.request_id r.wallet_id) cs begun),
        ground (arith, ready.ready_unix, ready.past),
      ),
    )
