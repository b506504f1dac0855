-- ===== src/Server/Recovery/OneCooling.antt =====
-- The unique index recovery_one_cooling, as an invariant of the store's recovery calls.
use mpc_ext.Base.{
  ℕ, ◌≤◌, ◌≡◌, ◌+◌, List, [], ◌∷◌, false, arith, count_where, count_where-update_where_le,
  count_where-update_where_same, ◌==◌, Bool-cases, inl, inr,
}
use native.Mathlib.Nat.{le_trans}
use mpc_ext.Server.Types.{Status, Text, Blob, Db, RecoveryRequest, empty_db}
use mpc_ext.Server.Recovery.{
  cancellable, cools, sweep_cooling, begin_cooling, start_recovery_cooling, end_requests,
  complete_recovery, create_recovery_request, cancel_recovery, register_device_key,
}
use mpc_ext.Server.Recovery.Completion.{complete_cases, requests-take_over}
use mpc_ext.Server.Recovery.Events.{Call, registers, creates, starts, completes, cancels, step, run}

-- No wallet has two requests in their cooling-off period.
abbrev pub OneCooling : Db → Type 0
OneCooling db = (w : Text) → count_where (cools w) db.recovery_requests ≤ 1

count-sweep_cooling-le :
    (v w : Text) (now : ℕ) (rs : List RecoveryRequest)
    → count_where (cools v) (sweep_cooling w now rs) ≤ count_where (cools v) rs
unfolding sweep_cooling
count-sweep_cooling-le v w now rs = count_where-update_where_le _ _ _ rs (λ r p q. ground arith)

-- Only the rows of `w` are touched.
count-begin_cooling_other :
    (v rid w : Text) (now ready last : ℕ) (rs : List RecoveryRequest)
    → (w == v) ≡ false
    → count_where (cools v) (begin_cooling rid w now ready last rs) ≡ count_where (cools v) rs
unfolding begin_cooling
count-begin_cooling_other v rid w now ready last rs apart =
    count_where-update_where_same _ _ _ rs (λ r p. ground arith)

start-OneCooling :
    (v rid w : Text) (cooling window now : ℕ) (db : Db)
    → OneCooling db
    → count_where (cools v) (start_recovery_cooling rid w cooling window now db).1.recovery_requests
      ≤ 1
unfolding start_recovery_cooling
start-OneCooling v rid w cooling window now db h = elim (Bool-cases (w == v)) [
  | inl same ↦ let e : w ≡ v = ground arith in rw (← e) (ground (arith, h w))
  | inr apart ↦
      let swept = sweep_cooling w now db.recovery_requests in
      ground (
        arith,
        h v,
        count-sweep_cooling-le v w now db.recovery_requests,
        count-begin_cooling_other v rid w now (now + cooling) (now + cooling + window) swept apart,
      )
]

count-end_requests-le :
    (v rid w : Text) (rs : List RecoveryRequest)
    → count_where (cools v) (end_requests rid w rs) ≤ count_where (cools v) rs
unfolding end_requests
count-end_requests-le v rid w rs =
    le_trans (count_where-update_where_le _ _ _ _ (λ r p q. ground arith))
      (count_where-update_where_le _ _ _ rs (λ r p q. ground arith))

complete-OneCooling :
    (v rid w : Text) (now : ℕ) (db : Db)
    → OneCooling db
    → count_where (cools v) (complete_recovery rid w now db).1.recovery_requests ≤ 1
complete-OneCooling v rid w now db h =
    complete_cases (λ d. count_where (cools v) d.recovery_requests ≤ 1) rid w now db (h v)
      λ key.
        rw (requests-take_over rid w key db)
          (omega (arith, h v, count-end_requests-le v rid w db.recovery_requests))

cancel-OneCooling :
    (v rid w : Text) (db : Db)
    → OneCooling db
    → count_where (cools v) (cancel_recovery rid w db).1.recovery_requests ≤ 1
unfolding cancel_recovery
cancel-OneCooling v rid w db h =
    let le =
      count_where-update_where_le (cools v) (cancellable rid w)
        (λ r. record r { status = Status.cancelled }) db.recovery_requests
        (λ r p q. ground arith) in
    ground (arith, h v, le)

create-OneCooling :
    (v rid w : Text) (key : Blob) (ttl limit now : ℕ) (db : Db)
    → OneCooling db
    → count_where (cools v) (create_recovery_request rid w key ttl limit now db).1.recovery_requests
      ≤ 1
unfolding create_recovery_request count_where
create-OneCooling v rid w key ttl limit now db h = ground (arith, h v)

-- Every call keeps the index.
pub step-OneCooling :
    (cooling : ℕ) (c : ℕ × Call) (db : Db) → OneCooling db → OneCooling (step cooling c db)
unfolding step register_device_key
step-OneCooling cooling (now, registers w key) db h v = ground (arith, h v)
step-OneCooling cooling (now, creates rid w key) db h v = create-OneCooling v rid w key _ _ now db h
step-OneCooling cooling (now, starts rid w) db h v = start-OneCooling v rid w cooling _ now db h
step-OneCooling cooling (now, completes rid w) db h v = complete-OneCooling v rid w now db h
step-OneCooling cooling (now, cancels rid w) db h v = cancel-OneCooling v rid w db h

run-OneCooling :
    (cooling : ℕ) (cs : List (ℕ × Call)) (db : Db) → OneCooling db → OneCooling (run cooling cs db)
unfolding run
run-OneCooling cooling [] db h = h
run-OneCooling cooling (c ∷ cs) db h =
    run-OneCooling cooling cs (step cooling c db) (step-OneCooling cooling c db h)

-- From the empty database no history of recovery calls, whatever its order and its times, leaves a
-- wallet with two requests in their cooling-off period.
pub run_one_cooling :
    (cooling : ℕ) (cs : List (ℕ × Call)) (w : Text)
    → count_where (cools w) (run cooling cs empty_db).recovery_requests ≤ 1
unfolding count_where
run_one_cooling cooling cs = run-OneCooling cooling cs empty_db λ w. omega arith
