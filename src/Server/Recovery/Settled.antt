-- ===== src/Server/Recovery/Settled.antt =====
-- Requests of crates/mpc-server/src/store.rs after a cancel or a completion, across later calls.
use mpc_ext.Base.{
  is_some-map, ◌<◌, ℕ, ◌+◌, ◌≡◌, refl, ◌∙◌, inl, inr, List, [], ◌∷◌, Bool, true, false, ◌&&◌, arith,
  All, ◌==◌, is_some, find_where, update_where, count_where, All-update_where,
  find_where-update_where, Option-cases, Bool-cases, find_where_holds, All-find_where,
  All-update_where_new, is_some-find_where_weaken, is_some-find_where_of_count,
}
use mpc_ext.Server.Types.{Text, Blob, Status, Db, RecoveryRequest, is_open}
use mpc_ext.Server.Recovery.{
  gone, done, sweep_cooling, begin_cooling, start_recovery_cooling, end_requests, complete_recovery,
  create_recovery_request, cancel_recovery, cancellable, register_device_key, recovery_request,
  names_request, judge,
}
use mpc_ext.Server.Recovery.Completion.{
  complete-done, complete_cases, recovery_request-found, requests-take_over,
}
use mpc_ext.Server.Recovery.Events.{Call, registers, creates, starts, completes, cancels, step, run}

abbrev pub has_id : Text → RecoveryRequest → Bool
has_id rid r = r.request_id == rid

-- Every request of the wallet under this id is closed.
abbrev pub IsClosed : Text → Text → RecoveryRequest → Type 0
IsClosed rid w r = ((r.request_id == rid) && (r.wallet_id == w) && is_open r.status) ≡ false

-- The id is taken, and what it names in this wallet is closed.
pub record IsSettled (rid w : Text) (rs : List RecoveryRequest) : Type 0 where
  pub taken : is_some (find_where (has_id rid) rs) ≡ true
  pub closed : All (IsClosed rid w) rs

-- An update that changes no id and opens no closed request keeps it so.
update-IsSettled :
    (rid w : Text) (p : RecoveryRequest → Bool) (f : RecoveryRequest → RecoveryRequest)
    (rs : List RecoveryRequest)
    → ((r : RecoveryRequest) → has_id rid (f r) ≡ has_id rid r)
    → ((r : RecoveryRequest) → p r ≡ true → IsClosed rid w r → IsClosed rid w (f r))
    → IsSettled rid w rs
    → IsSettled rid w (update_where p f rs)
update-IsSettled rid w p f rs key keep s = record {
  taken =
      rw (find_where-update_where (has_id rid) p f rs key)
        (is_some-map _ (find_where (has_id rid) rs) ∙ s.taken);
  closed = All-update_where (IsClosed rid w) p f rs keep s.closed;
}

settled_gone :
    (rid w : Text) (now : ℕ) (db : Db)
    → IsSettled rid w db.recovery_requests
    → (complete_recovery rid w now db).0 ≡ gone
unfolding complete_recovery recovery_request judge
settled_gone rid w now db s =
    elim (Option-cases (find_where (names_request rid w) db.recovery_requests)) [
      | inl e ↦ rw e refl
      | inr (r, e) ↦
          let c = All-find_where (IsClosed rid w) _ _ r s.closed e in
          let n = find_where_holds _ _ r e in rw e (ground arith)
    ]

end_requests-IsSettled :
    (rid w rid' w' : Text) (rs : List RecoveryRequest)
    → IsSettled rid w rs
    → IsSettled rid w (end_requests rid' w' rs)
unfolding end_requests
end_requests-IsSettled rid w rid' w' rs s =
    update-IsSettled rid w _ _ _ (λ r. refl) (λ r p c. ground arith)
      (update-IsSettled rid w _ _ rs (λ r. refl) (λ r p c. ground arith) s)

complete-IsSettled :
    (rid w rid' w' : Text) (now : ℕ) (db : Db)
    → IsSettled rid w db.recovery_requests
    → IsSettled rid w (complete_recovery rid' w' now db).1.recovery_requests
complete-IsSettled rid w rid' w' now db s =
    complete_cases (λ d. IsSettled rid w d.recovery_requests) rid' w' now db s
      λ key. rw (requests-take_over rid' w' key db) (end_requests-IsSettled rid w rid' w' _ s)

cancel-IsSettled :
    (rid w rid' w' : Text) (db : Db)
    → IsSettled rid w db.recovery_requests
    → IsSettled rid w (cancel_recovery rid' w' db).1.recovery_requests
unfolding cancel_recovery
cancel-IsSettled rid w rid' w' db s = ground (
  arith,
  update-IsSettled rid w (cancellable rid' w') (λ r. record r { status = Status.cancelled })
      db.recovery_requests (λ r. refl) (λ r p c. ground arith) s,
)

sweep-IsSettled :
    (rid w w' : Text) (now : ℕ) (rs : List RecoveryRequest)
    → IsSettled rid w rs
    → IsSettled rid w (sweep_cooling w' now rs)
unfolding sweep_cooling
sweep-IsSettled rid w w' now rs s =
    update-IsSettled rid w _ _ rs (λ r. refl) (λ r p c. ground arith) s

begin_cooling-IsSettled :
    (rid w rid' w' : Text) (now ready last : ℕ) (rs : List RecoveryRequest)
    → IsSettled rid w rs
    → IsSettled rid w (begin_cooling rid' w' now ready last rs)
unfolding begin_cooling
begin_cooling-IsSettled rid w rid' w' now ready last rs s =
    update-IsSettled rid w _ _ rs (λ r. refl) (λ r p c. ground arith) s

start-IsSettled :
    (rid w rid' w' : Text) (cooling window now : ℕ) (db : Db)
    → IsSettled rid w db.recovery_requests
    → IsSettled rid w (start_recovery_cooling rid' w' cooling window now db).1.recovery_requests
unfolding start_recovery_cooling
start-IsSettled rid w rid' w' cooling window now db s = ground (
  arith,
  begin_cooling-IsSettled rid w rid' w' now (now + cooling) (now + cooling + window) _
      (sweep-IsSettled rid w w' now db.recovery_requests s),
)

create-IsSettled :
    (rid w rid' w' : Text) (key : Blob) (ttl limit now : ℕ) (db : Db)
    → IsSettled rid w db.recovery_requests
    → IsSettled rid w (create_recovery_request rid' w' key ttl limit now db).1.recovery_requests
unfolding create_recovery_request find_where
create-IsSettled rid w rid' w' key ttl limit now db s = elim (Bool-cases (rid' == rid)) [
  | inl same ↦ let e : rid' ≡ rid = ground arith in rw e (ground arith)
  | inr fresh ↦ ground arith
]

step-IsSettled :
    (rid w : Text) (cooling : ℕ) (c : ℕ × Call) (db : Db)
    → IsSettled rid w db.recovery_requests
    → IsSettled rid w (step cooling c db).recovery_requests
unfolding step register_device_key
step-IsSettled rid w cooling (now, registers w' key) db s = ground arith
step-IsSettled rid w cooling (now, creates rid' w' key) db s =
    create-IsSettled rid w rid' w' key _ _ now db s
step-IsSettled rid w cooling (now, starts rid' w') db s =
    start-IsSettled rid w rid' w' cooling _ now db s
step-IsSettled rid w cooling (now, completes rid' w') db s =
    complete-IsSettled rid w rid' w' now db s
step-IsSettled rid w cooling (now, cancels rid' w') db s = cancel-IsSettled rid w rid' w' db s

run-IsSettled :
    (rid w : Text) (cooling : ℕ) (cs : List (ℕ × Call)) (db : Db)
    → IsSettled rid w db.recovery_requests
    → IsSettled rid w (run cooling cs db).recovery_requests
unfolding run
run-IsSettled rid w cooling [] db s = s
run-IsSettled rid w cooling (c ∷ cs) db s =
    run-IsSettled rid w cooling cs (step cooling c db) (step-IsSettled rid w cooling c db s)

cancelled_rows-IsSettled :
    (rid w : Text) (rs : List RecoveryRequest)
    → 0 < count_where (cancellable rid w) rs
    → IsSettled rid w
        (update_where (cancellable rid w) (λ r. record r { status = Status.cancelled }) rs)
cancelled_rows-IsSettled rid w rs some_row = record {
  taken =
      rw
        (find_where-update_where (has_id rid) (cancellable rid w)
          (λ r. record r { status = Status.cancelled }) rs (λ r. refl))
        (is_some-map _ (find_where (has_id rid) rs)
          ∙ is_some-find_where_weaken (cancellable rid w) (has_id rid) rs (λ r p. ground arith)
              (is_some-find_where_of_count (cancellable rid w) rs some_row));
  closed = All-update_where_new (IsClosed rid w) _ _ rs (λ r p. ground arith) (λ r p. ground arith);
}

cancel_settles :
    (rid w : Text) (db : Db)
    → (cancel_recovery rid w db).0 ≡ true
    → IsSettled rid w (cancel_recovery rid w db).1.recovery_requests
unfolding cancel_recovery
cancel_settles rid w db h = ground (arith, cancelled_rows-IsSettled rid w db.recovery_requests)

completed_rows-IsSettled :
    (rid w : Text) (rs : List RecoveryRequest)
    → is_some (find_where (names_request rid w) rs) ≡ true
    → IsSettled rid w (end_requests rid w rs)
unfolding end_requests
completed_rows-IsSettled rid w rs found =
    update-IsSettled rid w _ _ _ (λ r. refl) (λ r p c. ground arith)
      (record {
        taken =
            rw
              (find_where-update_where (has_id rid) (has_id rid)
                (λ r. record r { status = Status.completed }) rs (λ r. refl))
              (is_some-map _ (find_where (has_id rid) rs)
                ∙ is_some-find_where_weaken (names_request rid w) (has_id rid) rs
                    (λ r p. ground arith) found);
        closed =
            All-update_where_new (IsClosed rid w) _ _ rs (λ r p. ground arith)
              (λ r p. ground arith);
      })

-- Once a cancel has succeeded, the request can never be completed, whatever calls come in between
-- and whatever the time.
pub cancelled_never_completes :
    (rid w : Text) (cooling : ℕ) (cs : List (ℕ × Call)) (now : ℕ) (db : Db)
    → (cancel_recovery rid w db).0 ≡ true
    → (complete_recovery rid w now (run cooling cs (cancel_recovery rid w db).1)).0 ≡ gone
cancelled_never_completes rid w cooling cs now db h =
    settled_gone rid w now _ (run-IsSettled rid w cooling cs _ (cancel_settles rid w db h))

complete_settles :
    (rid w : Text) (now : ℕ) (db : Db)
    → (complete_recovery rid w now db).0 ≡ done
    → IsSettled rid w (complete_recovery rid w now db).1.recovery_requests
complete_settles rid w now db h =
    let (r, key, e, v, after) = complete-done rid w now db h in
    rw (after, requests-take_over rid w key db)
      (completed_rows-IsSettled rid w db.recovery_requests (recovery_request-found rid w db r e))

-- Once a completion has succeeded, the request can never be completed a second time, whatever calls
-- come in between and whatever the time.
pub completes_once :
    (rid w : Text) (cooling : ℕ) (cs : List (ℕ × Call)) (at now : ℕ) (db : Db)
    → (complete_recovery rid w at db).0 ≡ done
    → (complete_recovery rid w now (run cooling cs (complete_recovery rid w at db).1)).0 ≡ gone
completes_once rid w cooling cs at now db h =
    settled_gone rid w now _ (run-IsSettled rid w cooling cs _ (complete_settles rid w at db h))
