-- ===== src/Server/Examples/RecoveryRuns.antt =====
-- Runs of a recovery: request 70 of wallet 7 for the key 5, started at 1000 with a cooling-off period
-- of 60 seconds.
use mpc_ext.Base.{
  ℕ, ◌+◌, ◌≤◌, ◌<◌, ◌≡◌, ◌⊎◌, ◌↔◌, refl, List, [], ◌∷◌, some, none, true, false, ◌&&◌, ◌==◌, All,
  is_some, count_where, find_where, update_where,
}
use mpc_ext.Server.Types.{Text, Blob, Status, Db, RecoveryRequest, empty_db, is_open}
use mpc_ext.Server.Recovery.{
  complete_recovery, cancel_recovery, done, not_ready, gone, create_recovery_request,
  recovery_request, judge, device_key, cools, is_recent, new_request, start_recovery_cooling,
  begin_cooling, sweep_cooling, register_device_key,
}
use mpc_ext.Server.Recovery.Events.{Call, registers, creates, starts, completes, run, step}
use mpc_ext.Server.Recovery.Completion.{IsReady, complete_iff_IsReady, complete_replaces_key}
use mpc_ext.Server.Recovery.CoolingOff.{Occurs, completion_waited}
use mpc_ext.Server.Recovery.Limits.{create_within_limit, device_key_changes_by_completion}
use mpc_ext.Server.Recovery.OneCooling.{run_one_cooling}
use mpc_ext.Server.Recovery.Settled.{completes_once, cancelled_never_completes}
use mpc_ext.Server.Recovery.State.{state_of, outcome_of, complete_agrees_with_state}

abbrev history : List (ℕ × Call)
history = (900, registers 7 4) ∷ (950, creates 70 7 5) ∷ (1000, starts 70 7) ∷ []

abbrev cooling_row : RecoveryRequest
cooling_row = record {
  request_id = 70;
  wallet_id = 7;
  status = Status.cooling;
  new_device_key = some 5;
  created_unix = 950;
  expires_unix = 2000;
  ready_unix = some 1060;
}

abbrev cooling_db : Db
cooling_db = record empty_db {
  recovery_requests = cooling_row ∷ [];
  device_keys = record { wallet_id = 7; public_key = 4 } ∷ [];
}

ready_run : (complete_recovery 70 7 1060 (run 60 history empty_db)).0 ≡ done
unfolding run complete_recovery judge recovery_request find_where step start_recovery_cooling
    count_where begin_cooling update_where sweep_cooling create_recovery_request register_device_key
ready_run = refl

early_run : (complete_recovery 70 7 1059 (run 60 history empty_db)).0 ≡ not_ready 1060
unfolding run complete_recovery judge recovery_request find_where step start_recovery_cooling
    count_where begin_cooling update_where sweep_cooling create_recovery_request register_device_key
early_run = refl

ready_row : (complete_recovery 70 7 1060 cooling_db).0 ≡ done
unfolding complete_recovery judge recovery_request find_where
ready_row = refl

found_row : recovery_request 70 7 cooling_db ≡ some cooling_row
unfolding recovery_request find_where
found_row = refl

cancelled_row : (cancel_recovery 70 7 cooling_db).0 ≡ true
unfolding cancel_recovery count_where
cancelled_row = refl

current_key : device_key 7 cooling_db ≡ some 4
unfolding device_key find_where
current_key = refl

completion_waited_example :
    (key : Blob) × (device_key 7 (complete_recovery 70 7 1060 (run 60 history empty_db)).1
      ≡ some key)
    × ((t : ℕ) × Occurs (t, creates 70 7 key) history)
    × ((t : ℕ) × Occurs (t, starts 70 7) history × (t + 60 ≤ 1060))
completion_waited_example = completion_waited 60 history 70 7 1060 ready_run

complete_iff_IsReady_example : ((complete_recovery 70 7 1060 cooling_db).0 ≡ done) ↔ (
    (r : RecoveryRequest) × (key : Blob) × (recovery_request 70 7 cooling_db ≡ some r)
    × IsReady r key 1060)
complete_iff_IsReady_example = complete_iff_IsReady 70 7 1060 cooling_db

run_one_cooling_example : count_where (cools 7) (run 60 history empty_db).recovery_requests ≤ 1
run_one_cooling_example = run_one_cooling 60 history 7

completes_once_example :
    (complete_recovery 70 7 1070
      (run 60 ((1065, starts 70 7) ∷ []) (complete_recovery 70 7 1060 cooling_db).1)).0
    ≡ gone
completes_once_example =
    completes_once 70 7 60 ((1065, starts 70 7) ∷ []) 1060 1070 cooling_db ready_row

cancelled_never_completes_example :
    (complete_recovery 70 7 1070
      (run 60 ((1065, starts 70 7) ∷ []) (cancel_recovery 70 7 cooling_db).1)).0
    ≡ gone
cancelled_never_completes_example =
    cancelled_never_completes 70 7 60 ((1065, starts 70 7) ∷ []) 1070 cooling_db cancelled_row

complete_replaces_key_example :
    (r : RecoveryRequest) × (key : Blob) × (recovery_request 70 7 cooling_db ≡ some r)
    × IsReady r key 1060
    × (device_key 7 (complete_recovery 70 7 1060 cooling_db).1 ≡ some key)
    × ((v : Text)
        → (v ≡ 7)
          ⊎ (device_key v (complete_recovery 70 7 1060 cooling_db).1 ≡ device_key v cooling_db))
    × All
        (λ x. ((x.wallet_id == 7) && is_open x.status) ≡ false)
        (complete_recovery 70 7 1060 cooling_db).1.recovery_requests
complete_replaces_key_example = complete_replaces_key 70 7 1060 cooling_db ready_row

device_key_changes_by_completion_example :
    (device_key 7 (step 60 (1060, completes 70 7) cooling_db) ≡ some 4)
    ⊎ ((rid : Text) × (completes 70 7 ≡ completes rid 7)
        × ((complete_recovery rid 7 1060 cooling_db).0 ≡ done))
device_key_changes_by_completion_example =
    device_key_changes_by_completion 60 1060 (completes 70 7) cooling_db 7 4 current_key

create_within_limit_example :
    let (r, db') = create_recovery_request 71 7 6 900 5 1000 cooling_db in
    let made = count_where (is_recent 7 1000) cooling_db.recovery_requests in
    let taken = is_some (find_where (λ r. r.request_id == 71) cooling_db.recovery_requests) in
    ((r ≡ some false) × (5 ≤ made) × (db' ≡ cooling_db))
    ⊎ ((r ≡ none) × (made < 5) × (taken ≡ true) × (db' ≡ cooling_db))
    ⊎ ((r ≡ some true)
        × (made < 5)
        × (taken ≡ false)
        × (db'.recovery_requests ≡ new_request 71 7 6 900 1000 ∷ cooling_db.recovery_requests)
        × (count_where (is_recent 7 1000) db'.recovery_requests ≡ made + 1)
        × (count_where (is_recent 7 1000) db'.recovery_requests ≤ 5))
create_within_limit_example = create_within_limit 71 7 6 900 5 1000 cooling_db

complete_agrees_with_state_example :
    (complete_recovery 70 7 1060 cooling_db).0 ≡ outcome_of (state_of cooling_row 1060)
complete_agrees_with_state_example =
    complete_agrees_with_state 70 7 1060 cooling_db cooling_row found_row
