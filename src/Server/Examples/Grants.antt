-- ===== src/Server/Examples/Grants.antt =====
-- Grants, challenges and handoffs on concrete inputs.
use mpc_ext.Base.{
  ℕ, ◌*◌, ◌==◌, ◌≤◌, ◌≡◌, refl, List, [], ◌∷◌, some, none, true, false, arith, is_some, find_where,
  count_where,
}
use mpc_ext.Server.Types.{Blob, CeremonyRow, Db, empty_db, recovery, assert}
use mpc_ext.Server.Clock.{nanos}
use mpc_ext.Server.Grants.{
  put_passkey_authorization, consume_passkey_authorization, put_passkey_challenge_with_binding,
  take_passkey_challenge_with_binding,
}
use mpc_ext.Server.Grants.Authorizations
use mpc_ext.Server.Grants.Authorizations.{authorized_once}
use mpc_ext.Server.Grants.Challenges
use mpc_ext.Server.Grants.Challenges.{challenge_taken_once, challenge_bound}
use mpc_ext.Server.Ceremonies.{claim_browser_ceremony}
use mpc_ext.Server.Ceremonies.Claims.{claimed_once}
use mpc_ext.Server.Examples.{by_second}

abbrev recorded : List (ℕ × Authorizations.Call)
recorded = (1000 * nanos, Authorizations.Call.puts 7 recovery 70 8 300) ∷ []

authorized :
    (consume_passkey_authorization by_second 7 recovery 70 8 2
      (1001 * nanos)
      (Authorizations.run by_second recorded empty_db)).0
    ≡ true
unfolding consume_passkey_authorization put_passkey_authorization Authorizations.run
    Authorizations.step find_where count_where
authorized = refl

authorized_once_example :
    (consume_passkey_authorization by_second 7 recovery 70 8 3 (1002 * nanos) (
      Authorizations.run by_second []
        (consume_passkey_authorization by_second 7 recovery 70 8 2
          (1001 * nanos)
          (Authorizations.run by_second recorded empty_db)).1)).0
    ≡ false
authorized_once_example =
    authorized_once by_second 7 recovery 70 8 2 (1001 * nanos) 3 (1002 * nanos) recorded []
      authorized

abbrev stored : List (ℕ × Challenges.Call)
stored = (1000 * nanos, Challenges.Call.puts 60 7 2 8 9 300) ∷ []

taken :
    (take_passkey_challenge_with_binding by_second 60 7 2
      (1001 * nanos)
      (Challenges.run by_second stored empty_db)).0
    ≡ some (8, 9)
unfolding take_passkey_challenge_with_binding put_passkey_challenge_with_binding Challenges.run
    Challenges.step find_where
taken = refl

challenge_taken_once_example :
    (take_passkey_challenge_with_binding by_second 60 7 2 (1002 * nanos) (
      Challenges.run by_second []
        (take_passkey_challenge_with_binding by_second 60 7 2
          (1001 * nanos)
          (Challenges.run by_second stored empty_db)).1)).0
    ≡ none
challenge_taken_once_example =
    challenge_taken_once by_second 60 7 2 7 2 (1001 * nanos) (1002 * nanos) (8, 9) stored [] taken

put : (put_passkey_challenge_with_binding 60 7 2 8 9 300 (1000 * nanos) empty_db).0 ≡ true
unfolding put_passkey_challenge_with_binding find_where
put = refl

taken_back :
    (take_passkey_challenge_with_binding by_second 60 7 2 (1001 * nanos) (
      Challenges.run by_second []
        (put_passkey_challenge_with_binding 60 7 2 8 9 300 (1000 * nanos) empty_db).1)).0
    ≡ some (8, 9)
unfolding take_passkey_challenge_with_binding put_passkey_challenge_with_binding Challenges.run
    find_where
taken_back = refl

challenge_bound_example :
    (◌≡◌ {A = ℕ} 7 7) × (◌≡◌ {A = ℕ} 2 2) × (◌≡◌ {A = Blob × Blob} (8, 9) (8, 9))
challenge_bound_example =
    challenge_bound by_second 60 7 2 7 2 8 9 300 (1000 * nanos) (1001 * nanos) (8, 9) [] empty_db
      put taken_back

abbrev handoff : CeremonyRow
handoff = record {
  session_id = 40;
  handoff_hash = 41;
  wallet_id = 7;
  kind = assert;
  purpose = recovery;
  operation_id = some 70;
  digest = some 8;
  challenge_id = none;
  options = none;
  expires_at = 2000 * nanos;
  claimed_at = none;
  completed_at = none;
  cancelled_at = none;
}

abbrev handed : Db
handed = record empty_db { browser_ceremonies = handoff ∷ [] }

one_handoff : count_where (λ r. r.handoff_hash == 41) handed.browser_ceremonies ≤ 1
unfolding count_where
one_handoff = ground arith

claimed : is_some (claim_browser_ceremony by_second 41 (1000 * nanos) handed).0 ≡ true
unfolding claim_browser_ceremony find_where
claimed = refl

claimed_once_example :
    (claim_browser_ceremony by_second 41
      (1001 * nanos)
      (claim_browser_ceremony by_second 41 (1000 * nanos) handed).1).0
    ≡ none
claimed_once_example =
    claimed_once by_second 41 (1000 * nanos) (1001 * nanos) handed one_handoff claimed
