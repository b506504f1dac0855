-- ===== src/Core/Examples.antt =====
-- A key generation over toy messages that are all numbers, for the tests.
use mpc_ext.Base.{ℕ, ◌≡◌, refl, List, [], ◌∷◌, some, none, arith, All, ltb}
use mpc_ext.Core.Drive.{
  run_locally, drive_started, drive_locally, drive_from, pass, take_progress, agree, inbox_of,
  start_all,
}
use mpc_ext.Core.Drive.Ends.{IsSettled, three_passes}
use mpc_ext.Core.Types.{Error, ok, err, Envelope, traverse}
use mpc_ext.Core.Upstream.{Codec, Dkls}
use mpc_ext.Core.Dkg.{
  start, start_with, deal, round2_envelopes, to_party, after_phase2, DkgParty, decode_envelope,
  round2,
}
use mpc_ext.Core.Dkg.Collecting.{round2_collects}
use mpc_ext.Core.Maps.{insert, get}
use mpc_ext.Core.Dkg.Rounds.{advance}
use mpc_ext.Core.Dkg.Delivery.{IsDue, advance_refuses, round2_order}
use mpc_ext.Core.Dkg.Outcome.{Outcome, advance-Outcome}

abbrev pub plain : Codec ℕ
plain = record { encode = λ n. some n; decode = λ n. some n }

abbrev pub doubled : Codec (ℕ × ℕ)
doubled = record { encode = λ n. some n.0; decode = λ n. some (n, n) }

abbrev pub toy : Dkls
toy = record {
  Scalar = ℕ;
  Proof = ℕ;
  Zero24 = ℕ;
  Zero34 = ℕ;
  Mul34 = ℕ;
  Bip24 = ℕ;
  Bip34 = ℕ;
  KeepZero23 = ℕ;
  KeepBip23 = ℕ;
  KeepZero34 = ℕ;
  KeepMul34 = ℕ;
  Party = ℕ;
  is_index = λ n. ltb 0 n;
  scalar = plain;
  round2_broadcast = doubled;
  zero24 = plain;
  round3_broadcast = plain;
  round3_private = doubled;
  receiver24 = λ n. n;
  receiver34 = λ n. n;
  receiver_mul = λ n. n;
  phase1 = λ _. 4 ∷ 5 ∷ 6 ∷ [];
  phase2 = λ _ _. (1, 1, 1, 2 ∷ 3 ∷ [], 1, 1);
  phase3 = λ _ _ _. (1, 2 ∷ 3 ∷ [], 1, 2 ∷ 3 ∷ [], 1);
  phase4 = λ _ _ _ _ _ _ _ _ _ _. some 1;
  no_zero23 = 0;
  no_zero34 = 0;
  no_mul34 = 0;
  public_key_of = λ p. some p;
  encode_party = λ p. some p;
}

abbrev pub party : DkgParty toy
party = record {
  me = 0;
  index = 1;
  round = 1;
  session = record { party_index = 1; session_id = 9 };
  fragments = (0, 4) ∷ [];
  poly_point = none;
  expected_public_key = none;
  zero_kept_2to3 = 0;
  bip_kept_2to3 = none;
  zero_kept_3to4 = 0;
  mul_kept_3to4 = 0;
  inbox = record {
    proofs = [];
    zero_2to4 = [];
    zero_3to4 = [];
    mul_3to4 = [];
    bip_2to4 = [];
    bip_3to4 = [];
  };
}

abbrev pub from_one : Envelope
from_one = record { round = 1; from = 1; to = some 0; payload = 5 }

abbrev pub from_two : Envelope
from_two = record { round = 1; from = 2; to = some 0; payload = 6 }

abbrev misdirected : Envelope
misdirected = record { round = 1; from = 2; to = some 1; payload = 6 }

advance-Outcome_example : Outcome toy 1 0 none (advance toy party (from_one ∷ from_two ∷ []))
advance-Outcome_example = advance-Outcome toy party (from_one ∷ from_two ∷ [])

misdirected_not-IsDue : ¬ All (IsDue 1 0) (misdirected ∷ [])
unfolding IsDue
misdirected_not-IsDue h = ground (arith, h.0.1)

advance_refuses_example : (x : Error) × (advance toy party (misdirected ∷ []) ≡ (err x, party))
advance_refuses_example = advance_refuses toy party (misdirected ∷ []) misdirected_not-IsDue

decoded_one : decode_envelope plain from_one ≡ ok 5
unfolding decode_envelope
decoded_one = refl

decoded_two : decode_envelope plain from_two ≡ ok 6
unfolding decode_envelope
decoded_two = refl

round2_order_example :
    round2 toy party (from_one ∷ from_two ∷ []) ≡ round2 toy party (from_two ∷ from_one ∷ [])
round2_order_example =
    round2_order toy party [] [] from_one from_two 5 6 (ground arith) decoded_one decoded_two

round2_collects_example :
    round2 toy party (from_one ∷ from_two ∷ [])
    ≡ after_phase2 toy (record party { fragments = insert 2 6 (insert 1 5 ((0, 4) ∷ [])) })
round2_collects_example =
    round2_collects toy party 4 5 6 from_one from_two refl (ground arith) (ground arith)
      (ground arith) decoded_one decoded_two

run_completes :
    run_locally toy 3 9
    ≡ some (
        ok (
          record { party = 0; secret = 1 }
              ∷ record { party = 1; secret = 1 }
              ∷ record { party = 2; secret = 1 }
              ∷ [],
          1,
        ))
unfolding run_locally drive_started drive_locally drive_from pass take_progress agree inbox_of
    start_all start start_with deal advance round2 decode_envelope insert round2_envelopes traverse
    to_party get
run_completes = refl

abbrev second_party : DkgParty toy
second_party = record party { me = 1; index = 2; fragments = (1, 5) ∷ [] }

abbrev pub third_party : DkgParty toy
third_party = record party { me = 2; index = 3; fragments = (2, 6) ∷ [] }

abbrev deals : List Envelope
deals =
    from_one
    ∷ from_two
    ∷ record { round = 1; from = 0; to = some 1; payload = 4 }
    ∷ record { round = 1; from = 2; to = some 1; payload = 6 }
    ∷ record { round = 1; from = 0; to = some 2; payload = 4 }
    ∷ record { round = 1; from = 1; to = some 2; payload = 5 }
    ∷ []

three_passes_example :
    IsSettled toy
      ((0, none) ∷ (1, none) ∷ (2, none) ∷ [])
      (drive_locally toy 3 (party ∷ second_party ∷ third_party ∷ []) deals)
three_passes_example =
    three_passes toy (party ∷ second_party ∷ third_party ∷ []) deals (refl, (refl, (refl, tt)))
