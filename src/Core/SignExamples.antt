-- ===== src/Core/SignExamples.antt =====
-- A signing session over toy messages that are all numbers, for the tests.
use mpc_ext.Base.{suc, ℕ, ◌≡◌, ◌<◌, refl, List, [], ◌∷◌, some, none, true, arith, All}
use mpc_ext.Core.Types.{Result, Error, ok, err, Envelope}
use mpc_ext.Core.Upstream.{Codec}
use mpc_ext.Core.Sign.{
  Signature, Signing, SignParty, sign_advance, sign_checked, check_sign_inbox, hex_into,
}
use mpc_ext.Core.Sign.Hex.{hex, hex_into-hex}
use mpc_ext.Core.Sign.Rounds.{SignOutcome, sign_advance-SignOutcome}
use mpc_ext.Core.Sign.Local.{sign_loop}
use mpc_ext.Core.Sign.Passes.{three_sign_passes}
use mpc_ext.Core.Sign.Outcome.{IsExpected, IsSpent, first_secret_once}

abbrev number : Codec ℕ
number = record { encode = λ n. some n; decode = λ n. some n }

abbrev pub toy_signing : Signing
toy_signing = record {
  Party = ℕ;
  Keep12 = ℕ;
  Keep23 = ℕ;
  Transmit12 = ℕ;
  Transmit23 = ℕ;
  Broadcast34 = ℕ;
  is_index = λ _. true;
  transmit12 = number;
  transmit23 = number;
  broadcast34 = number;
  receiver12 = λ n. n;
  receiver23 = λ n. n;
  decode_party = λ n. some n;
  sign_phase1 = λ _ _. some (1, 3 ∷ []);
  sign_phase2 = λ _ _ _ _. some (1, 3 ∷ []);
  sign_phase3 = λ _ _ _ _. some ([], 1);
  sign_phase4 = λ _ _ _ _. some ([], 0);
}

abbrev pub signer : SignParty toy_signing
signer = record {
  me = 0;
  counterparty = 2;
  round = 1;
  share = 5;
  sign_data = record { sign_id = 1; counterparty = 3; message_hash = 8 };
  keep_1to2 = some 1;
  keep_2to3 = none;
  x_coord = none;
  broadcasts = [];
}

abbrev from_stranger : Envelope
from_stranger = record { round = 1; from = 1; to = some 0; payload = 5 }

abbrev from_counterparty : Envelope
from_counterparty = record { round = 1; from = 2; to = some 0; payload = 5 }

stranger_not-IsExpected : ¬ All (IsExpected toy_signing signer) (from_stranger ∷ [])
unfolding IsExpected
stranger_not-IsExpected h = ground (arith, h.0.1)

stranger_refused :
    sign_advance toy_signing signer (from_stranger ∷ []) ≡ (err Error.backend, signer)
unfolding sign_advance sign_checked check_sign_inbox
stranger_refused = refl

first_secret_once_example :
    IsSpent toy_signing signer (sign_advance toy_signing signer (from_counterparty ∷ []))
first_secret_once_example = first_secret_once toy_signing signer (from_counterparty ∷ []) refl

sign_advance-SignOutcome_example :
    SignOutcome toy_signing 1 0 2 (sign_advance toy_signing signer (from_counterparty ∷ []))
sign_advance-SignOutcome_example =
    sign_advance-SignOutcome toy_signing signer (from_counterparty ∷ [])

abbrev other_signer : SignParty toy_signing
other_signer = record signer { me = 2; counterparty = 0 }

three_sign_passes_example :
    (result : Result Signature) × ((n : ℕ)
      → sign_loop toy_signing
          (suc (suc (suc n)))
          (signer ∷ other_signer ∷ [])
          (from_counterparty ∷ [])
        ≡ some result)
three_sign_passes_example =
    three_sign_passes toy_signing (from_counterparty ∷ []) signer (other_signer ∷ [])
      (refl, (refl, tt))

abbrev digest : List ℕ
digest =
    0 ∷ 15 ∷ 16 ∷ 255 ∷ 4 ∷ 5 ∷ 6 ∷ 7 ∷ 8 ∷ 9 ∷ 10 ∷ 11 ∷ 12 ∷ 13 ∷ 14 ∷ 200 ∷ 0 ∷ 15 ∷ 16 ∷ 255 ∷ 4
    ∷ 5 ∷ 6 ∷ 7 ∷ 8 ∷ 9 ∷ 10 ∷ 11 ∷ 12 ∷ 13 ∷ 14 ∷ 200 ∷ []

small_bytes : All (λ b. b < 256) digest
small_bytes = (
  ground arith,
  (
    ground arith,
    (
      ground arith,
      (
        ground arith,
        (
          ground arith,
          (
            ground arith,
            (
              ground arith,
              (
                ground arith,
                (
                  ground arith,
                  (
                    ground arith,
                    (
                      ground arith,
                      (
                        ground arith,
                        (
                          ground arith,
                          (
                            ground arith,
                            (
                              ground arith,
                              (
                                ground arith,
                                (
                                  ground arith,
                                  (
                                    ground arith,
                                    (
                                      ground arith,
                                      (
                                        ground arith,
                                        (
                                          ground arith,
                                          (
                                            ground arith,
                                            (
                                              ground arith,
                                              (
                                                ground arith,
                                                (
                                                  ground arith,
                                                  (
                                                    ground arith,
                                                    (
                                                      ground arith,
                                                      (
                                                        ground arith,
                                                        (
                                                          ground arith,
                                                          (
                                                            ground arith,
                                                            (ground arith, (ground arith, tt)),
                                                          ),
                                                        ),
                                                      ),
                                                    ),
                                                  ),
                                                ),
                                              ),
                                            ),
                                          ),
                                        ),
                                      ),
                                    ),
                                  ),
                                ),
                              ),
                            ),
                          ),
                        ),
                      ),
                    ),
                  ),
                ),
              ),
            ),
          ),
        ),
      ),
    ),
  ),
)

hex_into-hex_example : hex_into (hex digest) ≡ ok digest
hex_into-hex_example = hex_into-hex digest refl small_bytes
