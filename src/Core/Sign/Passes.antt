-- ===== src/Core/Sign/Passes.antt =====
-- The loop of `sign_locally` of crates/mpc-core/src/protocol.rs.
use mpc_ext.Base.{
  Option, ◌++◌, ℕ, suc, ◌+◌, ◌≡◌, ◌<◌, ◌∙◌, ap, refl, sym, subst, List, [], ◌∷◌, none, some, arith,
}
use mpc_ext.Core.Types.{KeyShare, Bytes, Result, ok, err, Envelope, Holds}
use mpc_ext.Core.Drive.{inbox_of}
use mpc_ext.Core.Sign.{sign_start, Signing, Signature, SignParty, sign_advance}
use mpc_ext.Core.Sign.Rounds.{SignOutcome, sign_advance-SignOutcome}
use mpc_ext.Core.Sign.Turns.{
  Passed, IsOn, HasSignature, rest_of, started_round, rest-HasSignature, pass-IsInhabited,
  pass-HasSignature, AllAt, IsInhabited,
}
use mpc_ext.Core.Sign.Local.{sign_loop, sign_locally, SignTotals, sign_pass, sign_passes}

module _ (u : Signing) where
  abbrev none_yet : SignTotals
  none_yet = record { next = []; signature = none }

  -- What the loop does with the outcome of a pass.
  abbrev go_on : ℕ → Result (Passed u) → Option (Result Signature)
  go_on left (err x) = some (err x)
  go_on left (ok r) = elim r.1.signature [
    | some sig ↦ some (ok sig)
    | none ↦ sign_loop u left r.0 r.1.next
  ]

  -- The loop ends with the same result for each of these numbers of passes.
  abbrev Settles : (ℕ → ℕ) → List Envelope → List (SignParty u) → Type 0
  Settles passes in_flight ps =
      (result : Result Signature) × ((n : ℕ) → sign_loop u (passes n) ps in_flight ≡ some result)

  signed_ends :
      (passes : ℕ → ℕ) (r : Result (Passed u))
      → Holds (HasSignature u) r
      → (result : Result Signature) × ((n : ℕ) → go_on (passes n) r ≡ some result)
  unfolding Holds HasSignature
  signed_ends passes (err x) h = (err x, λ n. refl)
  signed_ends passes (ok r) (sig, e) = (ok sig, λ n. rw e refl)

  later_ends :
      (k : ℕ) (passes : ℕ → ℕ) (r : Result (Passed u))
      → Holds (λ r. IsOn u (k + 1) r × IsInhabited u r.0) r
      → ((in_flight : List Envelope) (qs : List (SignParty u))
          → AllAt u (k + 1) qs
          → IsInhabited u qs
          → Settles passes in_flight qs)
      → (result : Result Signature) × ((n : ℕ) → go_on (passes n) r ≡ some result)
  unfolding Holds IsOn
  later_ends k passes (err x) h settle = (err x, λ n. refl)
  later_ends k passes (ok r) h settle =
      let (result, ends) = settle r.1.next r.0 h.0.0 h.1 in (result, λ n. rw h.0.1 (ends n))

  last-Settles :
      (in_flight : List Envelope) (ps : List (SignParty u))
      → AllAt u 3 ps
      → IsInhabited u ps
      → Settles suc in_flight ps
  unfolding sign_loop sign_pass IsInhabited
  last-Settles in_flight [] all here = absurd here
  last-Settles in_flight (p ∷ ps) all here =
      signed_ends (λ n. n) (rest_of u in_flight ps none_yet _)
        (rest-HasSignature u p.me p.counterparty in_flight ps none_yet
          (sign_advance u p (inbox_of p.me in_flight))
          (subst
            (λ k. SignOutcome u k p.me p.counterparty (sign_advance u p (inbox_of p.me in_flight)))
            all.0 (sign_advance-SignOutcome u p (inbox_of p.me in_flight)))
          (λ t sig known. pass-HasSignature u in_flight ps t sig all.1 known))

  pass-Settles :
      (k : ℕ) (passes : ℕ → ℕ) (in_flight : List Envelope) (ps : List (SignParty u))
      → k < 3
      → AllAt u k ps
      → IsInhabited u ps
      → ((in_flight : List Envelope) (qs : List (SignParty u))
          → AllAt u (k + 1) qs
          → IsInhabited u qs
          → Settles passes in_flight qs)
      → Settles (λ n. suc (passes n)) in_flight ps
  unfolding sign_loop
  pass-Settles k passes in_flight ps low all here settle =
      later_ends k passes (sign_pass u in_flight ps none_yet)
        (pass-IsInhabited u k in_flight ps none_yet low all here refl) settle

  -- Three passes of the loop of sign_locally settle it: for one or more parties that are all in round 1,
  -- whatever the messages in flight, the loop has returned a signature or the error of a pass by then,
  -- without running out of passes, and it is the same with any more passes.
  pub three_sign_passes :
      (in_flight : List Envelope) (p : SignParty u) (ps : List (SignParty u))
      → AllAt u 1 (p ∷ ps)
      → (result : Result Signature) × ((n : ℕ)
          → sign_loop u (suc (suc (suc n))) (p ∷ ps) in_flight ≡ some result)
  unfolding IsInhabited
  three_sign_passes in_flight p ps all =
      pass-Settles 1 (λ n. suc (suc n)) in_flight (p ∷ ps) (omega arith) all tt
        (λ in_flight ps at_2 here.
          pass-Settles 2 suc in_flight ps (omega arith) at_2 here last-Settles)

  passes_end :
      (passes : ℕ) (ps : List (SignParty u)) (in_flight : List Envelope) (result : Result Signature)
      → sign_loop u passes ps in_flight ≡ some result
      → sign_passes u passes ps in_flight ≡ result
  unfolding sign_passes
  passes_end passes ps in_flight result e = rw (e, sign_passes) refl

  -- sign_locally, once both parties have started, returns what its loop returns within three passes:
  -- a signature, or the error of a pass, and never the error for running out of its four passes.
  sign_locally_settles :
      (first second : KeyShare) (sign_id digest : Bytes) (a b : SignParty u)
      (from_a from_b : List Envelope)
      → sign_start u first second.party sign_id digest ≡ ok (a, from_a)
      → sign_start u second first.party sign_id digest ≡ ok (b, from_b)
      → (sign_loop u 3 (a ∷ b ∷ []) (from_a ++ from_b)
          ≡ some (sign_locally u first second sign_id digest))
  unfolding sign_locally
  sign_locally_settles first second sign_id digest a b from_a from_b ea eb =
      let (result, ends) = three_sign_passes (from_a ++ from_b) a (b ∷ []) (
        started_round u first second.party sign_id digest a from_a ea,
        (started_round u second first.party sign_id digest b from_b eb, tt),
      ) in
      ends 0
      ∙ ap some (sym (rw (ea, eb) (passes_end 4 (a ∷ b ∷ []) (from_a ++ from_b) result (ends 1))))
