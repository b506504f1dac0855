-- ===== src/Core/Sign/Outcome.antt =====
-- What a call of `SignParty::advance` (crates/mpc-core/src/protocol.rs) can return.
use mpc_ext.Base.{
  ℕ, ◌≡◌, ◌⊎◌, inl, inr, refl, ap, sym, subst, List, [], ◌∷◌, Option, none, some, All, arith,
}
use mpc_ext.Core.Types.{Error, Result, ok, err, Envelope, traverse, Result-cases}
use mpc_ext.Core.Dkg.{decode_envelope}
use mpc_ext.Core.Dkg.Delivery.{IsDue}
use mpc_ext.Core.Sign.{
  Signing, SignParty, SignProgress, send_round, after_sign2, use_keep12, sign_round2,
  check_sign_inbox, enter_sign, sign_checked, sign_advance,
}

module _ (u : Signing) where
  -- A message that the signing party lets in.
  unfoldable pub IsExpected : SignParty u → Envelope → Type 0
  unfolding IsDue
  IsExpected p e = IsDue p.round p.me e × (e.from ≡ p.counterparty)

  check_sign_inbox-ok :
      (p : SignParty u) (inbox : List Envelope)
      → check_sign_inbox u p.round p.counterparty p.me inbox ≡ ok tt
      → All (IsExpected p) inbox
  unfolding check_sign_inbox IsExpected IsDue
  check_sign_inbox-ok p [] h = tt
  check_sign_inbox-ok p (e ∷ inbox) h =
      (((ground arith, ground arith), ground arith), check_sign_inbox-ok p inbox (ground arith))

  -- A message of another round, from another sender than the counterparty, or addressed to another
  -- party makes `advance` fail and leaves the signing party as it was.
  pub sign_advance_refuses :
      (p : SignParty u) (inbox : List Envelope)
      → ¬ All (IsExpected p) inbox
      → (x : Error) × (sign_advance u p inbox ≡ (err x, p))
  unfolding sign_advance sign_checked
  sign_advance_refuses p inbox h =
      elim (Result-cases (check_sign_inbox u p.round p.counterparty p.me inbox)) [
        | inl (_, e) ↦ absurd (h (check_sign_inbox-ok p inbox e))
        | inr (x, e) ↦ (x, ap (λ r. sign_checked u p inbox r (u.decode_party p.share)) e)
      ]

  -- The secrets of the first phase are gone, or the call failed and changed nothing.
  unfoldable pub IsSpent : SignParty u → Result SignProgress × SignParty u → Type 0
  IsSpent p a = ((x : Error) × (a ≡ (err x, p))) ⊎ (a.1.keep_1to2 ≡ none)

  send_round-spent :
      (n : ℕ) (p : SignParty u) (out : Result (List Envelope))
      → p.keep_1to2 ≡ none
      → (send_round u n p out).1.keep_1to2 ≡ none
  unfolding send_round
  send_round-spent n p (ok out) k = k
  send_round-spent n p (err x) k = k

  after_sign2-spent :
      (p : SignParty u) (o : Option (u.Keep23 × List u.Transmit23))
      → p.keep_1to2 ≡ none
      → (after_sign2 u p o).1.keep_1to2 ≡ none
  unfolding after_sign2
  after_sign2-spent p none k = k
  after_sign2-spent p (some (kept, transmit)) k =
      send_round-spent 2 (record p { keep_2to3 = some kept }) _ k

  use_keep12-IsSpent :
      (p : SignParty u) (party : u.Party) (received : List u.Transmit12) (o : Option u.Keep12)
      → IsSpent p (use_keep12 u p party received o)
  unfolding use_keep12 IsSpent
  use_keep12-IsSpent p party received none = inl (_, refl)
  use_keep12-IsSpent p party received (some kept) = inr (
      after_sign2-spent (record p { keep_1to2 = none })
        (u.sign_phase2 party p.sign_data kept received) refl)

  sign_round2-IsSpent :
      (p : SignParty u) (party : u.Party) (r : Result (List u.Transmit12))
      → IsSpent p (sign_round2 u p party r)
  unfolding sign_round2 IsSpent
  sign_round2-IsSpent p party (ok received) = use_keep12-IsSpent p party received p.keep_1to2
  sign_round2-IsSpent p party (err x) = inl (x, refl)

  sign_checked-IsSpent :
      (p : SignParty u) (inbox : List Envelope) (r : Result (Unit {0})) (o : Option u.Party)
      → p.round ≡ 1
      → IsSpent p (sign_checked u p inbox r o)
  unfolding sign_checked IsSpent enter_sign
  sign_checked-IsSpent p inbox (err x) o h = inl (x, refl)
  sign_checked-IsSpent p inbox (ok _) none h = inl (_, refl)
  sign_checked-IsSpent p inbox (ok _) (some party) h =
      subst (λ n. IsSpent p (enter_sign u n p party inbox)) (sym h)
        (sign_round2-IsSpent p party (traverse (decode_envelope u.transmit12) inbox))

  -- In round 1 a call of `advance` either fails and leaves the signing party as it was, or the secrets
  -- kept of the first phase are gone from the party: no call leaves them there after it used them.
  pub first_secret_once :
      (p : SignParty u) (inbox : List Envelope) → p.round ≡ 1 → IsSpent p (sign_advance u p inbox)
  unfolding sign_advance
  first_secret_once p inbox h =
      sign_checked-IsSpent p inbox (check_sign_inbox u p.round p.counterparty p.me inbox)
        (u.decode_party p.share) h
