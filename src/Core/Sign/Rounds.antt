-- ===== src/Core/Sign/Rounds.antt =====
-- The rounds of a signing party of crates/mpc-core/src/protocol.rs.
use mpc_ext.Base.{ℕ, zero, suc, ◌+◌, ◌≡◌, ◌<◌, refl, List, [], ◌∷◌, Option, none, some, All, arith}
use mpc_ext.Core.Types.{
  PartyId, Result, ok, err, ◌>>=◌, or_backend, Envelope, traverse, Holds, Holds-traverse,
}
use mpc_ext.Core.Dkg.{new_envelope, to_party}
use mpc_ext.Core.Dkg.Delivery.{IsSent, new_envelope-IsSent}
use mpc_ext.Core.Sign.{
  Signing, Signature, SignParty, SignProgress, send, signed, send_round, after_sign2, use_keep12,
  sign_round2, after_sign3, use_keep23, sign_round3, finish_sign4, use_x_coord, sign_round4,
  enter_sign, sign_checked, sign_advance, to_signature, check_sign_inbox,
}

module _ (u : Signing) where
  -- What a call leaves and returns, from the round, the party and the counterparty it started with.
  unfoldable pub SignOutcome : ℕ → PartyId → PartyId → Result SignProgress × SignParty u → Type 0
  SignOutcome round me other (ok (send out), q) =
      (0 < round)
      × (round < 3)
      × (q.round ≡ round + 1)
      × (q.me ≡ me)
      × (q.counterparty ≡ other)
      × All (IsSent (round + 1) me) out
  SignOutcome round me other (ok (signed _), q) = (round ≡ 3) × (q.round ≡ 4)
  SignOutcome round me other (err _, q) = Unit

  send_round-SignOutcome :
      (p : SignParty u) (out : Result (List Envelope))
      → Holds (All (IsSent 2 p.me)) out
      → SignOutcome 1 p.me p.counterparty (send_round u 2 p out)
  unfolding send_round SignOutcome Holds
  send_round-SignOutcome p (ok out) h = (ground arith, ground arith, refl, refl, refl, h)
  send_round-SignOutcome p (err x) h = tt

  after_sign2-SignOutcome :
      (p : SignParty u) (o : Option (u.Keep23 × List u.Transmit23))
      → SignOutcome 1 p.me p.counterparty (after_sign2 u p o)
  unfolding after_sign2 SignOutcome
  after_sign2-SignOutcome p none = tt
  after_sign2-SignOutcome p (some (kept, transmit)) =
      send_round-SignOutcome (record p { keep_2to3 = some kept })
        (traverse (λ m. new_envelope u.transmit23 2 p.me (some (to_party (u.receiver23 m))) m)
          transmit)
        (Holds-traverse (IsSent 2 p.me) _ transmit
          (λ m. new_envelope-IsSent u.transmit23 2 p.me (some (to_party (u.receiver23 m))) m))

  use_keep12-SignOutcome :
      (p : SignParty u) (party : u.Party) (received : List u.Transmit12) (o : Option u.Keep12)
      → SignOutcome 1 p.me p.counterparty (use_keep12 u p party received o)
  unfolding use_keep12 SignOutcome
  use_keep12-SignOutcome p party received none = tt
  use_keep12-SignOutcome p party received (some kept) =
      after_sign2-SignOutcome (record p { keep_1to2 = none })
        (u.sign_phase2 party p.sign_data kept received)

  sign_round2-SignOutcome :
      (p : SignParty u) (party : u.Party) (r : Result (List u.Transmit12))
      → SignOutcome 1 p.me p.counterparty (sign_round2 u p party r)
  unfolding sign_round2 SignOutcome
  sign_round2-SignOutcome p party (err x) = tt
  sign_round2-SignOutcome p party (ok received) =
      use_keep12-SignOutcome p party received p.keep_1to2

  broadcast-SignOutcome :
      (p q : SignParty u) (r : Result Envelope)
      → Holds (IsSent 3 p.me) r
      → q.round ≡ 3
      → q.me ≡ p.me
      → q.counterparty ≡ p.counterparty
      → SignOutcome 2 p.me p.counterparty (r >>= (λ e. ok (send (e ∷ []))), q)
  unfolding SignOutcome Holds
  broadcast-SignOutcome p q (err x) h at_3 me other = tt
  broadcast-SignOutcome p q (ok e) h at_3 me other =
      (ground arith, ground arith, at_3, me, other, (h, tt))

  after_sign3-SignOutcome :
      (p : SignParty u) (o : Option (List ℕ × u.Broadcast34))
      → SignOutcome 2 p.me p.counterparty (after_sign3 u p o)
  unfolding after_sign3 SignOutcome
  after_sign3-SignOutcome p none = tt
  after_sign3-SignOutcome p (some (x_coord, broadcast)) =
      broadcast-SignOutcome p _ (new_envelope u.broadcast34 3 p.me none broadcast)
        (new_envelope-IsSent u.broadcast34 3 p.me none broadcast) refl refl refl

  use_keep23-SignOutcome :
      (p : SignParty u) (party : u.Party) (received : List u.Transmit23) (o : Option u.Keep23)
      → SignOutcome 2 p.me p.counterparty (use_keep23 u p party received o)
  unfolding use_keep23 SignOutcome
  use_keep23-SignOutcome p party received none = tt
  use_keep23-SignOutcome p party received (some kept) =
      after_sign3-SignOutcome (record p { keep_2to3 = none })
        (u.sign_phase3 party p.sign_data kept received)

  sign_round3-SignOutcome :
      (p : SignParty u) (party : u.Party) (r : Result (List u.Transmit23))
      → SignOutcome 2 p.me p.counterparty (sign_round3 u p party r)
  unfolding sign_round3 SignOutcome
  sign_round3-SignOutcome p party (err x) = tt
  sign_round3-SignOutcome p party (ok received) =
      use_keep23-SignOutcome p party received p.keep_2to3

  finish_sign4-SignOutcome :
      (me other : PartyId) (p : SignParty u) (r : Result Signature)
      → SignOutcome 3 me other (finish_sign4 u p r)
  unfolding finish_sign4 SignOutcome
  finish_sign4-SignOutcome me other p (ok signature) = (refl, refl)
  finish_sign4-SignOutcome me other p (err x) = tt

  use_x_coord-SignOutcome :
      (me other : PartyId) (p : SignParty u) (party : u.Party) (o : Option (List ℕ))
      → SignOutcome 3 me other (use_x_coord u p party o)
  unfolding use_x_coord SignOutcome
  use_x_coord-SignOutcome me other p party none = tt
  use_x_coord-SignOutcome me other p party (some x_coord) =
      finish_sign4-SignOutcome me other (record p { x_coord = none })
        (or_backend (u.sign_phase4 party p.sign_data x_coord p.broadcasts)
          >>= to_signature u x_coord)

  sign_round4-SignOutcome :
      (p : SignParty u) (party : u.Party) (r : Result (Unit {0})) (broadcasts : List u.Broadcast34)
      → SignOutcome 3 p.me p.counterparty (sign_round4 u p party r broadcasts)
  unfolding sign_round4 SignOutcome
  sign_round4-SignOutcome p party (err x) broadcasts = tt
  sign_round4-SignOutcome p party (ok _) broadcasts =
      use_x_coord-SignOutcome p.me p.counterparty (record p { broadcasts = broadcasts }) party
        p.x_coord

  enter_sign-SignOutcome :
      (n : ℕ) (p : SignParty u) (party : u.Party) (inbox : List Envelope)
      → SignOutcome n p.me p.counterparty (enter_sign u n p party inbox)
  unfolding enter_sign SignOutcome
  enter_sign-SignOutcome zero p party inbox = tt
  enter_sign-SignOutcome (suc zero) p party inbox = sign_round2-SignOutcome p party _
  enter_sign-SignOutcome (suc (suc zero)) p party inbox = sign_round3-SignOutcome p party _
  enter_sign-SignOutcome (suc (suc (suc zero))) p party inbox = sign_round4-SignOutcome p party _ _
  enter_sign-SignOutcome (suc (suc (suc (suc n)))) p party inbox = tt

  sign_checked-SignOutcome :
      (p : SignParty u) (inbox : List Envelope) (r : Result (Unit {0})) (o : Option u.Party)
      → SignOutcome p.round p.me p.counterparty (sign_checked u p inbox r o)
  unfolding sign_checked SignOutcome
  sign_checked-SignOutcome p inbox (err x) o = tt
  sign_checked-SignOutcome p inbox (ok _) none = tt
  sign_checked-SignOutcome p inbox (ok _) (some party) =
      enter_sign-SignOutcome p.round p party inbox

  -- A call of the signing party's `advance` in round 1 or 2 that succeeds moves the party to the next
  -- round, keeps its id and its counterparty, and sends messages of that round from itself. A call
  -- that returns a signature started in round 3 and leaves the party in round 4; in every other round
  -- the call fails.
  pub sign_advance-SignOutcome :
      (p : SignParty u) (inbox : List Envelope)
      → SignOutcome p.round p.me p.counterparty (sign_advance u p inbox)
  unfolding sign_advance
  sign_advance-SignOutcome p inbox =
      sign_checked-SignOutcome p inbox (check_sign_inbox u p.round p.counterparty p.me inbox)
        (u.decode_party p.share)
