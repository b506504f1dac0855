-- ===== src/Core/Dkg/Rounds.antt =====
-- Rounds 3 and 4 and `DkgParty::advance` of crates/mpc-core/src/protocol.rs.
use mpc_ext.Base.{ℕ, List, [], ◌∷◌, ◌++◌, Option, none, some, ◌==◌, if◌then◌else◌, zero, suc}
use mpc_ext.Core.Types.{
  Bytes, PartyId, Round, Error, Result, ok, err, ◌>>=◌, or_backend, Envelope, is_for, traverse,
}
use mpc_ext.Core.Maps.{insert, get}
use mpc_ext.Core.Upstream.{Dkls}
use mpc_ext.Core.Dkg.{
  Inbox, DkgParty, Progress, send, finished, new_envelope, decode_envelope, to_party, to_index,
  round2,
}

module _ (u : Dkls) where
  open u use {
    Scalar, Proof, Zero24, Zero34, Mul34, Bip24, Bip34, KeepZero23, KeepBip23, KeepZero34,
    KeepMul34, Party,
  }

  -- One envelope of round 2: a broadcast, or a message to this party.
  unfoldable pub receive2 : Envelope → Inbox u → Result (Inbox u) × Inbox u
  receive2 e i = elim (e.to) [
    | none ↦ elim (decode_envelope u.round2_broadcast e) [
      | ok body ↦
          let known : Inbox u = record i { proofs = insert e.from body.0 i.proofs } in
          elim (to_index u e.from) [
            | ok index ↦ (ok (record known { bip_2to4 = insert index body.1 i.bip_2to4 }), known)
            | err x ↦ (err x, known)
          ]
      | err x ↦ (err x, i)
    ]
    | some _ ↦ elim (decode_envelope u.zero24 e) [
      | ok m ↦ (ok (record i { zero_2to4 = i.zero_2to4 ++ m ∷ [] }), i)
      | err x ↦ (err x, i)
    ]
  ]

  -- One envelope of round 3.
  unfoldable pub receive3 : Envelope → Inbox u → Result (Inbox u) × Inbox u
  receive3 e i = elim (e.to) [
    | none ↦ elim (decode_envelope u.round3_broadcast e) [
      | ok bip ↦ elim (to_index u e.from) [
        | ok index ↦ (ok (record i { bip_3to4 = insert index bip i.bip_3to4 }), i)
        | err x ↦ (err x, i)
      ]
      | err x ↦ (err x, i)
    ]
    | some _ ↦ elim (decode_envelope u.round3_private e) [
      | ok body ↦ (
        ok (record i {
          zero_3to4 = i.zero_3to4 ++ body.0 ∷ [];
          mul_3to4 = i.mul_3to4 ++ body.1 ∷ [];
        }),
        i,
      )
      | err x ↦ (err x, i)
    ]
  ]

  -- The loop over the envelopes, until one is refused; the second part is the inbox it leaves.
  unfoldable pub receive_all :
      (Envelope → Inbox u → Result (Inbox u) × Inbox u)
      → List Envelope
      → Inbox u
      → Result (Unit {0}) × Inbox u
  receive_all receive [] i = (ok tt, i)
  receive_all receive (e ∷ inbox) i =
      let (taken, left) = receive e i in
      elim taken [ ok j ↦ receive_all receive inbox j | err x ↦ (err x, left) ]

  -- The mul message that goes to the same peer as a zero message.
  unfoldable pub find_mul : PartyId → List Mul34 → Option Mul34
  find_mul target [] = none
  find_mul target (m ∷ ms) =
      if to_party (u.receiver_mul m) == target then some m else find_mul target ms

  unfoldable pub bundle : PartyId → List Mul34 → Zero34 → Result Envelope
  unfolding find_mul
  bundle me mul message = do
    m ← or_backend (find_mul (to_party (u.receiver34 message)) mul)
    new_envelope u.round3_private 3 me (some (to_party (u.receiver34 message))) (message, m)

  unfoldable pub round3_envelopes :
      PartyId → Bip34 → List Zero34 → List Mul34 → Result (List Envelope)
  unfolding bundle
  round3_envelopes me bip shares mul = do
    broadcast ← new_envelope u.round3_broadcast 3 me none bip
    rest ← traverse (bundle me mul) shares
    ok (broadcast ∷ rest)

  unfoldable pub after_phase3 : DkgParty u → KeepBip23 → Result (Progress u) × DkgParty u
  unfolding round3_envelopes
  after_phase3 p bip_kept =
      let (zero_keep, shares, mul_keep, mul, bip) = u.phase3 p.session p.zero_kept_2to3 bip_kept in
      let kept : DkgParty u = record p {
        zero_kept_3to4 = zero_keep;
        mul_kept_3to4 = mul_keep;
        inbox = record (p.inbox) { bip_3to4 = insert p.index bip p.inbox.bip_3to4 };
      } in
      elim (round3_envelopes p.me bip shares mul) [
        | ok outgoing ↦ (ok (send outgoing), record kept { round = 3 })
        | err x ↦ (err x, kept)
      ]

  -- What round3 does after the loop over its envelopes: bip_kept_2to3 must be there.
  unfoldable pub run_phase3 : DkgParty u → Option KeepBip23 → Result (Progress u) × DkgParty u
  unfolding after_phase3
  run_phase3 p none = (err Error.backend, p)
  run_phase3 p (some kept) = after_phase3 p kept

  unfoldable pub finish_round3 :
      DkgParty u → Result (Unit {0}) → Inbox u → Result (Progress u) × DkgParty u
  unfolding run_phase3
  finish_round3 p (ok _) i = run_phase3 (record p { inbox = i }) p.bip_kept_2to3
  finish_round3 p (err x) i = (err x, record p { inbox = i })

  unfoldable pub round3 : DkgParty u → List Envelope → Result (Progress u) × DkgParty u
  unfolding finish_round3 receive_all receive2
  round3 p envelopes =
      let (taken, i) = receive_all receive2 envelopes p.inbox in finish_round3 p taken i

  -- The proofs of all parties, in their order.
  unfoldable pub all_proofs : List (ℕ × Proof) → Result (List Proof)
  all_proofs proofs = traverse (λ party. or_backend (get party proofs)) (0 ∷ 1 ∷ 2 ∷ [])

  unfoldable pub check_public_key : Option Bytes → Bytes → Result (Unit {0})
  check_public_key none public_key = ok tt
  check_public_key (some expected) public_key =
      if expected == public_key then ok tt else err Error.backend

  -- What round4 does after the loop over its envelopes, up to the change of the round: the finished
  -- party, and its public key.
  unfoldable pub conclude : DkgParty u → Result (u.Party × Bytes)
  unfolding all_proofs check_public_key
  conclude p = do
    proofs ← all_proofs p.inbox.proofs
    poly_point ← or_backend p.poly_point
    party ← or_backend (
        u.phase4 p.session poly_point proofs p.zero_kept_3to4 p.inbox.zero_2to4 p.inbox.zero_3to4
          p.mul_kept_3to4 p.inbox.mul_3to4 p.inbox.bip_2to4 p.inbox.bip_3to4)
    public_key ← or_backend (u.public_key_of party)
    _ ← check_public_key p.expected_public_key public_key
    ok (party, public_key)

  -- The share that round4 returns, if the finished party can be encoded.
  unfoldable pub to_share : PartyId → u.Party × Bytes → Result (Progress u)
  to_share me (party, public_key) = do
    secret ← or_backend (u.encode_party party)
    ok (finished (record { party = me; secret = secret }) public_key)

  -- The round is set before the share is encoded.
  unfoldable pub finish_round4 :
      DkgParty u → Result (Unit {0}) → Inbox u → Result (Progress u) × DkgParty u
  unfolding conclude to_share
  finish_round4 p (ok _) i =
      let q : DkgParty u = record p { inbox = i } in
      elim (conclude q) [
        | ok result ↦ (to_share q.me result, record q { round = 4 })
        | err x ↦ (err x, q)
      ]
  finish_round4 p (err x) i = (err x, record p { inbox = i })

  unfoldable pub round4 : DkgParty u → List Envelope → Result (Progress u) × DkgParty u
  unfolding finish_round4 receive_all receive3
  round4 p envelopes =
      let (taken, i) = receive_all receive3 envelopes p.inbox in finish_round4 p taken i

  -- The checks that `advance` makes before a round.
  unfoldable pub check_inbox : ℕ → PartyId → List Envelope → Result (Unit {0})
  check_inbox round me [] = ok tt
  check_inbox round me (e ∷ inbox) =
      if e.round == round
      then if is_for me e.to then check_inbox round me inbox else err Error.backend
      else err (Error.unexpected_round (Round.round round) (Round.round e.round))

  unfoldable pub enter : ℕ → DkgParty u → List Envelope → Result (Progress u) × DkgParty u
  unfolding round3 round4
  enter (suc zero) p inbox = round2 u p inbox
  enter (suc (suc zero)) p inbox = round3 p inbox
  enter (suc (suc (suc zero))) p inbox = round4 p inbox
  enter _ p inbox = (err Error.backend, p)

  unfoldable pub advance : DkgParty u → List Envelope → Result (Progress u) × DkgParty u
  unfolding check_inbox enter
  advance p inbox = elim (check_inbox p.round p.me inbox) [
    | ok _ ↦ enter p.round p inbox
    | err x ↦ (err x, p)
  ]
