-- ===== src/Core/Dkg.antt =====
-- `DkgParty` of crates/mpc-core/src/protocol.rs. A method that borrows the party mutably returns its
-- result with the party as it leaves it, also where it fails.
pub mod Rounds
pub mod Delivery
pub mod Outcome
pub mod Collecting
use mpc_ext.Base.{
  ℕ, ◌+◌, ◌-◌, ◌%◌, List, [], ◌∷◌, ◌++◌, Option, none, some, Bool, true, false, not, ◌==◌,
  if◌then◌else◌, length, map, zero, suc,
}
use mpc_ext.Core.Types.{
  Bytes, PartyId, Round, Error, Result, ok, err, ◌>>=◌, or_backend, KeyShare, Envelope, is_for,
  traverse, total_parties,
}
use mpc_ext.Core.Maps.{insert, get, values}
use mpc_ext.Core.Upstream.{Dkls, Codec, SessionData}

-- Envelope::new.
unfoldable pub new_envelope :
    {A : Type 0} → Codec A → ℕ → PartyId → Option PartyId → A → Result Envelope
new_envelope codec round from to body = do
  payload ← or_backend (codec.encode body)
  ok (record { round = round; from = from; to = to; payload = payload })

-- Envelope::decode.
unfoldable pub decode_envelope : {A : Type 0} → Codec A → Envelope → Result A
decode_envelope codec e = or_backend (codec.decode e.payload)

-- PartyIndex counts from 1, PartyId from 0.
unfoldable pub to_party : ℕ → PartyId
to_party index = index - 1

module _ (u : Dkls) where
  open u use {
    Scalar, Proof, Zero24, Zero34, Mul34, Bip24, Bip34, KeepZero23, KeepBip23, KeepZero34,
    KeepMul34,
  }

  pub record Inbox : Type 0 where
    pub proofs : List (ℕ × Proof)
    pub zero_2to4 : List Zero24
    pub zero_3to4 : List Zero34
    pub mul_3to4 : List Mul34
    pub bip_2to4 : List (ℕ × Bip24)
    pub bip_3to4 : List (ℕ × Bip34)

  pub record DkgParty : Type 0 where
    pub me : PartyId
    pub index : ℕ
    pub round : ℕ
    pub session : SessionData
    pub fragments : List (ℕ × Scalar)
    pub poly_point : Option Scalar
    pub expected_public_key : Option Bytes
    pub zero_kept_2to3 : KeepZero23
    pub bip_kept_2to3 : Option KeepBip23
    pub zero_kept_3to4 : KeepZero34
    pub mul_kept_3to4 : KeepMul34
    pub inbox : Inbox

  pub data Progress : Type 0 where
    send : List Envelope → Progress
    finished : KeyShare → Bytes → Progress

  unfoldable pub to_index : PartyId → Result ℕ
  to_index party = let n = (party + 1) % 256 in if u.is_index n then ok n else err Error.backend

  unfoldable pub session_data : PartyId → Bytes → Result SessionData
  unfolding to_index
  session_data me session_id = do
    index ← to_index me
    ok (record { party_index = index; session_id = session_id })

  -- A fragment for another party goes out in an envelope.
  unfoldable pub post :
      PartyId
      → ℕ
      → Scalar
      → List (ℕ × Scalar) × List Envelope
      → Result (List (ℕ × Scalar) × List Envelope)
  unfolding new_envelope
  post me slot fragment dealt = do
    e ← new_envelope u.scalar 1 me (some slot) fragment
    ok (dealt.0, e ∷ dealt.1)

  -- The loop of start_with over the row, from a slot on: the own fragment, and the envelopes.
  unfoldable pub deal : PartyId → ℕ → List Scalar → Result (List (ℕ × Scalar) × List Envelope)
  unfolding post
  deal me slot [] = ok ([], [])
  deal me slot (fragment ∷ row) = do
    rest ← deal me (suc slot) row
    if slot == me then ok (insert me fragment rest.0, rest.1) else post me slot fragment rest

  abbrev pub empty_inbox : Inbox
  empty_inbox = record {
    proofs = [];
    zero_2to4 = [];
    zero_3to4 = [];
    mul_3to4 = [];
    bip_2to4 = [];
    bip_3to4 = [];
  }

  unfoldable pub start_with :
      PartyId → SessionData → List Scalar → Option Bytes → Result (DkgParty × List Envelope)
  start_with me session row expected = do
    dealt ← deal me 0 row
    ok (
      record {
        me = me;
        index = session.party_index;
        round = 1;
        session = session;
        fragments = dealt.0;
        poly_point = none;
        expected_public_key = expected;
        zero_kept_2to3 = u.no_zero23;
        bip_kept_2to3 = none;
        zero_kept_3to4 = u.no_zero34;
        mul_kept_3to4 = u.no_mul34;
        inbox = empty_inbox;
      },
      dealt.1,
    )

  unfoldable pub start : PartyId → Bytes → Result (DkgParty × List Envelope)
  unfolding session_data
  start me session_id = do
    session ← session_data me session_id
    start_with me session (u.phase1 session) none

  -- The loop at the head of round2: each fragment under its sender, until one does not decode.
  unfoldable pub take_fragments :
      List Envelope → List (ℕ × Scalar) → Result (Unit {0}) × List (ℕ × Scalar)
  take_fragments [] fragments = (ok tt, fragments)
  take_fragments (e ∷ inbox) fragments = elim (decode_envelope u.scalar e) [
    | ok fragment ↦ take_fragments inbox (insert e.from fragment fragments)
    | err x ↦ (err x, fragments)
  ]

  -- The envelopes of round 2: the broadcast, then one for each zero-share message.
  unfoldable pub round2_envelopes : PartyId → Proof → Bip24 → List Zero24 → Result (List Envelope)
  round2_envelopes me proof bip shares = do
    broadcast ← new_envelope u.round2_broadcast 2 me none (proof, bip)
    rest ← traverse (λ m. new_envelope u.zero24 2 me (some (to_party (u.receiver24 m))) m) shares
    ok (broadcast ∷ rest)

  unfoldable pub after_phase2 : DkgParty → Result Progress × DkgParty
  after_phase2 p =
      let (poly_point, proof, zero_keep, shares, bip_keep, bip) =
        u.phase2 p.session (values p.fragments) in
      let kept : DkgParty = record p {
        poly_point = some poly_point;
        zero_kept_2to3 = zero_keep;
        bip_kept_2to3 = some bip_keep;
        inbox = record (p.inbox) {
          proofs = insert p.me proof p.inbox.proofs;
          bip_2to4 = insert p.index bip p.inbox.bip_2to4;
        };
      } in
      elim (round2_envelopes p.me proof bip shares) [
        | ok outgoing ↦ (ok (send outgoing), record kept { round = 2 })
        | err x ↦ (err x, kept)
      ]

  -- What round2 does with the fragments that the loop leaves.
  unfoldable pub check_fragments :
      DkgParty → Result (Unit {0}) → List (ℕ × Scalar) → Result Progress × DkgParty
  unfolding after_phase2
  check_fragments p (ok _) fragments =
      let q : DkgParty = record p { fragments = fragments } in
      if length fragments == total_parties
      then after_phase2 q
      else (err (Error.invalid_party_count total_parties (length fragments % 256)), q)
  check_fragments p (err x) fragments = (err x, record p { fragments = fragments })

  unfoldable pub round2 : DkgParty → List Envelope → Result Progress × DkgParty
  unfolding take_fragments check_fragments
  round2 p envelopes =
      let (taken, fragments) = take_fragments envelopes p.fragments in
      check_fragments p taken fragments
