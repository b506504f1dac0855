-- ===== src/Core/Dkg/Outcome.antt =====
-- What a call of `DkgParty::advance` (crates/mpc-core/src/protocol.rs) can return, and the round that
-- it leaves the party in.
use mpc_ext.Base.{
  ℕ, ◌+◌, ◌≡◌, ◌<◌, refl, List, ◌∷◌, Option, none, some, Bool, true, false, ◌==◌, if◌then◌else◌,
  All, arith, zero, suc, ◌⊎◌, inl, inr, length, Bool-cases,
}
use mpc_ext.Core.Types.{
  Bytes, PartyId, Result, ok, err, ◌>>=◌, or_backend, Envelope, traverse, Holds, Holds-bind,
  Holds-then, Holds-any, Holds-traverse, total_parties,
}
use mpc_ext.Core.Upstream.{Dkls}
use mpc_ext.Core.Dkg.{
  Inbox, DkgParty, Progress, send, finished, new_envelope, to_party, round2_envelopes, after_phase2,
  check_fragments, take_fragments, round2,
}
use mpc_ext.Core.Dkg.Rounds.{
  receive_all, receive2, receive3, bundle, round3_envelopes, after_phase3, run_phase3,
  finish_round3, round3, all_proofs, check_public_key, conclude, to_share, finish_round4, round4,
  check_inbox, enter, advance, find_mul,
}
use mpc_ext.Core.Dkg.Delivery.{IsSent, new_envelope-IsSent}

-- The public key is the one that was to be kept, if there was one.
unfoldable pub KeepsKey : Option Bytes → Bytes → Type 0
KeepsKey none public_key = Unit
KeepsKey (some expected) public_key = expected ≡ public_key

module _ (u : Dkls) where
  -- A broadcast and then the messages to the peers.
  outgoing-IsSent :
      {A : Type 0} (round : ℕ) (me : PartyId) (broadcast : Result Envelope)
      (post : A → Result Envelope) (shares : List A)
      → Holds (IsSent round me) broadcast
      → ((m : A) → Holds (IsSent round me) (post m))
      → Holds
          (All (IsSent round me))
          (broadcast >>= (λ e. traverse post shares >>= (λ es. ok (e ∷ es))))
  unfolding Holds
  outgoing-IsSent round me broadcast post shares b h =
      Holds-bind (IsSent round me) (All (IsSent round me)) broadcast
        (λ e. traverse post shares >>= (λ es. ok (e ∷ es))) b
        (λ e s.
          Holds-bind (All (IsSent round me)) (All (IsSent round me)) (traverse post shares)
            (λ es. ok (e ∷ es)) (Holds-traverse (IsSent round me) post shares h) (λ es ss. (s, ss)))

  -- The outcome of a round entered in the state `round`, with the key to be kept.
  unfoldable pub Outcome : ℕ → PartyId → Option Bytes → Result (Progress u) × DkgParty u → Type 0
  Outcome round me expected (ok (send out), q) =
      (0 < round)
      × (round < 3)
      × (q.round ≡ round + 1)
      × (q.me ≡ me)
      × (q.expected_public_key ≡ expected)
      × All (IsSent (round + 1) me) out
  Outcome round me expected (ok (finished share public_key), q) =
      (round ≡ 3) × (q.round ≡ 4) × (q.me ≡ me) × (share.party ≡ me) × KeepsKey expected public_key
  Outcome round me expected (err x, q) =
      ((q.round ≡ round) ⊎ ((round ≡ 3) × (q.round ≡ 4)))
      × (q.me ≡ me)
      × (q.expected_public_key ≡ expected)

  sends-Outcome :
      (round : ℕ) (me : PartyId) (expected : Option Bytes) (out : Result (List Envelope))
      (kept : DkgParty u)
      → 0 < round
      → round < 3
      → kept.round ≡ round
      → kept.me ≡ me
      → kept.expected_public_key ≡ expected
      → Holds (All (IsSent (round + 1) me)) out
      → Outcome round me expected (elim out [
        | ok outgoing ↦ (ok (send outgoing), record kept { round = round + 1 })
        | err x ↦ (err x, kept)
      ])
  unfolding Outcome Holds
  sends-Outcome round me expected (ok out) kept gt lt r m k s = (gt, lt, refl, m, k, s)
  sends-Outcome round me expected (err x) kept gt lt r m k s = (inl r, m, k)

  round2_envelopes-IsSent :
      (me : PartyId) (proof : u.Proof) (bip : u.Bip24) (shares : List u.Zero24)
      → Holds (All (IsSent 2 me)) (round2_envelopes u me proof bip shares)
  unfolding round2_envelopes
  round2_envelopes-IsSent me proof bip shares =
      outgoing-IsSent 2 me (new_envelope u.round2_broadcast 2 me none (proof, bip))
        (λ m. new_envelope u.zero24 2 me (some (to_party (u.receiver24 m))) m) shares
        (new_envelope-IsSent u.round2_broadcast 2 me none (proof, bip))
        (λ m. new_envelope-IsSent u.zero24 2 me (some (to_party (u.receiver24 m))) m)

  after_phase2-Outcome :
      (p : DkgParty u) → p.round ≡ 1 → Outcome 1 p.me p.expected_public_key (after_phase2 u p)
  unfolding after_phase2
  after_phase2-Outcome p h =
      sends-Outcome 1 p.me p.expected_public_key _ _ (omega arith) (omega arith) h refl refl
        (round2_envelopes-IsSent p.me _ _ _)

  if-Outcome :
      (round : ℕ) (me : PartyId) (expected : Option Bytes) (b : Bool)
      (x y : Result (Progress u) × DkgParty u)
      → Outcome round me expected x
      → Outcome round me expected y
      → Outcome round me expected (if b then x else y)
  if-Outcome _ _ _ true x y hx hy = hx
  if-Outcome _ _ _ false x y hx hy = hy

  check_fragments-Outcome :
      (p : DkgParty u) (taken : Result (Unit {0})) (fragments : List (ℕ × u.Scalar))
      → p.round ≡ 1
      → Outcome 1 p.me p.expected_public_key (check_fragments u p taken fragments)
  unfolding check_fragments Outcome
  check_fragments-Outcome p (ok _) fragments h =
      if-Outcome 1 p.me p.expected_public_key (length fragments == total_parties) _ _
        (after_phase2-Outcome (record p { fragments = fragments }) h) (inl h, refl, refl)
  check_fragments-Outcome p (err x) fragments h = (inl h, refl, refl)

  bundle-IsSent :
      (me : PartyId) (mul : List u.Mul34) (m : u.Zero34) → Holds (IsSent 3 me) (bundle u me mul m)
  unfolding bundle
  bundle-IsSent me mul m =
      Holds-bind (λ _. Unit) (IsSent 3 me) (or_backend (find_mul u (to_party (u.receiver34 m)) mul))
        _ (Holds-any _)
        (λ k _. new_envelope-IsSent u.round3_private 3 me (some (to_party (u.receiver34 m))) (m, k))

  round3_envelopes-IsSent :
      (me : PartyId) (bip : u.Bip34) (shares : List u.Zero34) (mul : List u.Mul34)
      → Holds (All (IsSent 3 me)) (round3_envelopes u me bip shares mul)
  unfolding round3_envelopes
  round3_envelopes-IsSent me bip shares mul =
      outgoing-IsSent 3 me (new_envelope u.round3_broadcast 3 me none bip) (bundle u me mul) shares
        (new_envelope-IsSent u.round3_broadcast 3 me none bip) (bundle-IsSent me mul)

  after_phase3-Outcome :
      (p : DkgParty u) (kept : u.KeepBip23)
      → p.round ≡ 2
      → Outcome 2 p.me p.expected_public_key (after_phase3 u p kept)
  unfolding after_phase3
  after_phase3-Outcome p kept h =
      sends-Outcome 2 p.me p.expected_public_key _ _ (omega arith) (omega arith) h refl refl
        (round3_envelopes-IsSent p.me _ _ _)

  finish_round3-Outcome :
      (p : DkgParty u) (taken : Result (Unit {0})) (i : Inbox u)
      → p.round ≡ 2
      → Outcome 2 p.me p.expected_public_key (finish_round3 u p taken i)
  unfolding finish_round3 run_phase3 Outcome
  finish_round3-Outcome p (ok _) i h =
      elim (p.bip_kept_2to3)
        as (λ o. Outcome 2 p.me p.expected_public_key (run_phase3 u (record p { inbox = i }) o)) [
          | none ↦ (inl h, refl, refl)
          | some kept ↦ after_phase3-Outcome (record p { inbox = i }) kept h
        ]
  finish_round3-Outcome p (err x) i h = (inl h, refl, refl)

  check_public_key_keeps :
      (expected : Option Bytes) (public_key : Bytes)
      → Holds (λ _. KeepsKey expected public_key) (check_public_key u expected public_key)
  unfolding check_public_key KeepsKey Holds
  check_public_key_keeps none public_key = tt
  check_public_key_keeps (some e) public_key = elim (Bool-cases (e == public_key)) [
    | inl same ↦ rw same (ground arith)
    | inr other ↦ rw other tt
  ]

  conclude_keeps : (p : DkgParty u) → Holds (λ r. KeepsKey p.expected_public_key r.1) (conclude u p)
  unfolding conclude Holds
  conclude_keeps p =
      let Q : u.Party × Bytes → Type 0 = λ r. KeepsKey p.expected_public_key r.1 in
      Holds-then Q (all_proofs u p.inbox.proofs) _ (λ proofs.
        Holds-then Q (or_backend p.poly_point) _ (λ point.
          Holds-then Q
            (or_backend (
              u.phase4 p.session point proofs p.zero_kept_3to4 p.inbox.zero_2to4 p.inbox.zero_3to4
                p.mul_kept_3to4 p.inbox.mul_3to4 p.inbox.bip_2to4 p.inbox.bip_3to4))
            _
            (λ party. Holds-then Q (or_backend (u.public_key_of party)) _ (λ public_key.
              Holds-bind (λ _. KeepsKey p.expected_public_key public_key) Q
                (check_public_key u p.expected_public_key public_key) _
                (check_public_key_keeps p.expected_public_key public_key) (λ _ keeps. keeps)))))

  to_share-Outcome :
      (q : DkgParty u) (expected : Option Bytes) (r : u.Party × Bytes)
      → q.round ≡ 4
      → q.expected_public_key ≡ expected
      → KeepsKey expected r.1
      → Outcome 3 q.me expected (to_share u q.me r, q)
  unfolding to_share Outcome
  to_share-Outcome q expected (party, public_key) at_4 same keeps =
      elim (u.encode_party party)
        as (λ o. Outcome 3 q.me expected (
          or_backend o
              >>= (λ secret. ok (finished (record { party = q.me; secret = secret }) public_key)),
          q,
        )) [ none ↦ (inr (refl, at_4), refl, same) | some secret ↦ (refl, at_4, refl, refl, keeps) ]

  finish_round4-Outcome :
      (p : DkgParty u) (taken : Result (Unit {0})) (i : Inbox u)
      → p.round ≡ 3
      → Outcome 3 p.me p.expected_public_key (finish_round4 u p taken i)
  unfolding finish_round4 Outcome Holds
  finish_round4-Outcome p (ok _) i h =
      let q : DkgParty u = record p { inbox = i } in
      (elim (conclude u q)
          as (λ r.
            Holds (λ r. KeepsKey p.expected_public_key r.1) r
            → Outcome 3 p.me p.expected_public_key (elim r [
              | ok result ↦ (to_share u q.me result, record q { round = 4 })
              | err x ↦ (err x, q)
            ])) [
              | ok r ↦ λ keeps.
                  to_share-Outcome (record q { round = 4 }) p.expected_public_key r refl refl keeps
              | err x ↦ λ _. (inl h, refl, refl)
            ])
        (conclude_keeps q)
  finish_round4-Outcome p (err x) i h = (inl h, refl, refl)

  enter-Outcome :
      (n : ℕ) (p : DkgParty u) (inbox : List Envelope)
      → p.round ≡ n
      → Outcome n p.me p.expected_public_key (enter u n p inbox)
  unfolding enter round2 round3 round4 Outcome
  enter-Outcome zero p inbox h = (inl h, refl, refl)
  enter-Outcome (suc zero) p inbox h =
      check_fragments-Outcome p (take_fragments u inbox p.fragments).0
        (take_fragments u inbox p.fragments).1 h
  enter-Outcome (suc (suc zero)) p inbox h =
      finish_round3-Outcome p (receive_all u (receive2 u) inbox p.inbox).0
        (receive_all u (receive2 u) inbox p.inbox).1 h
  enter-Outcome (suc (suc (suc zero))) p inbox h =
      finish_round4-Outcome p (receive_all u (receive3 u) inbox p.inbox).0
        (receive_all u (receive3 u) inbox p.inbox).1 h
  enter-Outcome (suc (suc (suc (suc n)))) p inbox h = (inl h, refl, refl)

  -- Every call of `advance` does one of three things: it sends, in round 1 or 2, goes on to the next
  -- round with the same party and the same key to be kept, and all it sends is of that round and from
  -- this party; it finishes, in round 3 only, with this party's share and with the public key that was
  -- to be kept, if one was; or it fails, the party and that key are as they were, and so is the round,
  -- unless it was round 3 and is now 4.
  pub advance-Outcome :
      (p : DkgParty u) (inbox : List Envelope)
      → Outcome p.round p.me p.expected_public_key (advance u p inbox)
  unfolding advance Outcome
  advance-Outcome p inbox =
      elim (check_inbox u p.round p.me inbox)
        as (λ r.
          Outcome p.round p.me p.expected_public_key
            (elim r [ ok _ ↦ enter u p.round p inbox | err x ↦ (err x, p) ])) [
              | ok _ ↦ enter-Outcome p.round p inbox refl
              | err x ↦ (inl refl, refl, refl)
            ]
