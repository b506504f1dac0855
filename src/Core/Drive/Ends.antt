-- ===== src/Core/Drive/Ends.antt =====
-- What the loop of drive_locally and the harnesses that enter it, in
-- crates/mpc-core/src/protocol.rs, come to.
use mpc_ext.Base.{
  ℕ, suc, ◌+◌, ◌≡◌, ◌<◌, refl, sym, subst, List, [], ◌∷◌, Option, none, some, Bool, true, false,
  ◌==◌, Bool-cases, inl, inr, length, map, arith,
}
use mpc_ext.Core.Types.{
  Bytes, PartyId, Result, ok, err, ◌>>=◌, or_backend, KeyShare, Envelope, Holds, Holds-bind,
  Holds-then,
}
use mpc_ext.Core.Upstream.{Dkls, SessionData}
use mpc_ext.Core.Dkg.{DkgParty, start, start_with, deal, session_data}
use mpc_ext.Core.Drive.Passes.{roles, AllIn, Sends, AreShares, Finishes, pass-Sends, pass-Finishes}
use mpc_ext.Core.Drive.{
  Totals, pass, Driven, no_totals, drive_from, drive_locally, start_all, drive_started, run_locally,
  reshare_locally, role_of,
}
use mpc_ext.Core.Field.{Field}
use mpc_ext.Core.Reshare.{SharePoint, ReshareRole, start_reshare, role_row}

module _ (u : Dkls) where
  -- The loop has ended, in an error or with the shares.
  unfoldable pub IsSettled : List (PartyId × Option Bytes) → Driven u → Type 0
  IsSettled rs none = ⊥
  IsSettled rs (some (err x)) = Unit
  IsSettled rs (some (ok (shares, key))) = AreShares u rs shares key

  -- What the loop does after a pass.
  abbrev turn_if : ℕ → List (DkgParty u) × Totals → Bool → Driven u
  turn_if fuel (left, t) all_done = elim all_done [
    | true ↦ some (or_backend t.public_key >>= (λ k. ok (t.shares, k)))
    | false ↦ drive_from u fuel left t.next t.public_key t.shares
  ]

  abbrev turn : ℕ → List (DkgParty u) × Totals → Driven u
  turn fuel r = turn_if fuel r (r.1.finished == length r.0)

  close-IsSettled :
      (rs : List (PartyId × Option Bytes)) (shares : List KeyShare) (o : Option Bytes)
      → ((k : Bytes) → o ≡ some k → AreShares u rs shares k)
      → IsSettled rs (some (or_backend o >>= (λ k. ok (shares, k))))
  unfolding IsSettled
  close-IsSettled rs shares none h = tt
  close-IsSettled rs shares (some k) h = h k refl

  turn-IsSettled :
      (fuel : ℕ) (ps : List (DkgParty u)) (r : List (DkgParty u) × Totals)
      → Finishes u ps (no_totals u none []) r
      → IsSettled (roles u ps) (turn fuel r)
  unfolding Finishes
  turn-IsSettled fuel ps (left, t) (size, count, new, shares, made, kept) =
      let e : (t.finished == length left) ≡ true = ground arith in
      subst (λ b. IsSettled (roles u ps) (turn_if fuel (left, t) b)) (sym e)
        (rw shares (close-IsSettled (roles u ps) new t.public_key made))

  last_turn :
      (fuel : ℕ) (ps : List (DkgParty u)) (in_flight : List Envelope)
      → AllIn u 3 ps
      → IsSettled (roles u ps) (drive_from u (suc fuel) ps in_flight none [])
  unfolding drive_from Holds IsSettled
  last_turn fuel ps in_flight all =
      (elim (pass u in_flight ps (no_totals u none []))
          as (λ r.
            Holds (Finishes u ps (no_totals u none [])) r
            → IsSettled (roles u ps) (elim r [ err x ↦ some (err x) | ok done ↦ turn fuel done ])) [
              | err x ↦ λ _. tt
              | ok done ↦ λ h. turn-IsSettled fuel ps done h
            ])
        (pass-Finishes u in_flight ps (no_totals u none []) all)

  abbrev Later : ℕ → ℕ → Type 0
  Later n fuel =
      (qs : List (DkgParty u)) (in_flight : List Envelope)
      → AllIn u n qs
      → IsSettled (roles u qs) (drive_from u fuel qs in_flight none [])

  nobody :
      (fuel : ℕ) (rs : List (PartyId × Option Bytes)) (r : List (DkgParty u) × Totals) (b : Bool)
      → r.1.public_key ≡ none
      → b ≡ true
      → IsSettled rs (turn_if fuel r b)
  unfolding IsSettled
  nobody fuel rs (left, t) b key h = rw (h, key) tt

  sent_turn :
      (n fuel : ℕ) (ps : List (DkgParty u)) (r : List (DkgParty u) × Totals)
      → Sends u n ps (no_totals u none []) r
      → Later (n + 1) fuel
      → IsSettled (roles u ps) (turn fuel r)
  unfolding Sends
  sent_turn n fuel ps (left, t) (all, kept, count, key, shares) later =
      elim (Bool-cases (t.finished == length left)) [
        | inl h ↦ nobody fuel (roles u ps) (left, t) _ key h
        | inr h ↦
            subst (λ b. IsSettled (roles u ps) (turn_if fuel (left, t) b)) (sym h)
              (subst (λ rs. IsSettled rs (drive_from u fuel left t.next t.public_key t.shares)) kept
                (rw (key, shares) (later left t.next all)))
      ]

  -- A pass in which every party sends comes to the next round.
  early_turn :
      (n fuel : ℕ) (ps : List (DkgParty u)) (in_flight : List Envelope)
      → n < 3
      → AllIn u n ps
      → Later (n + 1) fuel
      → IsSettled (roles u ps) (drive_from u (suc fuel) ps in_flight none [])
  unfolding drive_from Holds IsSettled
  early_turn n fuel ps in_flight lt all later =
      (elim (pass u in_flight ps (no_totals u none []))
          as (λ r.
            Holds (Sends u n ps (no_totals u none [])) r
            → IsSettled (roles u ps) (elim r [ err x ↦ some (err x) | ok done ↦ turn fuel done ])) [
              | err x ↦ λ _. tt
              | ok done ↦ λ h. sent_turn n fuel ps done h later
            ])
        (pass-Sends u n in_flight ps (no_totals u none []) lt all)

  -- From parties that are all in round 1, three passes of drive_locally end the loop: it fails, or it
  -- gives every party a share, in the order of the parties, and one public key, which is the one that
  -- each party was to keep, if it was to keep one.
  pub three_passes :
      (parties : List (DkgParty u)) (in_flight : List Envelope)
      → AllIn u 1 parties
      → IsSettled (roles u parties) (drive_locally u 3 parties in_flight)
  unfolding drive_locally
  three_passes parties in_flight all =
      early_turn 1 2 parties in_flight (omega arith) all (λ qs sent all₂.
        early_turn 2 1 qs sent (omega arith) all₂ (λ rs sent₂ all₃. last_turn 0 rs sent₂ all₃))

  -- A party that has been started, with the key that it is to keep.
  IsStarted : PartyId → Option Bytes → DkgParty u × List Envelope → Type 0
  IsStarted me expected (p, _) = (p.round ≡ 1) × (p.me ≡ me) × (p.expected_public_key ≡ expected)

  start_with-IsStarted :
      (me : PartyId) (session : SessionData) (row : List u.Scalar) (expected : Option Bytes)
      → Holds (IsStarted me expected) (start_with u me session row expected)
  unfolding start_with Holds IsStarted
  start_with-IsStarted me session row expected =
      Holds-then (IsStarted me expected) (deal u me 0 row) _ (λ dealt. (refl, refl, refl))

  start_all-Holds :
      (begin : PartyId → Result (DkgParty u × List Envelope)) (expected : Option Bytes)
      (ids : List PartyId)
      → ((id : PartyId) → Holds (IsStarted id expected) (begin id))
      → Holds
          (λ r. AllIn u 1 r.0 × (roles u r.0 ≡ map (λ id. (id, expected)) ids))
          (start_all u begin ids)
  unfolding start_all Holds IsStarted
  start_all-Holds begin expected [] h = (tt, refl)
  start_all-Holds begin expected (id ∷ ids) h =
      let Q : List (DkgParty u) × List Envelope → Type 0 =
        λ r. AllIn u 1 r.0 × (roles u r.0 ≡ map (λ id. (id, expected)) (id ∷ ids)) in
      Holds-bind (IsStarted id expected) Q (begin id) _ (h id) (λ p started.
        Holds-bind _ Q (start_all u begin ids) _ (start_all-Holds begin expected ids h)
          (λ rest all. ((started.0, all.0), rw (started.1, started.2, all.1) refl)))

  drive_started-IsSettled :
      (rs : List (PartyId × Option Bytes)) (r : Result (List (DkgParty u) × List Envelope))
      → Holds (λ r. AllIn u 1 r.0 × (roles u r.0 ≡ rs)) r
      → IsSettled rs (drive_started u 3 r)
  unfolding drive_started Holds IsSettled
  drive_started-IsSettled rs (err x) h = tt
  drive_started-IsSettled rs (ok (parties, in_flight)) (all, e) =
      subst (λ rs. IsSettled rs (drive_locally u 3 parties in_flight)) e
        (three_passes parties in_flight all)

  start-IsStarted :
      (session_id : Bytes) (id : PartyId) → Holds (IsStarted id none) (start u id session_id)
  unfolding start
  start-IsStarted session_id id =
      Holds-then (IsStarted id none) (session_data u id session_id) _
        (λ session. start_with-IsStarted id session (u.phase1 session) none)

  -- Three passes are enough for run_locally: it fails, or it gives the parties 0, 1 and 2 their shares
  -- in this order, and a public key.
  pub run_locally_ends :
      (session_id : Bytes)
      → IsSettled ((0, none) ∷ (1, none) ∷ (2, none) ∷ []) (run_locally u 3 session_id)
  unfolding run_locally
  run_locally_ends session_id =
      drive_started-IsSettled _ (start_all u (λ id. start u id session_id) (0 ∷ 1 ∷ 2 ∷ [])) (
        start_all-Holds (λ id. start u id session_id) none (0 ∷ 1 ∷ 2 ∷ [])
          (start-IsStarted session_id))

  module _ ⦃f : Field u.Scalar⦄ (decode : Bytes → Option (SharePoint u.Scalar)) where
    start_reshare-IsStarted :
        (id : PartyId) (session_id : Bytes) (role : ReshareRole) (expected : Bytes)
        (slope : u.Scalar)
        → Holds
            (IsStarted id (some expected))
            (start_reshare u decode id session_id role expected slope)
    unfolding start_reshare
    start_reshare-IsStarted id session_id role expected slope =
        Holds-then (IsStarted id (some expected)) (session_data u id session_id) _ (λ session.
          Holds-then (IsStarted id (some expected)) (role_row u decode id role slope) _
            (λ row. start_with-IsStarted id session row (some expected)))

    -- Three passes are enough for reshare_locally: it fails, or it gives the parties 0, 1 and 2 new
    -- shares in this order under the public key that was to be kept.
    pub reshare_locally_ends :
        (first second : KeyShare) (expected session_id : Bytes) (slope : PartyId → u.Scalar)
        → IsSettled
            ((0, some expected) ∷ (1, some expected) ∷ (2, some expected) ∷ [])
            (reshare_locally u decode 3 first second expected session_id slope)
    unfolding reshare_locally
    reshare_locally_ends first second expected session_id slope =
        let begin : PartyId → Result (DkgParty u × List Envelope) = λ id.
          start_reshare u decode id session_id (role_of u first second id) expected (slope id) in
        drive_started-IsSettled _ (start_all u begin (0 ∷ 1 ∷ 2 ∷ [])) (
          start_all-Holds begin (some expected) (0 ∷ 1 ∷ 2 ∷ []) (λ id.
            start_reshare-IsStarted id session_id (role_of u first second id) expected (slope id)))
