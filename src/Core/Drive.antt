-- ===== src/Core/Drive.antt =====
-- The harnesses of crates/mpc-core/src/protocol.rs that drive all parties in one process: run_locally,
-- reshare_locally and drive_locally. The loop of drive_locally runs on fuel; none means that it has
-- run out.
pub mod Passes
pub mod Ends
use mpc_ext.Base.{
  ℕ, zero, suc, ◌+◌, List, [], ◌∷◌, ◌++◌, Option, none, some, Bool, true, false, not, ◌&&◌, ◌==◌,
  if◌then◌else◌, length,
}
use mpc_ext.Core.Types.{
  Bytes, PartyId, Error, Result, ok, err, ◌>>=◌, or_backend, KeyShare, Envelope, is_for,
}
use mpc_ext.Core.Upstream.{Dkls}
use mpc_ext.Core.Field.{Field}
use mpc_ext.Core.Dkg.{DkgParty, Progress, send, finished, start}
use mpc_ext.Core.Dkg.Rounds.{advance}
use mpc_ext.Core.Reshare.{SharePoint, ReshareRole, survivor, joiner, start_reshare}

-- What is in flight for a party: the others' broadcasts and what is addressed to it.
unfoldable pub inbox_of : PartyId → List Envelope → List Envelope
inbox_of me [] = []
inbox_of me (e ∷ es) =
    let rest = inbox_of me es in if not (e.from == me) && is_for me e.to then e ∷ rest else rest

-- The variables of the loop that a pass changes.
pub record Totals : Type 0 where
  pub next : List Envelope
  pub finished : ℕ
  pub public_key : Option Bytes
  pub shares : List KeyShare

unfoldable pub agree : Option Bytes → Bytes → Result Bytes
agree none key = ok key
agree (some known) key = if known == key then ok known else err Error.backend

module _ (u : Dkls) where
  unfoldable pub take_progress : Progress u → Totals → Result Totals
  unfolding agree
  take_progress (send outgoing) t = ok (record t { next = t.next ++ outgoing })
  take_progress (finished share key) t = do
    known ← agree t.public_key key
    ok (record t {
      finished = t.finished + 1;
      public_key = some known;
      shares = t.shares ++ share ∷ [];
    })

  -- One pass over the parties.
  unfoldable pub pass :
      List Envelope → List (DkgParty u) → Totals → Result (List (DkgParty u) × Totals)
  unfolding take_progress inbox_of
  pass in_flight [] t = ok ([], t)
  pass in_flight (p ∷ ps) t =
      let (result, after) = advance u p (inbox_of p.me in_flight) in
      (do
        progress ← result
        taken ← take_progress progress t
        rest ← pass in_flight ps taken
        ok (after ∷ rest.0, rest.1))

  abbrev pub Driven : Type 0
  Driven = Option (Result (List KeyShare × Bytes))

  abbrev pub no_totals : Option Bytes → List KeyShare → Totals
  no_totals key shares = record { next = []; finished = 0; public_key = key; shares = shares }

  unfoldable pub drive_from :
      ℕ → List (DkgParty u) → List Envelope → Option Bytes → List KeyShare → Driven
  unfolding pass
  drive_from zero parties in_flight key shares = none
  drive_from (suc fuel) parties in_flight key shares =
      elim (pass in_flight parties (no_totals key shares)) [
        | err x ↦ some (err x)
        | ok (left, t) ↦ elim (t.finished == length left) [
          | true ↦ some (or_backend t.public_key >>= (λ k. ok (t.shares, k)))
          | false ↦ drive_from fuel left t.next t.public_key t.shares
        ]
      ]

  unfoldable pub drive_locally : ℕ → List (DkgParty u) → List Envelope → Driven
  unfolding drive_from
  drive_locally fuel parties in_flight = drive_from fuel parties in_flight none []

  -- The parties that `begin` starts, and all that they send.
  unfoldable pub start_all :
      (PartyId → Result (DkgParty u × List Envelope))
      → List PartyId
      → Result (List (DkgParty u) × List Envelope)
  start_all begin [] = ok ([], [])
  start_all begin (id ∷ ids) = do
    (party, outgoing) ← begin id
    (parties, in_flight) ← start_all begin ids
    ok (party ∷ parties, outgoing ++ in_flight)

  unfoldable pub drive_started : ℕ → Result (List (DkgParty u) × List Envelope) → Driven
  unfolding drive_locally
  drive_started fuel (ok (parties, in_flight)) = drive_locally fuel parties in_flight
  drive_started fuel (err x) = some (err x)

  unfoldable pub run_locally : ℕ → Bytes → Driven
  unfolding drive_started start_all start
  run_locally fuel session_id =
      drive_started fuel (start_all (λ id. start u id session_id) (0 ∷ 1 ∷ 2 ∷ []))

  unfoldable pub role_of : KeyShare → KeyShare → PartyId → ReshareRole
  role_of first second id =
      let ids : PartyId × PartyId = (first.party, second.party) in
      if first.party == id
      then survivor first ids
      else if second.party == id
      then survivor second ids
      else joiner

  module _ ⦃f : Field u.Scalar⦄ (decode : Bytes → Option (SharePoint u.Scalar)) where
    unfoldable pub reshare_locally :
        ℕ → KeyShare → KeyShare → Bytes → Bytes → (PartyId → u.Scalar) → Driven
    unfolding drive_started start_all start_reshare role_of
    reshare_locally fuel first second expected session_id slope = drive_started fuel (
        start_all
          (λ id. start_reshare u decode id session_id (role_of first second id) expected (slope id))
          (0 ∷ 1 ∷ 2 ∷ []))
