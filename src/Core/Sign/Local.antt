-- ===== src/Core/Sign/Local.antt =====
-- `sign_locally` of crates/mpc-core/src/protocol.rs, which drives two signers in one process.
use mpc_ext.Base.{
  ℕ, zero, suc, List, [], ◌∷◌, ◌++◌, Option, none, some, Bool, true, false, ◌&&◌, ◌==◌,
  if◌then◌else◌,
}
use mpc_ext.Core.Types.{Bytes, Error, Result, ok, err, ◌>>=◌, KeyShare, Envelope}
use mpc_ext.Core.Drive.{inbox_of}
use mpc_ext.Core.Sign.{
  Signing, Signature, SignParty, SignProgress, send, signed, sign_start, sign_advance,
}

unfoldable pub same_bytes : List ℕ → List ℕ → Bool
same_bytes [] [] = true
same_bytes (a ∷ xs) (b ∷ ys) = (a == b) && same_bytes xs ys
same_bytes [] (_ ∷ _) = false
same_bytes (_ ∷ _) [] = false

unfoldable pub same_signature : Signature → Signature → Bool
unfolding same_bytes
same_signature a b = same_bytes a.r b.r && (same_bytes a.s b.s && (a.recovery_id == b.recovery_id))

-- The variables that a pass changes.
pub record SignTotals : Type 0 where
  pub next : List Envelope
  pub signature : Option Signature

unfoldable pub agree_signature : Option Signature → Signature → Result Signature
unfolding same_signature
agree_signature none sig = ok sig
agree_signature (some known) sig = if same_signature known sig then ok sig else err Error.backend

unfoldable pub take_sign_progress : SignProgress → SignTotals → Result SignTotals
unfolding agree_signature
take_sign_progress (send outgoing) t = ok (record t { next = t.next ++ outgoing })
take_sign_progress (signed sig) t = do
  known ← agree_signature t.signature sig
  ok (record t { signature = some known })

module _ (u : Signing) where
  -- One pass over the two parties.
  unfoldable pub sign_pass :
      List Envelope → List (SignParty u) → SignTotals → Result (List (SignParty u) × SignTotals)
  unfolding take_sign_progress inbox_of
  sign_pass in_flight [] t = ok ([], t)
  sign_pass in_flight (p ∷ ps) t =
      let (result, after) = sign_advance u p (inbox_of p.me in_flight) in
      (do
        progress ← result
        taken ← take_sign_progress progress t
        rest ← sign_pass in_flight ps taken
        ok (after ∷ rest.0, rest.1))

  -- The loop, with the passes that are left; none means that they have run out.
  unfoldable pub sign_loop : ℕ → List (SignParty u) → List Envelope → Option (Result Signature)
  unfolding sign_pass
  sign_loop zero parties in_flight = none
  sign_loop (suc left) parties in_flight =
      elim (sign_pass in_flight parties (record { next = []; signature = none })) [
        | err x ↦ some (err x)
        | ok (after, t) ↦ elim t.signature [
          | some sig ↦ some (ok sig)
          | none ↦ sign_loop left after t.next
        ]
      ]

  -- The loop, and the error after it.
  unfoldable pub sign_passes : ℕ → List (SignParty u) → List Envelope → Result Signature
  unfolding sign_loop
  sign_passes passes parties in_flight = elim (sign_loop passes parties in_flight) [
    | some result ↦ result
    | none ↦ err Error.backend
  ]

  unfoldable pub sign_locally : KeyShare → KeyShare → Bytes → Bytes → Result Signature
  unfolding sign_passes
  sign_locally first second sign_id digest = do
    (a, from_a) ← sign_start u first second.party sign_id digest
    (b, from_b) ← sign_start u second first.party sign_id digest
    sign_passes 4 (a ∷ b ∷ []) (from_a ++ from_b)
