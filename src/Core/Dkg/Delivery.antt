-- ===== src/Core/Dkg/Delivery.antt =====
-- What `DkgParty::advance` (crates/mpc-core/src/protocol.rs) accepts, and what it sends.
use mpc_ext.Base.{
  ℕ, ◌≡◌, ◌≢◌, refl, sym, ap, List, [], ◌∷◌, ◌++◌, true, Option, All, arith, inl, inr,
}
use mpc_ext.Core.Types.{
  PartyId, Error, ok, err, Envelope, is_for, Result-cases, or_backend, Holds, Holds-bind, Holds-any,
}
use mpc_ext.Core.Maps.{insert, insert_comm}
use mpc_ext.Core.Upstream.{Dkls, Codec}
use mpc_ext.Core.Dkg.{
  check_fragments, DkgParty, decode_envelope, take_fragments, round2, new_envelope,
}
use mpc_ext.Core.Dkg.Rounds.{check_inbox, advance}

-- An envelope that `advance` lets in at a round.
unfoldable pub IsDue : ℕ → PartyId → Envelope → Type 0
IsDue round me e = (e.round ≡ round) × (is_for me e.to ≡ true)

-- An envelope that a party sends in a round.
unfoldable pub IsSent : ℕ → PartyId → Envelope → Type 0
IsSent round me e = (e.round ≡ round) × (e.from ≡ me)

pub new_envelope-IsSent :
    {A : Type 0} (codec : Codec A) (round : ℕ) (me : PartyId) (to : Option PartyId) (body : A)
    → Holds (IsSent round me) (new_envelope codec round me to body)
unfolding new_envelope IsSent Holds
new_envelope-IsSent codec round me to body =
    Holds-bind (λ _. Unit) (IsSent round me) (or_backend (codec.encode body))
      (λ payload. ok (record { round = round; from = me; to = to; payload = payload }))
      (Holds-any (or_backend (codec.encode body))) (λ _ _. (refl, refl))

module _ (u : Dkls) where
  check_inbox-ok :
      (round : ℕ) (me : PartyId) (inbox : List Envelope)
      → check_inbox u round me inbox ≡ ok tt
      → All (IsDue round me) inbox
  unfolding check_inbox IsDue
  check_inbox-ok round me [] h = tt
  check_inbox-ok round me (e ∷ inbox) h =
      ((ground arith, ground arith), check_inbox-ok round me inbox (ground arith))

  -- A message of another round, or one addressed to another party, makes `advance` fail and leaves
  -- the party as it was, whatever else arrived with it.
  pub advance_refuses :
      (p : DkgParty u) (inbox : List Envelope)
      → ¬ All (IsDue p.round p.me) inbox
      → (x : Error) × (advance u p inbox ≡ (err x, p))
  unfolding advance
  advance_refuses p inbox h = elim (Result-cases (check_inbox u p.round p.me inbox)) [
    | inl (_, e) ↦ absurd (h (check_inbox-ok p.round p.me inbox e))
    | inr (x, e) ↦ (x, ground arith)
  ]

  -- Two fragments of different senders that both decode may arrive in either order.
  take_fragments_swap :
      (e f : Envelope) (envelopes : List Envelope) (m : List (ℕ × u.Scalar)) (a b : u.Scalar)
      → e.from ≢ f.from
      → decode_envelope u.scalar e ≡ ok a
      → decode_envelope u.scalar f ≡ ok b
      → take_fragments u (e ∷ f ∷ envelopes) m ≡ take_fragments u (f ∷ e ∷ envelopes) m
  unfolding take_fragments
  take_fragments_swap e f envelopes m a b apart da db =
      ground (arith, insert_comm f.from e.from b a m (λ h. apart (sym h)))

  take_fragments_prefix :
      (xs ys zs : List Envelope) (m : List (ℕ × u.Scalar))
      → ((n : List (ℕ × u.Scalar)) → take_fragments u ys n ≡ take_fragments u zs n)
      → take_fragments u (xs ++ ys) m ≡ take_fragments u (xs ++ zs) m
  unfolding take_fragments
  take_fragments_prefix [] ys zs m h = h m
  take_fragments_prefix (x ∷ xs) ys zs m h = elim (Result-cases (decode_envelope u.scalar x)) [
    | inl (a, e) ↦ ground (arith, take_fragments_prefix xs ys zs (insert x.from a m) h)
    | inr (x, e) ↦ ground arith
  ]

  -- Round 2 does not depend on the order in which the fragments of different senders arrive.
  pub round2_order :
      (p : DkgParty u) (xs ys : List Envelope) (e f : Envelope) (a b : u.Scalar)
      → e.from ≢ f.from
      → decode_envelope u.scalar e ≡ ok a
      → decode_envelope u.scalar f ≡ ok b
      → round2 u p (xs ++ e ∷ f ∷ ys) ≡ round2 u p (xs ++ f ∷ e ∷ ys)
  unfolding round2
  round2_order p xs ys e f a b apart da db =
      ap (λ r. check_fragments u p r.0 r.1)
        (take_fragments_prefix xs (e ∷ f ∷ ys) (f ∷ e ∷ ys) p.fragments
          (λ n. take_fragments_swap e f ys n a b apart da db))
