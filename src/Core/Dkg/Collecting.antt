-- ===== src/Core/Dkg/Collecting.antt =====
-- What round 2 of `DkgParty` (crates/mpc-core/src/protocol.rs) needs before it goes on.
use mpc_ext.Base.{ℕ, ◌≡◌, ◌≢◌, refl, ap, ◌∙◌, List, [], ◌∷◌, length, arith}
use mpc_ext.Core.Types.{ok, Envelope}
use mpc_ext.Core.Maps.{insert}
use mpc_ext.Core.Upstream.{Dkls}
use mpc_ext.Core.Dkg.{
  DkgParty, decode_envelope, take_fragments, check_fragments, after_phase2, round2,
}

module _ (u : Dkls) where
  take_two :
      (e f : Envelope) (a b : u.Scalar) (m : List (ℕ × u.Scalar))
      → decode_envelope u.scalar e ≡ ok a
      → decode_envelope u.scalar f ≡ ok b
      → take_fragments u (e ∷ f ∷ []) m ≡ (ok tt, insert f.from b (insert e.from a m))
  unfolding take_fragments
  take_two e f a b m da db = ground arith

  check_all :
      (p : DkgParty u) (fragments : List (ℕ × u.Scalar))
      → length fragments ≡ 3
      → check_fragments u p (ok tt) fragments ≡ after_phase2 u (record p { fragments = fragments })
  unfolding check_fragments
  check_all p fragments all = rw all refl

  three_fragments :
      (i j k : ℕ) (own a b : u.Scalar)
      → j ≢ i
      → k ≢ i
      → j ≢ k
      → length (insert k b (insert j a ((i, own) ∷ []))) ≡ 3
  unfolding insert
  three_fragments i j k own a b ji ki jk = ground arith

  -- A party that holds its own fragment and receives one from each of two other parties enters the
  -- second phase with all three, whatever else it holds.
  pub round2_collects :
      (p : DkgParty u) (own a b : u.Scalar) (e f : Envelope)
      → p.fragments ≡ (p.me, own) ∷ []
      → e.from ≢ p.me
      → f.from ≢ p.me
      → e.from ≢ f.from
      → decode_envelope u.scalar e ≡ ok a
      → decode_envelope u.scalar f ≡ ok b
      → round2 u p (e ∷ f ∷ [])
        ≡ after_phase2 u
            (record p { fragments = insert f.from b (insert e.from a ((p.me, own) ∷ [])) })
  unfolding round2
  round2_collects p own a b e f held ne nf apart da db =
      ap (λ r. check_fragments u p r.0 r.1)
        (ap (take_fragments u (e ∷ f ∷ [])) held ∙ take_two e f a b ((p.me, own) ∷ []) da db)
      ∙ check_all p (insert f.from b (insert e.from a ((p.me, own) ∷ [])))
          (three_fragments p.me e.from f.from own a b ne nf apart)
