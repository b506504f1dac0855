-- ===== src/Core/Drive/Passes.antt =====
-- One pass of the loop of drive_locally in crates/mpc-core/src/protocol.rs over parties that are all
-- in one round.
use mathlib.Core.List.{append_assoc, append-nil}
use mpc_ext.Base.{
  ℕ, suc, ◌+◌, ◌≡◌, ◌<◌, ◌∙◌, refl, sym, ap, subst, List, [], ◌∷◌, ◌++◌, Option, none, some, ◌==◌,
  Bool-cases, inl, inr, length, map, All, arith,
}
use mpc_ext.Core.Types.{
  Bytes, PartyId, Result, ok, err, ◌>>=◌, KeyShare, Envelope, Holds, Holds-bind, Result-cases,
}
use mpc_ext.Core.Upstream.{Dkls}
use mpc_ext.Core.Dkg.{DkgParty, Progress, send, finished}
use mpc_ext.Core.Dkg.Rounds.{advance}
use mpc_ext.Core.Dkg.Outcome.{Outcome, KeepsKey, advance-Outcome}
use mpc_ext.Core.Drive.{inbox_of, Totals, agree, take_progress, pass}

module _ (u : Dkls) where
  -- Who the parties are, and the keys that they are to keep.
  abbrev pub roles : List (DkgParty u) → List (PartyId × Option Bytes)
  roles ps = map (λ p. (p.me, p.expected_public_key)) ps

  abbrev pub AllIn : ℕ → List (DkgParty u) → Type 0
  AllIn n ps = All (λ p. p.round ≡ n) ps

  -- A pass in which every party sends.
  unfoldable pub Sends : ℕ → List (DkgParty u) → Totals → List (DkgParty u) × Totals → Type 0
  Sends n ps t (qs, t') =
      AllIn (n + 1) qs
      × (roles qs ≡ roles ps)
      × (t'.finished ≡ t.finished)
      × (t'.public_key ≡ t.public_key)
      × (t'.shares ≡ t.shares)

  -- What a pass does with the outcome of the first party's call.
  abbrev follow :
      List Envelope
      → List (DkgParty u)
      → Totals
      → Result (Progress u) × DkgParty u
      → Result (List (DkgParty u) × Totals)
  follow in_flight ps t a = do
    progress ← a.0
    taken ← take_progress u progress t
    rest ← pass u in_flight ps taken
    ok (a.1 ∷ rest.0, rest.1)

  follow-Sends :
      (n : ℕ) (in_flight : List Envelope) (p : DkgParty u) (ps : List (DkgParty u)) (t : Totals)
      (a : Result (Progress u) × DkgParty u)
      → n < 3
      → Outcome u n p.me p.expected_public_key a
      → ((t' : Totals) → Holds (Sends n ps t') (pass u in_flight ps t'))
      → Holds (Sends n (p ∷ ps) t) (follow in_flight ps t a)
  unfolding Holds Sends take_progress Outcome
  follow-Sends n in_flight p ps t (ok (send out), q) lt (_, _, round, me, key, _) rest =
      Holds-bind (Sends n ps (record t { next = t.next ++ out })) (Sends n (p ∷ ps) t)
        (pass u in_flight ps (record t { next = t.next ++ out })) _ (rest _)
        (λ r h. ((round, h.0), rw (me, key, h.1) refl, h.2, h.3, h.4))
  follow-Sends n in_flight p ps t (ok (finished share key), q) lt (last, _, _, _, _) rest =
      absurd (omega arith)
  follow-Sends n in_flight p ps t (err x, q) lt _ rest = tt

  pub pass-Sends :
      (n : ℕ) (in_flight : List Envelope) (ps : List (DkgParty u)) (t : Totals)
      → n < 3
      → AllIn n ps
      → Holds (Sends n ps t) (pass u in_flight ps t)
  unfolding pass Holds Sends
  pass-Sends n in_flight [] t lt all = (tt, refl, refl, refl, refl)
  pass-Sends n in_flight (p ∷ ps) t lt (here, all) =
      follow-Sends n in_flight p ps t (advance u p (inbox_of p.me in_flight)) lt
        (subst (λ m. Outcome u m p.me p.expected_public_key (advance u p (inbox_of p.me in_flight)))
          here (advance-Outcome u p (inbox_of p.me in_flight)))
        (λ t'. pass-Sends n in_flight ps t' lt all)

  -- The parties' shares in their order, under one key that is the one to be kept, if one was.
  unfoldable pub AreShares : List (PartyId × Option Bytes) → List KeyShare → Bytes → Type 0
  AreShares rs shares key =
      (map (λ s. s.party) shares ≡ map (λ r. r.0) rs) × All (λ r. KeepsKey r.1 key) rs

  -- A pass in which every party finishes.
  unfoldable pub Finishes : List (DkgParty u) → Totals → List (DkgParty u) × Totals → Type 0
  Finishes ps t (qs, t') =
      (length qs ≡ length ps)
      × (t'.finished ≡ t.finished + length ps)
      × (new : List KeyShare) × (t'.shares ≡ t.shares ++ new)
      × ((key : Bytes) → t'.public_key ≡ some key → AreShares (roles ps) new key)
      × ((key : Bytes) → t.public_key ≡ some key → t'.public_key ≡ some key)

  agree-Holds :
      (o : Option Bytes) (key : Bytes)
      → Holds (λ known. (known ≡ key) × ((k : Bytes) → o ≡ some k → known ≡ k)) (agree o key)
  unfolding agree Holds
  agree-Holds none key = (refl, λ k h. ground arith)
  agree-Holds (some known) key = elim (Bool-cases (known == key)) [
    | inl same ↦ rw same (ground arith, λ k h. ground arith)
    | inr other ↦ rw other tt
  ]

  one_more :
      (p q : DkgParty u) (ps : List (DkgParty u)) (t t' : Totals) (share : KeyShare) (known : Bytes)
      → share.party ≡ p.me
      → KeepsKey p.expected_public_key known
      → ((k : Bytes) → t.public_key ≡ some k → known ≡ k)
      → (qs : List (DkgParty u))
      → Finishes ps
          (record t {
            finished = t.finished + 1;
            public_key = some known;
            shares = t.shares ++ share ∷ [];
          })
          (qs, t')
      → Finishes (p ∷ ps) t (q ∷ qs, t')
  unfolding Finishes AreShares
  one_more p q ps t t' share known mine keeps same qs (size, count, new, shares, made, kept) = (
    ap suc size,
    omega arith,
    share ∷ new,
    shares ∙ append_assoc t.shares (share ∷ []) new,
    λ k h.
        let e : known ≡ k = ground (arith, kept known refl, h) in
        (
          rw (mine, (made k h).0) refl,
          (subst (KeepsKey p.expected_public_key) e keeps, (made k h).1),
        ),
    λ k h. kept k (ap some (same k h)),
  )

  follow-Finishes :
      (in_flight : List Envelope) (p : DkgParty u) (ps : List (DkgParty u)) (t : Totals)
      (a : Result (Progress u) × DkgParty u)
      → Outcome u 3 p.me p.expected_public_key a
      → ((t' : Totals) → Holds (Finishes ps t') (pass u in_flight ps t'))
      → Holds (Finishes (p ∷ ps) t) (follow in_flight ps t a)
  unfolding Holds take_progress Outcome
  follow-Finishes in_flight p ps t (ok (send out), q) (_, lt, _, _, _, _) rest =
      absurd (omega arith)
  follow-Finishes in_flight p ps t (ok (finished share key), q) (_, _, _, mine, keeps) rest =
      elim (Result-cases (agree t.public_key key)) [
        | inr (x, h) ↦ rw h tt
        | inl (known, h) ↦
            let (e, same) =
              subst
                (Holds (λ known. (known ≡ key) × ((k : Bytes) → t.public_key ≡ some k → known ≡ k)))
                h (agree-Holds t.public_key key) in
            let t₁ : Totals = record t {
              finished = t.finished + 1;
              public_key = some known;
              shares = t.shares ++ share ∷ [];
            } in
            rw h (
              Holds-bind (Finishes ps t₁) (Finishes (p ∷ ps) t) (pass u in_flight ps t₁) _ (rest t₁)
                (λ r done.
                  one_more p q ps t r.1 share known mine
                    (subst (KeepsKey p.expected_public_key) (sym e) keeps) same r.0 done))
      ]
  follow-Finishes in_flight p ps t (err x, q) _ rest = tt

  pub pass-Finishes :
      (in_flight : List Envelope) (ps : List (DkgParty u)) (t : Totals)
      → AllIn 3 ps
      → Holds (Finishes ps t) (pass u in_flight ps t)
  unfolding pass Holds Finishes AreShares
  pass-Finishes in_flight [] t all =
      (refl, omega arith, [], sym (append-nil t.shares), λ k h. (refl, tt), λ k h. h)
  pass-Finishes in_flight (p ∷ ps) t (here, all) =
      follow-Finishes in_flight p ps t (advance u p (inbox_of p.me in_flight))
        (subst (λ m. Outcome u m p.me p.expected_public_key (advance u p (inbox_of p.me in_flight)))
          here (advance-Outcome u p (inbox_of p.me in_flight)))
        (λ t'. pass-Finishes in_flight ps t' all)
