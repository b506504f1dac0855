-- ===== src/Core/Sign/Turns.antt =====
-- One pass of the loop of `sign_locally` of crates/mpc-core/src/protocol.rs.
use mpc_ext.Base.{
  Bool, true, false, if◌then◌else◌, ◌==◌, ℕ, ◌+◌, ◌≡◌, ◌<◌, refl, subst, List, [], ◌∷◌, none, some,
  All, arith,
}
use mpc_ext.Core.Types.{
  Holds-then, KeyShare, Bytes, PartyId, traverse, Result, ok, err, ◌>>=◌, Envelope, Holds,
  Holds-bind, Holds-any,
}
use mpc_ext.Core.Drive.{inbox_of}
use mpc_ext.Core.Sign.{
  sign_start, start_sign, begin_sign, Signing, Signature, SignParty, SignProgress, send, signed,
  sign_advance,
}
use mpc_ext.Core.Sign.Rounds.{SignOutcome, sign_advance-SignOutcome}
use mpc_ext.Core.Sign.Local.{SignTotals, take_sign_progress, agree_signature, sign_pass}

if-Holds :
    {A : Type 0} (P : A → Type 0) (c : Bool) (x y : Result A)
    → Holds P x
    → Holds P y
    → Holds P (if c then x else y)
if-Holds P true x y hx hy = hx
if-Holds P false x y hx hy = hy

both :
    {A : Type 0} (P Q : A → Type 0) (r : Result A)
    → Holds P r
    → Holds Q r
    → Holds (λ a. P a × Q a) r
unfolding Holds
both P Q (ok a) p q = (p, q)
both P Q (err x) p q = tt

module _ (u : Signing) where
  -- A party that has started is in round 1.
  pub started_round :
      (share : KeyShare) (other : PartyId) (sign_id digest : Bytes) (a : SignParty u)
      (out : List Envelope)
      → sign_start u share other sign_id digest ≡ ok (a, out)
      → a.round ≡ 1
  unfolding sign_start start_sign Holds
  started_round share other sign_id digest a out e = subst (Holds (λ r. r.0.round ≡ 1)) e (
      if-Holds (λ r. r.0.round ≡ 1) (share.party == other) (err _)
        (begin_sign u share other sign_id digest >>= start_sign u share other) tt
        (Holds-then (λ r. r.0.round ≡ 1) (begin_sign u share other sign_id digest)
          (start_sign u share other)
          (λ begun. Holds-then (λ r. r.0.round ≡ 1) (traverse _ begun.2) _ (λ outgoing. refl))))

  abbrev pub Passed : Type 0
  Passed = List (SignParty u) × SignTotals

  abbrev pub AllAt : ℕ → List (SignParty u) → Type 0
  AllAt n = All (λ p. p.round ≡ n)

  unfoldable pub IsOn : ℕ → Passed → Type 0
  IsOn n r = AllAt n r.0 × (r.1.signature ≡ none)

  unfoldable pub HasSignature : Passed → Type 0
  HasSignature r = (sig : Signature) × (r.1.signature ≡ some sig)

  -- The rest of a pass, from what the first party of it returns.
  abbrev pub rest_of :
      List Envelope
      → List (SignParty u)
      → SignTotals
      → Result SignProgress × SignParty u
      → Result Passed
  rest_of in_flight ps t a = do
    progress ← a.0
    taken ← take_sign_progress progress t
    rest ← sign_pass u in_flight ps taken
    ok (a.1 ∷ rest.0, rest.1)

  rest-IsOn :
      (n me other : ℕ) (in_flight : List Envelope) (ps : List (SignParty u)) (t : SignTotals)
      (a : Result SignProgress × SignParty u)
      → n < 3
      → SignOutcome u n me other a
      → t.signature ≡ none
      → ((t : SignTotals) → t.signature ≡ none → Holds (IsOn (n + 1)) (sign_pass u in_flight ps t))
      → Holds (IsOn (n + 1)) (rest_of in_flight ps t a)
  unfolding Holds SignOutcome take_sign_progress IsOn
  rest-IsOn n me other in_flight ps t (err x, q) low o unsigned ih = tt
  rest-IsOn n me other in_flight ps t (ok (signed sig), q) low o unsigned ih = absurd (ground arith)
  rest-IsOn n me other in_flight ps t (ok (send out), q) low o unsigned ih =
      Holds-bind (IsOn (n + 1)) (IsOn (n + 1)) (sign_pass u in_flight ps _)
        (λ rest. ok (q ∷ rest.0, rest.1)) (ih _ unsigned) (λ rest h. ((o.2, h.0), h.1))

  pass-IsOn :
      (n : ℕ) (in_flight : List Envelope) (ps : List (SignParty u)) (t : SignTotals)
      → n < 3
      → AllAt n ps
      → t.signature ≡ none
      → Holds (IsOn (n + 1)) (sign_pass u in_flight ps t)
  unfolding sign_pass Holds IsOn
  pass-IsOn n in_flight [] t low all unsigned = (tt, unsigned)
  pass-IsOn n in_flight (p ∷ ps) t low all unsigned =
      rest-IsOn n p.me p.counterparty in_flight ps t (sign_advance u p (inbox_of p.me in_flight))
        low
        (subst
          (λ m. SignOutcome u m p.me p.counterparty (sign_advance u p (inbox_of p.me in_flight)))
          all.0 (sign_advance-SignOutcome u p (inbox_of p.me in_flight)))
        unsigned (λ t unsigned. pass-IsOn n in_flight ps t low all.1 unsigned)

  unfoldable pub IsInhabited : List (SignParty u) → Type 0
  IsInhabited [] = ⊥
  IsInhabited (_ ∷ _) = Unit

  rest-IsInhabited :
      (in_flight : List Envelope) (ps : List (SignParty u)) (t : SignTotals)
      (a : Result SignProgress × SignParty u)
      → Holds (λ r. IsInhabited r.0) (rest_of in_flight ps t a)
  unfolding IsInhabited Holds
  rest-IsInhabited in_flight ps t a =
      let Q : Passed → Type 0 = λ r. IsInhabited r.0 in
      Holds-then Q a.0 _ (λ progress.
        Holds-then Q (take_sign_progress progress t) _
          (λ taken. Holds-then Q (sign_pass u in_flight ps taken) _ (λ rest. tt)))

  pub pass-IsInhabited :
      (n : ℕ) (in_flight : List Envelope) (ps : List (SignParty u)) (t : SignTotals)
      → n < 3
      → AllAt n ps
      → IsInhabited ps
      → t.signature ≡ none
      → Holds (λ r. IsOn (n + 1) r × IsInhabited r.0) (sign_pass u in_flight ps t)
  unfolding IsInhabited sign_pass
  pass-IsInhabited n in_flight [] t low all here unsigned = absurd here
  pass-IsInhabited n in_flight (p ∷ ps) t low all here unsigned =
      both (IsOn (n + 1)) (λ r. IsInhabited r.0) (sign_pass u in_flight (p ∷ ps) t)
        (pass-IsOn n in_flight (p ∷ ps) t low all unsigned)
        (rest-IsInhabited in_flight ps t (sign_advance u p (inbox_of p.me in_flight)))

  pub rest-HasSignature :
      (me other : ℕ) (in_flight : List Envelope) (ps : List (SignParty u)) (t : SignTotals)
      (a : Result SignProgress × SignParty u)
      → SignOutcome u 3 me other a
      → ((t : SignTotals) (sig : Signature)
          → t.signature ≡ some sig
          → Holds HasSignature (sign_pass u in_flight ps t))
      → Holds HasSignature (rest_of in_flight ps t a)
  unfolding Holds SignOutcome take_sign_progress HasSignature
  rest-HasSignature me other in_flight ps t (err x, q) o ih = tt
  rest-HasSignature me other in_flight ps t (ok (send out), q) o ih = absurd (ground arith)
  rest-HasSignature me other in_flight ps t (ok (signed sig), q) o ih =
      Holds-bind (λ taken. (sig : Signature) × (taken.signature ≡ some sig)) HasSignature
        (take_sign_progress (signed sig) t)
        (λ taken. sign_pass u in_flight ps taken >>= (λ rest. ok (q ∷ rest.0, rest.1)))
        (Holds-bind (λ _. Unit {0}) (λ taken. (sig : Signature) × (taken.signature ≡ some sig))
          (agree_signature t.signature sig) (λ known. ok (record t { signature = some known }))
          (Holds-any (agree_signature t.signature sig)) (λ known _. (known, refl)))
        (λ taken h.
          Holds-bind HasSignature HasSignature (sign_pass u in_flight ps taken)
            (λ rest. ok (q ∷ rest.0, rest.1)) (ih taken h.0 h.1) (λ rest h. h))

  pub pass-HasSignature :
      (in_flight : List Envelope) (ps : List (SignParty u)) (t : SignTotals) (sig : Signature)
      → AllAt 3 ps
      → t.signature ≡ some sig
      → Holds HasSignature (sign_pass u in_flight ps t)
  unfolding sign_pass Holds HasSignature
  pass-HasSignature in_flight [] t sig all known = (sig, known)
  pass-HasSignature in_flight (p ∷ ps) t sig all known =
      rest-HasSignature p.me p.counterparty in_flight ps t
        (sign_advance u p (inbox_of p.me in_flight))
        (subst
          (λ m. SignOutcome u m p.me p.counterparty (sign_advance u p (inbox_of p.me in_flight)))
          all.0 (sign_advance-SignOutcome u p (inbox_of p.me in_flight)))
        (λ t sig known. pass-HasSignature in_flight ps t sig all.1 known)
