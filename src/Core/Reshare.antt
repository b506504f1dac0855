-- ===== src/Core/Reshare.antt =====
-- The start of a reshare in crates/mpc-core/src/protocol.rs, `reconstruct` of
-- crates/mpc-core/src/backend.rs, and what they do to the wallet's secret. The random slope of a
-- polynomial is an argument.
pub mod Secret
use mpc_ext.Base.{
  ℕ, ◌+◌, ◌%◌, List, [], ◌∷◌, ◌++◌, Option, none, some, Bool, true, false, not, ◌||◌, ◌&&◌, ◌==◌,
  ltb, leb, if◌then◌else◌, length, map,
}
use mpc_ext.Core.Types.{
  Bytes, PartyId, Error, Result, ok, err, ◌>>=◌, or_backend, KeyShare, Envelope, traverse,
  total_parties, threshold,
}
use mpc_ext.Core.Field.{Field, ◌⊕◌, ◌⊗◌, ◌⊖◌, line}
use mpc_ext.Core.Upstream.{Dkls}
use mpc_ext.Core.Dkg.{DkgParty, to_index, session_data, start_with}

-- What the code reads of a decoded share: the party's index and its point of the polynomial.
pub record SharePoint (A : Type 0) : Type 0 where
  pub party_index : ℕ
  pub poly_point : A

abbrev pub require : Bool → Result (Unit {0})
require true = ok tt
require false = err Error.backend

unfoldable pub contains : ℕ → List ℕ → Bool
contains n [] = false
contains n (m ∷ ms) = (n == m) || contains n ms

-- Sorting and removing the repeated indices leaves fewer exactly when one repeats.
unfoldable pub repeats : List ℕ → Bool
unfolding contains
repeats [] = false
repeats (n ∷ ns) = contains n ns || repeats ns

-- to_index, and to_upstream of backend.rs, with `PartyIndex::new` as a test.
unfoldable pub index_of : (ℕ → Bool) → PartyId → Result ℕ
index_of is_index party =
    let n = (party + 1) % 256 in if is_index n then ok n else err Error.backend

module _ {A : Type 0} ⦃f : Field A⦄ where
  unfoldable pub row_of : A → A → List A
  row_of constant slope = map (λ j. line constant slope (f.from_u64 j)) (1 ∷ 2 ∷ 3 ∷ [])

  -- The two products over the other indices, from the left.
  unfoldable pub products : A → List ℕ → A × A → A × A
  products me [] acc = acc
  products me (other ∷ others) (numerator, denominator) =
      products me others (numerator ⊗ f.from_u64 other, denominator ⊗ (f.from_u64 other ⊖ me))

  abbrev pub indices : List (SharePoint A) → List ℕ
  indices = map (λ p. p.party_index)

  -- The loop over the parties; `before` are those it has passed.
  unfoldable pub interpolate_all : A → List (SharePoint A) → List (SharePoint A) → Result A
  unfolding products
  interpolate_all secret before [] = ok secret
  interpolate_all secret before (p ∷ after) =
      let (numerator, denominator) =
        products (f.from_u64 p.party_index) (indices before ++ indices after) (f.one, f.one) in
      or_backend (f.invert denominator) >>= (λ inverse.
        interpolate_all (secret ⊕ ((p.poly_point ⊗ numerator) ⊗ inverse)) (before ++ p ∷ []) after)

  module _ (is_index : ℕ → Bool) where
    unfoldable pub weight : PartyId → PartyId → Result A
    unfolding index_of
    weight me other = do
      mine ← index_of is_index me
      theirs ← index_of is_index other
      denominator ← or_backend (f.invert (f.from_u64 theirs ⊖ f.from_u64 mine))
      ok (f.from_u64 theirs ⊗ denominator)

    unfoldable pub lagrange_at_zero : PartyId → PartyId × PartyId → Result A
    unfolding weight
    lagrange_at_zero me (first, second) =
        if (first == second) || leb total_parties first || leb total_parties second
        then err Error.backend
        else if me == first
        then weight me second
        else if me == second
        then weight me first
        else err Error.backend

    -- The row of a decoded share.
    unfoldable pub own_row : PartyId → SharePoint A → PartyId × PartyId → A → Result (List A)
    unfolding row_of index_of
    own_row me party survivors slope = do
      index ← index_of is_index me
      _ ← require (party.party_index == index)
      coefficient ← lagrange_at_zero me survivors
      ok (row_of (coefficient ⊗ party.poly_point) slope)

    unfoldable pub reshare_row :
        (Bytes → Option (SharePoint A))
        → PartyId
        → KeyShare
        → PartyId × PartyId
        → A
        → Result (List A)
    unfolding own_row
    reshare_row decode me share survivors slope =
        if share.party == me
        then or_backend (decode share.secret) >>= (λ party. own_row me party survivors slope)
        else err Error.backend

  unfoldable pub reconstruct : (Bytes → Option (SharePoint A)) → List KeyShare → Result A
  unfolding interpolate_all repeats
  reconstruct decode shares =
      if ltb (length shares) threshold
      then err (Error.invalid_party_count threshold (length shares % 256))
      else (do
        parties ← traverse (λ s. or_backend (decode s.secret)) shares
        if repeats (indices parties) then err Error.backend else interpolate_all f.zero [] parties)

pub data ReshareRole : Type 0 where
  survivor : KeyShare → PartyId × PartyId → ReshareRole
  joiner : ReshareRole

module _ (u : Dkls) ⦃f : Field u.Scalar⦄ (decode : Bytes → Option (SharePoint u.Scalar)) where
  unfoldable pub role_row : PartyId → ReshareRole → u.Scalar → Result (List u.Scalar)
  unfolding reshare_row
  role_row me joiner slope = ok (f.zero ∷ f.zero ∷ f.zero ∷ [])
  role_row me (survivor share survivors) slope =
      reshare_row u.is_index decode me share survivors slope

  unfoldable pub start_reshare :
      PartyId → Bytes → ReshareRole → Bytes → u.Scalar → Result (DkgParty u × List Envelope)
  unfolding role_row session_data start_with
  start_reshare me session_id role expected slope = do
    session ← session_data u me session_id
    row ← role_row me role slope
    start_with u me session row (some expected)
