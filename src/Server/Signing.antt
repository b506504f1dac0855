-- ===== src/Server/Signing.antt =====
-- The handlers of crates/mpc-server/src/api.rs for signing. A handler takes the device proof, the
-- readings of the clock and the nonce for sealing that it draws; bincode for a party is a parameter.
pub mod Guarded
use mpc_ext.Base.{
  ℕ, ◌≡◌, List, [], ◌∷◌, ◌++◌, Option, none, some, Bool, true, false, ◌==◌, if◌then◌else◌, length,
  map,
}
use mpc_ext.Core.Types.{Bytes, PartyId, Result, ok, err, Envelope, KeyShare}
use mpc_ext.Core.Upstream.{Codec}
use mpc_ext.Core.Sign.{
  Signing, SignParty, SignProgress, Signature, send, signed, sign_start, sign_advance,
}
use mpc_ext.Core.Sign.Hex.{hex}
use mpc_ext.Server.Types.{Text, Blob, Error, Sealed, Db, sign, recovery}
use mpc_ext.Server.Clock.{Stamps}
use mpc_ext.Server.Auth.{Proof, Verifier, Reading, authenticate}
use mpc_ext.Server.Grants.{consume_passkey_authorization}
use mpc_ext.Server.Handlers.{post}
use mpc_ext.Server.Sessions.{key_share, put_sign_session, take_sign_session, finish_sign}
use mpc_ext.Server.Steps.{
  Action, ◌>>=◌, answer, fail, query, query_writing, write, need, check, from_core, admitted, Host,
  WireEnvelope, to_wire, from_wires, parse_hex32, seal, open_sealed, first_round, server_party,
  session_ttl_seconds,
}

pub record StartSign : Type 0 where
  pub wallet_id : Text
  pub sign_id : Text
  pub digest : Text
  pub counterparty : PartyId

pub record AdvanceSign : Type 0 where
  pub wallet_id : Text
  pub sign_id : Text
  pub envelopes : List WireEnvelope

pub data AdvancedSign : Type 0 where
  in_progress : List WireEnvelope → AdvancedSign
  completed : List ℕ → AdvancedSign

abbrev pub sign_session_path : Text
sign_session_path = 21

abbrev pub sign_round_path : Text
sign_round_path = 22

-- The policy of the share that the client drives.
unfoldable pub purpose_of : PartyId → Option Text
purpose_of party = if party == 0 then some sign else if party == 1 then some recovery else none

-- The readings of `start_sign`: for the proof, the grant (twice) and the deadline of the session.
pub record SignMoments : Type 0 where
  pub proof : Reading
  pub mark : ℕ
  pub grant : ℕ
  pub written : ℕ

module _ (h : Host) (u : Signing) (codec : Codec (SignParty u)) (s : Stamps) (v : Verifier) where
  -- `start_sign` once the grant is used: the share is unsealed, and the session opened.
  unfoldable pub open_sign : StartSign → Blob → Blob → Blob → ℕ → Action (List WireEnvelope)
  open_sign request sign_id digest nonce written = do
    held ← query (key_share request.wallet_id)
    sealed ← need Error.unknown_session held
    secret ← open_sealed h sealed
    (party, envelopes) ← from_core (
        sign_start u (record { party = server_party; secret = secret }) request.counterparty sign_id
          digest)
    state ← need Error.protocol (codec.encode party)
    session ← seal h nonce state
    _ ←
        write
          (put_sign_session request.sign_id request.wallet_id 1 session session_ttl_seconds written)
    answer (map (to_wire h) envelopes)

  -- `start_sign` once the device's proof is checked.
  unfoldable pub use_grant : StartSign → SignMoments → Blob → Action (List WireEnvelope)
  use_grant request m nonce = do
    sign_id ← parse_hex32 h request.sign_id
    digest ← parse_hex32 h request.digest
    purpose ← need Error.protocol (purpose_of request.counterparty)
    consumed ← query_writing (
        consume_passkey_authorization s request.wallet_id purpose request.sign_id request.digest
          m.mark m.grant)
    _ ← check Error.authentication consumed
    open_sign request sign_id digest nonce m.written

  unfoldable pub start_sign :
      StartSign → Text → Proof → SignMoments → Blob → Action (List WireEnvelope)
  start_sign request raw p m nonce = do
    _ ← admitted (authenticate s v post sign_session_path request.wallet_id raw p m.proof)
    use_grant request m nonce

  -- What the handler does with the outcome of the party's round.
  unfoldable pub settle_sign :
      AdvanceSign → Blob → ℕ → Result SignProgress × SignParty u → Action AdvancedSign
  settle_sign request nonce written (err _, party) = fail Error.protocol
  settle_sign request nonce written (ok (send outgoing), party) = do
    state ← need Error.protocol (codec.encode party)
    sealed ← seal h nonce state
    _ ← write (
        put_sign_session request.sign_id request.wallet_id (first_round outgoing) sealed
          session_ttl_seconds written)
    answer (in_progress (map (to_wire h) outgoing))
  settle_sign request nonce written (ok (signed signature), party) = do
    _ ← write (finish_sign request.sign_id request.wallet_id)
    answer (completed (hex (signature.r ++ signature.s ++ signature.recovery_id ∷ [])))

  unfoldable pub advance_sign :
      AdvanceSign → Text → Proof → Reading → Blob → ℕ → ℕ → Action AdvancedSign
  advance_sign request raw p t nonce taken written = do
    _ ← admitted (authenticate s v post sign_round_path request.wallet_id raw p t)
    found ← query_writing (take_sign_session s request.sign_id taken)
    sealed ← need Error.unknown_session found
    state ← open_sealed h sealed
    party ← need Error.protocol (codec.decode state)
    inbox ← from_wires h request.envelopes
    settle_sign request nonce written (sign_advance u party inbox)
