-- ===== src/Server/Reshares.antt =====
-- The handlers of crates/mpc-server/src/reshare.rs. A handler takes the device proof, the readings of
-- the clock, the nonce for sealing and the random slope that it draws; bincode for a party, the decoding
-- of a share and the SHA-256 digest are parameters.
pub mod Guarded
pub mod Live
use mpc_ext.Base.{ℕ, List, Option, ◌==◌, length, map}
use mpc_ext.Core.Types.{Bytes, PartyId, Result, ok, err}
use mpc_ext.Core.Field.{Field}
use mpc_ext.Core.Upstream.{Dkls, Codec}
use mpc_ext.Core.Dkg.{DkgParty, Progress, send, finished}
use mpc_ext.Core.Dkg.Rounds.{advance}
use mpc_ext.Core.Reshare.{SharePoint, survivor, start_reshare}
use mpc_ext.Core.Sign.Hex.{hex}
use mpc_ext.Server.Types.{Text, Blob, Error, recovery}
use mpc_ext.Server.Clock.{Stamps}
use mpc_ext.Server.Auth.{Proof, Verifier, Reading, authenticate}
use mpc_ext.Server.Grants.{consume_passkey_authorization}
use mpc_ext.Server.Handlers.{post}
use mpc_ext.Server.Sessions.{
  key_share, public_key, put_reshare_session, take_reshare_session, stage_reshare, commit_reshare,
  abort_reshare,
}
use mpc_ext.Server.Steps.{
  Action, ◌>>=◌, answer, fail, query, query_writing, write, need, check, from_core, admitted, Host,
  WireEnvelope, to_wire, from_wires, parse_hex32, seal, open_sealed, first_round, server_party,
  session_ttl_seconds,
}

pub record StartReshare : Type 0 where
  pub wallet_id : Text
  pub reshare_id : Text

pub record AdvanceReshare : Type 0 where
  pub wallet_id : Text
  pub reshare_id : Text
  pub envelopes : List WireEnvelope

pub data AdvancedReshare : Type 0 where
  in_progress : List WireEnvelope → AdvancedReshare
  staged : List ℕ → AdvancedReshare

abbrev pub staged_ttl_seconds : ℕ
staged_ttl_seconds = 1800

abbrev pub recovery_party : PartyId
recovery_party = 1

abbrev pub reshare_session_path : Text
reshare_session_path = 31

abbrev pub reshare_round_path : Text
reshare_round_path = 32

abbrev pub reshare_commit_path : Text
reshare_commit_path = 33

abbrev pub reshare_abort_path : Text
reshare_abort_path = 34

-- The readings of `start`: for the proof, the grant (twice) and the deadline of the session.
pub record ReshareMoments : Type 0 where
  pub proof : Reading
  pub mark : ℕ
  pub grant : ℕ
  pub written : ℕ

unfoldable pub to_public_key : Host → Blob → Action Blob
to_public_key h key = do _ ← check Error.protocol (length (h.bytes key) == 33); answer key

module _ (h : Host) (s : Stamps) (v : Verifier) where
  unfoldable pub reshare_commit : StartReshare → Text → Proof → Reading → ℕ → Action (Unit {0})
  reshare_commit request raw p t now = do
    _ ← admitted (authenticate s v post reshare_commit_path request.wallet_id raw p t)
    _ ← parse_hex32 h request.reshare_id
    committed ← query_writing (commit_reshare s request.reshare_id request.wallet_id now)
    check Error.unknown_session committed

  unfoldable pub reshare_abort : StartReshare → Text → Proof → Reading → Action (Unit {0})
  reshare_abort request raw p t = do
    _ ← admitted (authenticate s v post reshare_abort_path request.wallet_id raw p t)
    _ ← parse_hex32 h request.reshare_id
    write (abort_reshare request.reshare_id request.wallet_id)

module _ (h : Host) (u : Dkls) (codec : Codec (DkgParty u)) (s : Stamps) (v : Verifier) where
  -- What `advance` does with the outcome of the party's round; a round that fails drops the session.
  unfoldable pub settle_reshare :
      AdvanceReshare → Blob → ℕ → Result (Progress u) × DkgParty u → Action AdvancedReshare
  settle_reshare request nonce written (err _, party) = do
    _ ← write (abort_reshare request.reshare_id request.wallet_id)
    fail Error.protocol
  settle_reshare request nonce written (ok (send outgoing), party) = do
    state ← need Error.protocol (codec.encode party)
    sealed ← seal h nonce state
    _ ← write (
        put_reshare_session request.reshare_id request.wallet_id (first_round outgoing) sealed
          session_ttl_seconds written)
    answer (in_progress (map (to_wire h) outgoing))
  settle_reshare request nonce written (ok (finished share public_key), party) = do
    sealed ← seal h nonce share.secret
    _ ← write (stage_reshare request.reshare_id request.wallet_id sealed staged_ttl_seconds written)
    answer (staged (hex (h.bytes public_key)))

  unfoldable pub reshare_advance :
      AdvanceReshare → Text → Proof → Reading → Blob → ℕ → ℕ → Action AdvancedReshare
  reshare_advance request raw p t nonce taken written = do
    _ ← admitted (authenticate s v post reshare_round_path request.wallet_id raw p t)
    found ← query_writing (take_reshare_session s request.reshare_id request.wallet_id taken)
    sealed ← need Error.unknown_session found
    state ← open_sealed h sealed
    party ← need Error.protocol (codec.decode state)
    inbox ← from_wires h request.envelopes
    settle_reshare request nonce written (advance u party inbox)

  module _ ⦃f : Field u.Scalar⦄ (decode : Bytes → Option (SharePoint u.Scalar))
      (grant_digest : Blob → Blob → Text) where
    -- `start` once the grant is used: the share is unsealed, and the session opened.
    unfoldable pub open_reshare :
        StartReshare → Blob → Blob → u.Scalar → Blob → ℕ → Action (List WireEnvelope)
    open_reshare request reshare_id key slope nonce written = do
      held ← query (key_share request.wallet_id)
      sealed ← need Error.unknown_session held
      secret ← open_sealed h sealed
      expected ← to_public_key h key
      (party, envelopes) ← from_core (
          start_reshare u decode server_party reshare_id
            (survivor (record { party = server_party; secret = secret })
              (recovery_party, server_party))
            expected slope)
      state ← need Error.protocol (codec.encode party)
      session ← seal h nonce state
      _ ← write (
          put_reshare_session request.reshare_id request.wallet_id 1 session session_ttl_seconds
            written)
      answer (map (to_wire h) envelopes)

    unfoldable pub reshare_start :
        StartReshare → Text → Proof → ReshareMoments → u.Scalar → Blob → Action (List WireEnvelope)
    reshare_start request raw p m slope nonce = do
      _ ← admitted (authenticate s v post reshare_session_path request.wallet_id raw p m.proof)
      reshare_id ← parse_hex32 h request.reshare_id
      held ← query (public_key request.wallet_id)
      key ← need Error.unknown_session held
      consumed ← query_writing (
          consume_passkey_authorization s request.wallet_id recovery request.reshare_id
            (grant_digest key reshare_id) m.mark m.grant)
      _ ← check Error.authentication consumed
      open_reshare request reshare_id key slope nonce m.written
