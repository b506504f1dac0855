-- ===== src/Server/Keygen.antt =====
-- The handlers of crates/mpc-server/src/api.rs for the key generation and for a wallet's first device
-- key. A handler takes the readings of the clock and the nonce for sealing that it draws; bincode for a
-- party is a parameter.
pub mod Mirrors
use mpc_ext.Base.{
  ℕ, ◌≡◌, List, [], ◌∷◌, Option, none, some, Bool, true, false, not, ◌==◌, ◌&&◌, ◌||◌, ltb,
  if◌then◌else◌, length, map,
}
use mpc_ext.Core.Types.{Bytes, PartyId, Result, ok, err, Envelope, KeyShare}
use mpc_ext.Core.Sign.Hex.{hex}
use mpc_ext.Core.Upstream.{Dkls, Codec}
use mpc_ext.Core.Dkg.{DkgParty, Progress, send, finished, start}
use mpc_ext.Core.Dkg.Rounds.{advance}
use mpc_ext.Server.Types.{Text, Blob, Error, Sealed, Db}
use mpc_ext.Server.Clock.{Stamps}
use mpc_ext.Server.Recovery.{register_device_key}
use mpc_ext.Server.Sessions.{put_session, take_session, finish_dkg}
use mpc_ext.Server.Steps.{
  Action, ◌>>=◌, answer, fail, query_writing, write, need, check, from_core, Host, WireEnvelope,
  to_wire, from_wires, parse_hex32, decode_hex, seal, open_sealed, first_round, server_party,
  session_ttl_seconds,
}

pub record StartDkg : Type 0 where
  pub wallet_id : Text
  pub session_id : Text

pub record AdvanceDkg : Type 0 where
  pub wallet_id : Text
  pub session_id : Text
  pub envelopes : List WireEnvelope

pub data AdvancedDkg : Type 0 where
  in_progress : List WireEnvelope → AdvancedDkg
  completed : List ℕ → AdvancedDkg

-- 65 bytes, the first of them 0x04.
abbrev pub is_uncompressed : List ℕ → Bool
is_uncompressed [] = false
is_uncompressed (b ∷ bs) = (length (b ∷ bs) == 65) && (b == 4)

unfoldable pub post_device_key : Host → Text → Text → Action (Unit {0})
post_device_key h wallet_id public_key = do
  _ ←
      check Error.protocol
        (not ((length (h.chars wallet_id) == 0) || ltb 128 (length (h.chars wallet_id))))
  key ← need Error.protocol (decode_hex h public_key)
  _ ← check Error.protocol (is_uncompressed key)
  registered ← query_writing (register_device_key wallet_id (h.blob key))
  check Error.protocol registered

module _ (h : Host) (u : Dkls) (codec : Codec (DkgParty u)) where
  unfoldable pub start_dkg : StartDkg → Blob → ℕ → Action (List WireEnvelope)
  start_dkg request nonce written = do
    session_id ← parse_hex32 h request.session_id
    (party, envelopes) ← from_core (start u server_party session_id)
    state ← need Error.protocol (codec.encode party)
    sealed ← seal h nonce state
    _ ←
        write
          (put_session request.session_id request.wallet_id 1 sealed session_ttl_seconds written)
    answer (map (to_wire h) envelopes)

  -- What the handler does with the outcome of the party's round.
  unfoldable pub settle_dkg :
      AdvanceDkg → Blob → ℕ → Result (Progress u) × DkgParty u → Action AdvancedDkg
  settle_dkg request nonce written (err _, party) = fail Error.protocol
  settle_dkg request nonce written (ok (send outgoing), party) = do
    state ← need Error.protocol (codec.encode party)
    sealed ← seal h nonce state
    _ ← write (
        put_session request.session_id request.wallet_id (first_round outgoing) sealed
          session_ttl_seconds written)
    answer (in_progress (map (to_wire h) outgoing))
  settle_dkg request nonce written (ok (finished share public_key), party) = do
    sealed ← seal h nonce share.secret
    committed ← query_writing (finish_dkg request.session_id request.wallet_id sealed public_key)
    _ ← check Error.storage committed
    answer (completed (hex (h.bytes public_key)))

  unfoldable pub advance_dkg : Stamps → AdvanceDkg → Blob → ℕ → ℕ → Action AdvancedDkg
  advance_dkg s request nonce taken written = do
    found ← query_writing (take_session s request.session_id taken)
    (_, sealed) ← need Error.unknown_session found
    state ← open_sealed h sealed
    party ← need Error.protocol (codec.decode state)
    inbox ← from_wires h request.envelopes
    settle_dkg request nonce written (advance u party inbox)
