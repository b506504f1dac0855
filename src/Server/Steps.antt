-- ===== src/Server/Steps.antt =====
-- What the handlers of crates/mpc-server/src/api.rs and reshare.rs are made of: a step reads and writes
-- the database and may fail; the envelopes on the wire and the hex texts of api.rs; the sealing of
-- crypto.rs. The base64 and aes-gcm crates and the bytes of a text are a parameter.
pub mod Keeps
pub mod Chains
use mpc_ext.Base.{
  ℕ, List, [], ◌∷◌, Option, none, some, Bool, true, false, ◌==◌, ◌%◌, if◌then◌else◌, length,
}
use mpc_ext.Core.Types.{PartyId, Result, ok, err, Envelope}
use mpc_ext.Core.Sign.{hex_pairs}
use mpc_ext.Server.Types.{Text, Blob, Error, Sealed, Db}
use mpc_ext.Server.Auth.{Access, granted, denied}
use mpc_ext.Server.Handlers.{Reply, reply, failed}

abbrev pub Action : Type 0 → Type 0
Action A = Db → Reply A × Db

-- The next step, unless this one has failed.
abbrev pub follow : {A B : Type 0} → Reply A × Db → (A → Action B) → Reply B × Db
follow (reply a, db) f = f a db
follow (failed e, db) f = (failed e, db)

infixl 5 ◌>>=◌
abbrev pub ◌>>=◌ : {A B : Type 0} → Action A → (A → Action B) → Action B
(m >>= f) db = follow (m db) f

abbrev pub answer : {A : Type 0} → A → Action A
answer a db = (reply a, db)

abbrev pub fail : {A : Type 0} → Error → Action A
fail e db = (failed e, db)

-- A query, and one that also writes.
abbrev pub query : {A : Type 0} → (Db → A) → Action A
query f db = (reply (f db), db)

abbrev pub query_writing : {A : Type 0} → (Db → A × Db) → Action A
query_writing f db = let (a, after) = f db in (reply a, after)

abbrev pub write : (Db → Db) → Action (Unit {0})
write f db = (reply tt, f db)

abbrev pub need : {A : Type 0} → Error → Option A → Action A
need e none = fail e
need e (some a) = answer a

abbrev pub check : Error → Bool → Action (Unit {0})
check e true = answer tt
check e false = fail e

-- An error of mpc-core is a protocol error.
abbrev pub from_core : {A : Type 0} → Result A → Action A
from_core (ok a) = answer a
from_core (err _) = fail Error.protocol

abbrev pub to_reply : Access × Db → Reply (Unit {0}) × Db
to_reply (granted, db) = (reply tt, db)
to_reply (denied e, db) = (failed e, db)

abbrev pub admitted : (Db → Access × Db) → Action (Unit {0})
admitted f db = to_reply (f db)

pub record Host : Type 0 where
  pub chars : Text → List ℕ
  pub bytes : Blob → List ℕ
  pub blob : List ℕ → Blob
  pub encode_base64 : Blob → Text
  pub decode_base64 : Text → Option Blob
  -- AES-256-GCM under the server's key: the nonce first.
  pub encrypt : Blob → Blob → Option Blob
  pub decrypt : Blob → Blob → Option Blob

pub record WireEnvelope : Type 0 where
  pub round : ℕ
  pub from : PartyId
  pub to : Option PartyId
  pub payload : Text

module _ (h : Host) where
  unfoldable pub to_wire : Envelope → WireEnvelope
  to_wire e = record {
    round = e.round;
    from = e.from;
    to = e.to;
    payload = h.encode_base64 e.payload;
  }

  unfoldable pub from_wire : WireEnvelope → Action Envelope
  from_wire w = do
    payload ← need Error.protocol (h.decode_base64 w.payload)
    answer (record { round = w.round; from = w.from; to = w.to; payload = payload })

  unfoldable pub from_wires : List WireEnvelope → Action (List Envelope)
  unfolding from_wire
  from_wires [] = answer []
  from_wires (w ∷ ws) = do e ← from_wire w; es ← from_wires ws; answer (e ∷ es)

  unfoldable pub parse_hex32 : Text → Action Blob
  parse_hex32 value = do
    _ ← check Error.protocol (length (h.chars value) == 64)
    out ← from_core (hex_pairs (h.chars value))
    answer (h.blob out)

  unfoldable pub decode_hex : Text → Option (List ℕ)
  unfolding hex_pairs
  decode_hex value =
      if length (h.chars value) % 2 == 0
      then elim (hex_pairs (h.chars value)) [ ok out ↦ some out | err _ ↦ none ]
      else none

  -- The nonce is the one that the call draws.
  unfoldable pub seal : Blob → Blob → Action Sealed
  seal nonce plaintext = do
    ciphertext ← need Error.crypto (h.encrypt nonce plaintext)
    answer (record { ciphertext = ciphertext; nonce = nonce })

  unfoldable pub open_sealed : Sealed → Action Blob
  open_sealed sealed = do
    _ ← check Error.crypto (length (h.bytes sealed.nonce) == 12)
    need Error.crypto (h.decrypt sealed.nonce sealed.ciphertext)

-- `outgoing.first().map_or(0, …)`
abbrev pub first_round : List Envelope → ℕ
first_round [] = 0
first_round (e ∷ _) = e.round

abbrev pub server_party : PartyId
server_party = 2

abbrev pub session_ttl_seconds : ℕ
session_ttl_seconds = 600
