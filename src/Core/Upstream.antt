-- ===== src/Core/Upstream.antt =====
-- The dkls23_secp256k1, k256 and bincode crates, as far as crates/mpc-core/src/protocol.rs calls
-- them: their types, the phases of the protocols and the encodings are parameters. A phase draws its
-- randomness inside; a run of the program sees one outcome, and so does the model.
use mpc_ext.Base.{ℕ, List, Option, Bool}
use mpc_ext.Core.Types.{Bytes}

-- bincode for one type.
pub record Codec (A : Type 0) : Type 0 where
  pub encode : A → Option Bytes
  pub decode : Bytes → Option A

-- `SessionData`, with the parameters 2 of 3 left out.
pub record SessionData : Type 0 where
  pub party_index : ℕ
  pub session_id : Bytes

pub record Dkls : Type 1 where
  pub Scalar : Type 0
  pub Proof : Type 0
  pub Zero24 : Type 0
  pub Zero34 : Type 0
  pub Mul34 : Type 0
  pub Bip24 : Type 0
  pub Bip34 : Type 0
  pub KeepZero23 : Type 0
  pub KeepBip23 : Type 0
  pub KeepZero34 : Type 0
  pub KeepMul34 : Type 0
  pub Party : Type 0
  -- `PartyIndex::new` accepts the number.
  pub is_index : ℕ → Bool
  pub scalar : Codec Scalar
  pub round2_broadcast : Codec (Proof × Bip24)
  pub zero24 : Codec Zero24
  pub round3_broadcast : Codec Bip34
  pub round3_private : Codec (Zero34 × Mul34)
  -- The receiver's index, `message.parties.receiver`.
  pub receiver24 : Zero24 → ℕ
  pub receiver34 : Zero34 → ℕ
  pub receiver_mul : Mul34 → ℕ
  pub phase1 : SessionData → List Scalar
  pub phase2 :
      SessionData → List Scalar → Scalar × Proof × KeepZero23 × List Zero24 × KeepBip23 × Bip24
  pub phase3 :
      SessionData
      → KeepZero23
      → KeepBip23
      → KeepZero34 × List Zero34 × KeepMul34 × List Mul34 × Bip34
  -- The arguments in the order of the call; the map keys are the parties' indices.
  pub phase4 :
      SessionData
      → Scalar
      → List Proof
      → KeepZero34
      → List Zero24
      → List Zero34
      → KeepMul34
      → List Mul34
      → List (ℕ × Bip24)
      → List (ℕ × Bip34)
      → Option Party
  -- The maps that a party keeps before a phase has run.
  pub no_zero23 : KeepZero23
  pub no_zero34 : KeepZero34
  pub no_mul34 : KeepMul34
  -- `backend::public_key_of` and `backend::encode`.
  pub public_key_of : Party → Option Bytes
  pub encode_party : Party → Option Bytes
