-- ===== src/Core/Sign.antt =====
-- `SignParty` and `hex_into` of crates/mpc-core/src/protocol.rs. The signing phases of dkls23, the
-- encodings and `backend::decode` are a parameter. A method that borrows the party mutably returns its
-- result with the party as it leaves it, also where it fails.
pub mod Outcome
pub mod Hex
pub mod Local
pub mod Rounds
pub mod Turns
pub mod Passes
use mpc_ext.Base.{
  ℕ, zero, suc, ◌+◌, ◌-◌, ◌*◌, ◌%◌, List, [], ◌∷◌, ◌++◌, Option, none, some, Bool, true, false,
  ◌&&◌, ◌==◌, leb, if◌then◌else◌, length,
}
use mpc_ext.Core.Types.{
  Bytes, PartyId, Round, Error, Result, ok, err, ◌>>=◌, or_backend, KeyShare, Envelope, is_for,
  traverse,
}
use mpc_ext.Core.Upstream.{Codec}
use mpc_ext.Core.Dkg.{new_envelope, decode_envelope, to_party}

pub record SignData : Type 0 where
  pub sign_id : Bytes
  pub counterparty : ℕ
  pub message_hash : Bytes

-- The texts of x_coord and s are their bytes.
pub record Signing : Type 1 where
  pub Party : Type 0
  pub Keep12 : Type 0
  pub Keep23 : Type 0
  pub Transmit12 : Type 0
  pub Transmit23 : Type 0
  pub Broadcast34 : Type 0
  pub is_index : ℕ → Bool
  pub transmit12 : Codec Transmit12
  pub transmit23 : Codec Transmit23
  pub broadcast34 : Codec Broadcast34
  pub receiver12 : Transmit12 → ℕ
  pub receiver23 : Transmit23 → ℕ
  pub decode_party : Bytes → Option Party
  pub sign_phase1 : Party → SignData → Option (Keep12 × List Transmit12)
  pub sign_phase2 : Party → SignData → Keep12 → List Transmit12 → Option (Keep23 × List Transmit23)
  pub sign_phase3 : Party → SignData → Keep23 → List Transmit23 → Option (List ℕ × Broadcast34)
  pub sign_phase4 : Party → SignData → List ℕ → List Broadcast34 → Option (List ℕ × ℕ)

pub record Signature : Type 0 where
  pub r : List ℕ
  pub s : List ℕ
  pub recovery_id : ℕ

pub data SignProgress : Type 0 where
  send : List Envelope → SignProgress
  signed : Signature → SignProgress

-- A digit of `u8::from_str_radix` in base 16, as an ASCII code.
unfoldable pub hex_digit : ℕ → Option ℕ
hex_digit c =
    if leb 48 c && leb c 57
    then some (c - 48)
    else if leb 97 c && leb c 102
    then some (c - 87)
    else if leb 65 c && leb c 70
    then some (c - 55)
    else none

-- `u8::from_str_radix` of two characters: a plus sign may stand before the digit.
unfoldable pub hex_pair : ℕ → ℕ → Result ℕ
unfolding hex_digit
hex_pair a b =
    if a == 43
    then or_backend (hex_digit b)
    else do high ← or_backend (hex_digit a); low ← or_backend (hex_digit b); ok (16 * high + low)

unfoldable pub hex_pairs : List ℕ → Result (List ℕ)
unfolding hex_pair
hex_pairs [] = ok []
hex_pairs (a ∷ []) = err Error.backend
hex_pairs (a ∷ b ∷ rest) = do x ← hex_pair a b; xs ← hex_pairs rest; ok (x ∷ xs)

unfoldable pub hex_into : List ℕ → Result (List ℕ)
unfolding hex_pairs
hex_into value = if length value == 64 then hex_pairs value else err Error.backend

module _ (u : Signing) where
  open u use {Party, Keep12, Keep23, Transmit12, Transmit23, Broadcast34}

  pub record SignParty : Type 0 where
    pub me : PartyId
    pub counterparty : PartyId
    pub round : ℕ
    pub share : Bytes
    pub sign_data : SignData
    pub keep_1to2 : Option Keep12
    pub keep_2to3 : Option Keep23
    pub x_coord : Option (List ℕ)
    pub broadcasts : List Broadcast34

  -- The last statements of a round that sends.
  unfoldable pub send_round :
      ℕ → SignParty → Result (List Envelope) → Result SignProgress × SignParty
  send_round n p (ok outgoing) = (ok (send outgoing), record p { round = n })
  send_round n p (err x) = (err x, p)

  unfoldable pub after_sign2 :
      SignParty → Option (Keep23 × List Transmit23) → Result SignProgress × SignParty
  unfolding send_round new_envelope
  after_sign2 p none = (err Error.backend, p)
  after_sign2 p (some (kept, transmit)) =
      send_round 2 (record p { keep_2to3 = some kept })
        (traverse (λ m. new_envelope u.transmit23 2 p.me (some (to_party (u.receiver23 m))) m)
          transmit)

  -- `keep_1to2.take()`
  unfoldable pub use_keep12 :
      SignParty → Party → List Transmit12 → Option Keep12 → Result SignProgress × SignParty
  unfolding after_sign2
  use_keep12 p party received none = (err Error.backend, p)
  use_keep12 p party received (some kept) =
      after_sign2 (record p { keep_1to2 = none }) (u.sign_phase2 party p.sign_data kept received)

  unfoldable pub sign_round2 :
      SignParty → Party → Result (List Transmit12) → Result SignProgress × SignParty
  unfolding use_keep12
  sign_round2 p party (err x) = (err x, p)
  sign_round2 p party (ok received) = use_keep12 p party received p.keep_1to2

  -- The round is set before the broadcast is encoded.
  unfoldable pub after_sign3 :
      SignParty → Option (List ℕ × Broadcast34) → Result SignProgress × SignParty
  unfolding new_envelope
  after_sign3 p none = (err Error.backend, p)
  after_sign3 p (some (x_coord, broadcast)) = (
    new_envelope u.broadcast34 3 p.me none broadcast >>= (λ e. ok (send (e ∷ []))),
    record p { x_coord = some x_coord; broadcasts = p.broadcasts ++ broadcast ∷ []; round = 3 },
  )

  unfoldable pub use_keep23 :
      SignParty → Party → List Transmit23 → Option Keep23 → Result SignProgress × SignParty
  unfolding after_sign3
  use_keep23 p party received none = (err Error.backend, p)
  use_keep23 p party received (some kept) =
      after_sign3 (record p { keep_2to3 = none }) (u.sign_phase3 party p.sign_data kept received)

  unfoldable pub sign_round3 :
      SignParty → Party → Result (List Transmit23) → Result SignProgress × SignParty
  unfolding use_keep23
  sign_round3 p party (err x) = (err x, p)
  sign_round3 p party (ok received) = use_keep23 p party received p.keep_2to3

  -- Each broadcast in turn, until one does not decode.
  unfoldable pub take_broadcasts :
      List Envelope → List Broadcast34 → Result (Unit {0}) × List Broadcast34
  unfolding decode_envelope
  take_broadcasts [] broadcasts = (ok tt, broadcasts)
  take_broadcasts (e ∷ inbox) broadcasts = elim (decode_envelope u.broadcast34 e) [
    | ok b ↦ take_broadcasts inbox (broadcasts ++ b ∷ [])
    | err x ↦ (err x, broadcasts)
  ]

  unfoldable pub to_signature : List ℕ → List ℕ × ℕ → Result Signature
  unfolding hex_into
  to_signature x_coord (s_hex, recovery_id) = do
    r ← hex_into x_coord
    s ← hex_into s_hex
    ok (record { r = r; s = s; recovery_id = recovery_id })

  unfoldable pub finish_sign4 : SignParty → Result Signature → Result SignProgress × SignParty
  finish_sign4 p (ok signature) = (ok (signed signature), record p { round = 4 })
  finish_sign4 p (err x) = (err x, p)

  -- `x_coord.take()`
  unfoldable pub use_x_coord : SignParty → Party → Option (List ℕ) → Result SignProgress × SignParty
  unfolding finish_sign4 to_signature
  use_x_coord p party none = (err Error.backend, p)
  use_x_coord p party (some x_coord) =
      finish_sign4 (record p { x_coord = none })
        (or_backend (u.sign_phase4 party p.sign_data x_coord p.broadcasts) >>= to_signature x_coord)

  unfoldable pub sign_round4 :
      SignParty → Party → Result (Unit {0}) → List Broadcast34 → Result SignProgress × SignParty
  unfolding use_x_coord
  sign_round4 p party (err x) broadcasts = (err x, record p { broadcasts = broadcasts })
  sign_round4 p party (ok _) broadcasts =
      use_x_coord (record p { broadcasts = broadcasts }) party p.x_coord

  -- The checks of `advance`; the sender must be the counterparty.
  unfoldable pub check_sign_inbox : ℕ → PartyId → PartyId → List Envelope → Result (Unit {0})
  check_sign_inbox round counterparty me [] = ok tt
  check_sign_inbox round counterparty me (e ∷ inbox) =
      if e.round == round
      then if (e.from == counterparty) && is_for me e.to
        then check_sign_inbox round counterparty me inbox
        else err Error.backend
      else err (Error.unexpected_round (Round.round round) (Round.round e.round))

  unfoldable pub enter_sign :
      ℕ → SignParty → Party → List Envelope → Result SignProgress × SignParty
  unfolding sign_round2 sign_round3 sign_round4 take_broadcasts decode_envelope
  enter_sign (suc zero) p party inbox =
      sign_round2 p party (traverse (decode_envelope u.transmit12) inbox)
  enter_sign (suc (suc zero)) p party inbox =
      sign_round3 p party (traverse (decode_envelope u.transmit23) inbox)
  enter_sign (suc (suc (suc zero))) p party inbox =
      let (taken, broadcasts) = take_broadcasts inbox p.broadcasts in
      sign_round4 p party taken broadcasts
  enter_sign _ p party inbox = (err Error.backend, p)

  -- What `advance` does with the checks' result and the decoded share.
  unfoldable pub sign_checked :
      SignParty → List Envelope → Result (Unit {0}) → Option Party → Result SignProgress × SignParty
  unfolding enter_sign
  sign_checked p inbox (err x) _ = (err x, p)
  sign_checked p inbox (ok _) none = (err Error.backend, p)
  sign_checked p inbox (ok _) (some party) = enter_sign p.round p party inbox

  unfoldable pub sign_advance : SignParty → List Envelope → Result SignProgress × SignParty
  unfolding sign_checked check_sign_inbox
  sign_advance p inbox =
      sign_checked p inbox (check_sign_inbox p.round p.counterparty p.me inbox)
        (u.decode_party p.share)

  unfoldable pub counterparty_index : PartyId → Result ℕ
  counterparty_index party =
      let n = (party + 1) % 256 in if u.is_index n then ok n else err Error.backend

  -- The first phase, for two different parties.
  unfoldable pub begin_sign :
      KeyShare → PartyId → Bytes → Bytes → Result (SignData × Keep12 × List Transmit12)
  unfolding counterparty_index
  begin_sign share counterparty sign_id digest = do
    party ← or_backend (u.decode_party share.secret)
    index ← counterparty_index counterparty
    phase ← or_backend (
        u.sign_phase1 party
          (record { sign_id = sign_id; counterparty = index; message_hash = digest }))
    ok (record { sign_id = sign_id; counterparty = index; message_hash = digest }, phase.0, phase.1)

  unfoldable pub start_sign :
      KeyShare → PartyId → SignData × Keep12 × List Transmit12 → Result (SignParty × List Envelope)
  unfolding new_envelope
  start_sign share counterparty (begun, kept, transmit) = do
    outgoing ←
        traverse (λ m. new_envelope u.transmit12 1 share.party (some (to_party (u.receiver12 m))) m)
          transmit
    ok (
      record {
        me = share.party;
        counterparty = counterparty;
        round = 1;
        share = share.secret;
        sign_data = begun;
        keep_1to2 = some kept;
        keep_2to3 = none;
        x_coord = none;
        broadcasts = [];
      },
      outgoing,
    )

  unfoldable pub sign_start :
      KeyShare → PartyId → Bytes → Bytes → Result (SignParty × List Envelope)
  unfolding begin_sign start_sign
  sign_start share counterparty sign_id digest =
      if share.party == counterparty
      then err Error.backend
      else (begin_sign share counterparty sign_id digest >>= start_sign share counterparty)
