-- ===== src/Server/Passkeys/Checks.antt =====
-- The checks of a request's texts in crates/mpc-server/src/passkey.rs.
use mpc_ext.Base.{
  ℕ, List, [], ◌∷◌, Option, Bool, true, not, ◌&&◌, ◌||◌, ◌==◌, ltb, leb, if◌then◌else◌, is_some,
  length,
}
use mpc_ext.Server.Types.{Text, Error, sign, recovery, register}
use mpc_ext.Server.Steps.{Action, ◌>>=◌, fail, need, check, Host}
use mpc_ext.Server.Passkeys.{AssertOptionsRequest, AssertFinishRequest}

abbrev pub max_operation_id_len : ℕ
max_operation_id_len = 256

abbrev pub max_purpose_len : ℕ
max_purpose_len = 32

unfoldable pub all_chars : (ℕ → Bool) → List ℕ → Bool
all_chars p [] = true
all_chars p (c ∷ cs) = p c && all_chars p cs

-- `is_ascii_hexdigit`
abbrev pub is_hexdigit : ℕ → Bool
is_hexdigit c = (leb 48 c && leb c 57) || (leb 97 c && leb c 102) || (leb 65 c && leb c 70)

pub record HandoffRequest : Type 0 where
  pub wallet_id : Text
  pub purpose : Text
  pub operation_id : Option Text
  pub digest : Option Text

module _ (h : Host) where
  abbrev pub len : Text → ℕ
  len t = length (h.chars t)

  -- Not empty, and of at most `n` bytes.
  abbrev pub is_between : ℕ → Text → Bool
  is_between n t = not ((len t == 0) || ltb n (len t))

  unfoldable pub validate_wallet_id : Text → Action (Unit {0})
  validate_wallet_id w = check Error.protocol (is_between 128 w)

  unfoldable pub validate_challenge_id : Text → Action (Unit {0})
  validate_challenge_id c = check Error.protocol (is_between 64 c)

  unfoldable pub validate_purpose : Text → Action (Unit {0})
  validate_purpose p =
      check Error.protocol
        (not (ltb max_purpose_len (len p) || not ((p == sign) || (p == recovery))))

  unfoldable pub validate_operation_id : Text → Action (Unit {0})
  validate_operation_id id =
      check Error.protocol
        (is_between max_operation_id_len id && all_chars (λ c. ltb c 128) (h.chars id))

  unfoldable pub validate_digest : Text → Action (Unit {0})
  validate_digest d = check Error.protocol ((len d == 64) && all_chars is_hexdigit (h.chars d))

  unfoldable pub validate_assertion_binding : AssertOptionsRequest → Action (Unit {0})
  validate_assertion_binding r = do
    _ ← validate_wallet_id r.wallet_id
    _ ← validate_purpose r.purpose
    _ ← validate_operation_id r.operation_id
    validate_digest r.digest

  unfoldable pub validate_assertion_finish : AssertFinishRequest → Action (Unit {0})
  validate_assertion_finish r = do
    _ ← validate_wallet_id r.wallet_id
    _ ← validate_challenge_id r.challenge_id
    _ ← validate_purpose r.purpose
    _ ← validate_operation_id r.operation_id
    validate_digest r.digest

  unfoldable pub validate_operation : Option Text → Option Text → Action (Unit {0})
  validate_operation operation_id digest = do
    id ← need Error.protocol operation_id
    d ← need Error.protocol digest
    _ ← validate_operation_id id
    validate_digest d

  -- A registration names no operation; the other two purposes name one, and its digest.
  unfoldable pub validate_named : HandoffRequest → Action (Unit {0})
  validate_named r =
      if r.purpose == register
      then check Error.protocol (not (is_some r.operation_id || is_some r.digest))
      else if (r.purpose == sign) || (r.purpose == recovery)
      then validate_operation r.operation_id r.digest
      else fail Error.protocol

  unfoldable pub validate_handoff_request : HandoffRequest → Action (Unit {0})
  validate_handoff_request r = do _ ← validate_wallet_id r.wallet_id; validate_named r
