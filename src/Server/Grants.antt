-- ===== src/Server/Grants.antt =====
-- The one-use passkey records of crates/mpc-server/src/store.rs: challenges and authorizations. A
-- method that reads the clock takes the instant; a new id is an argument.
pub mod Authorizations
pub mod Challenges
use mathlib.Core.Option
use mpc_ext.Base.{
  ℕ, ◌+◌, ◌*◌, List, [], ◌∷◌, Option, none, some, Bool, true, false, not, ◌&&◌, ◌||◌, ◌==◌,
  if◌then◌else◌, is_some, find_where, update_where, count_where,
}
use mpc_ext.Server.Types.{Text, Blob, AuthorizationRow, ChallengeRow, Db, sign, recovery}
use mpc_ext.Server.Clock.{Stamps, nanos}

-- WHERE wallet_id = ? AND purpose = ? AND operation_id = ? AND digest = ?
abbrev pub authorizes : Text → Text → Text → Text → AuthorizationRow → Bool
authorizes w p op d r =
    (r.wallet_id == w) && (r.purpose == p) && (r.operation_id == op) && (r.digest == d)

-- CHECK (purpose IN ('sign', 'recovery'))
abbrev pub is_purpose : Text → Bool
is_purpose p = (p == sign) || (p == recovery)

-- The result is whether the row was inserted: the table checks the purpose and takes one row for
-- each operation, used or not. The row's own random id is left out.
unfoldable pub put_passkey_authorization : Text → Text → Text → Text → ℕ → ℕ → Db → Bool × Db
put_passkey_authorization w p op d ttl_seconds now db =
    if not (is_purpose p) || is_some (find_where (authorizes w p op d) db.passkey_authorizations)
    then (false, db)
    else (
      true,
      record db {
        passkey_authorizations =
            record {
              wallet_id = w;
              purpose = p;
              operation_id = op;
              digest = d;
              expires_at = now + ttl_seconds * nanos;
              consumed_at = none;
            }
            ∷ db.passkey_authorizations;
      },
    )

-- WHERE challenge_id = ? AND wallet_id = ? AND purpose = ?
abbrev pub challenges : Text → Text → Text → ChallengeRow → Bool
challenges c w p r = (r.challenge_id == c) && (r.wallet_id == w) && (r.purpose == p)

-- The result is whether the row was inserted: the challenge id is the primary key.
unfoldable pub put_passkey_challenge_with_binding :
    Text → Text → Text → Blob → Blob → ℕ → ℕ → Db → Bool × Db
put_passkey_challenge_with_binding c w p challenge binding ttl_seconds now db =
    if is_some (find_where (λ r. r.challenge_id == c) db.passkey_challenges) then (false, db) else (
      true,
      record db {
        passkey_challenges =
            record {
              challenge_id = c;
              wallet_id = w;
              purpose = p;
              challenge = challenge;
              binding = binding;
              expires_at = now + ttl_seconds * nanos;
              used_at = none;
            }
            ∷ db.passkey_challenges;
      },
    )

module _ (s : Stamps) where
  -- … AND consumed_at IS NULL AND expires_at >= ?
  abbrev pub is_usable : Text → Text → Text → Text → ℕ → AuthorizationRow → Bool
  is_usable w p op d now r =
      authorizes w p op d r && not (is_some r.consumed_at) && not (s.before r.expires_at now)

  -- The clock is read twice, for the mark and for the test.
  unfoldable pub consume_passkey_authorization : Text → Text → Text → Text → ℕ → ℕ → Db → Bool × Db
  consume_passkey_authorization w p op d mark now db = (
    count_where (is_usable w p op d now) db.passkey_authorizations == 1,
    record db {
      passkey_authorizations =
          update_where (is_usable w p op d now) (λ r. record r { consumed_at = some mark })
            db.passkey_authorizations;
    },
  )

  -- … AND used_at IS NULL AND expires_at >= ?
  abbrev pub is_answerable : Text → Text → Text → ℕ → ChallengeRow → Bool
  is_answerable c w p now r =
      challenges c w p r && not (is_some r.used_at) && not (s.before r.expires_at now)

  -- UPDATE … RETURNING challenge, binding.
  unfoldable pub take_passkey_challenge_with_binding :
      Text → Text → Text → ℕ → Db → Option (Blob × Blob) × Db
  take_passkey_challenge_with_binding c w p now db = (
    Option.map (λ r. (r.challenge, r.binding))
        (find_where (is_answerable c w p now) db.passkey_challenges),
    record db {
      passkey_challenges =
          update_where (is_answerable c w p now) (λ r. record r { used_at = some now })
            db.passkey_challenges;
    },
  )
