-- ===== src/Server/Credentials.antt =====
-- The passkey credentials and the management sessions of crates/mpc-server/src/store.rs. Reading the
-- user handle out of a credential is a parameter. A method that reads the clock takes the instant.
use mathlib.Core.Option
use mpc_ext.Base.{
  ℕ, ◌+◌, ◌^◌, ◌∷◌, Option, none, some, Bool, true, false, not, ◌&&◌, ◌||◌, ◌==◌, ltb, leb,
  if◌then◌else◌, is_some, find_where, update_where, delete_where, count_where,
}
use mpc_ext.Server.Types.{Text, Blob, Error, CredentialRow, Db, manage_wallet}
use mpc_ext.Server.Clock.{Stamps}
use mpc_ext.Server.Handlers.{Reply, reply, failed}

abbrev pub has_handle : Option Blob → CredentialRow → Bool
has_handle none r = false
has_handle (some handle) r = elim (r.user_handle) [ none ↦ false | some other ↦ other == handle ]

-- The result is whether the row was inserted: a wallet has one credential, and a user handle names one
-- wallet.
unfoldable pub put_passkey_credential : (Blob → Option Blob) → Text → Blob → ℕ → Db → Bool × Db
put_passkey_credential user_handle_of w credential sign_count db =
    let handle = user_handle_of credential in
    if is_some (find_where (λ r. (r.wallet_id == w) || has_handle handle r) db.passkey_credentials)
    then (false, db)
    else (
      true,
      record db {
        passkey_credentials =
            record {
              wallet_id = w;
              credential = credential;
              sign_count = sign_count;
              user_handle = handle;
            }
            ∷ db.passkey_credentials;
      },
    )

unfoldable pub wallet_for_user_handle : Blob → Db → Option Text
wallet_for_user_handle handle db =
    Option.map (λ r. r.wallet_id) (find_where (has_handle (some handle)) db.passkey_credentials)

unfoldable pub update_passkey_credential : Text → Blob → ℕ → Db → Db
update_passkey_credential w credential sign_count db = record db {
  passkey_credentials =
      update_where (λ r. r.wallet_id == w)
        (λ r. record r { credential = credential; sign_count = sign_count }) db.passkey_credentials;
}

-- A counter that is no u32 is a storage error.
unfoldable pub read_credential : Option CredentialRow → Reply (Option (Blob × ℕ))
read_credential none = reply none
read_credential (some r) =
    if ltb r.sign_count (2 ^ 32)
    then reply (some (r.credential, r.sign_count))
    else failed Error.storage

unfoldable pub passkey_credential : Text → Db → Reply (Option (Blob × ℕ)) × Db
unfolding read_credential
passkey_credential w db =
    (read_credential (find_where (λ r. r.wallet_id == w) db.passkey_credentials), db)

-- The expired are deleted first; the hash is the primary key.
unfoldable pub open_manage_session : Blob → Text → ℕ → ℕ → Db → Bool × Db
open_manage_session hash w ttl_seconds now db =
    let kept = delete_where (λ r. ltb r.expires_unix now) db.manage_sessions in
    if is_some (find_where (λ r. r.session_hash == hash) kept)
    then (false, record db { manage_sessions = kept })
    else (
      true,
      record db {
        manage_sessions =
            record { session_hash = hash; wallet_id = w; expires_unix = now + ttl_seconds } ∷ kept;
      },
    )

unfoldable pub manage_session_wallet : Blob → ℕ → Db → Option Text
manage_session_wallet hash now db =
    Option.map (λ r. r.wallet_id)
      (find_where (λ r. (r.session_hash == hash) && leb now r.expires_unix) db.manage_sessions)

module _ (s : Stamps) where
  unfoldable pub live_manage_challenges : ℕ → Db → ℕ
  live_manage_challenges now db =
      count_where
        (λ r.
          (r.wallet_id == manage_wallet)
          && not (is_some r.used_at)
          && not (s.before r.expires_at now))
        db.passkey_challenges
