-- ===== src/Server/Auth.antt =====
-- crates/mpc-server/src/auth.rs, with `reserve_device_nonce` of crates/mpc-server/src/store.rs.
pub mod Skew
pub mod Nonces
pub mod Proven
pub mod Replay
use mpc_ext.Base.{
  ℕ, ◌+◌, ◌*◌, ◌/◌, ◌-◌, ◌%◌, ◌^◌, List, [], ◌∷◌, Option, none, some, Bool, true, false, not, ◌&&◌,
  ◌||◌, ltb, leb, ◌==◌, if◌then◌else◌, is_some, find_where, delete_where,
}
use mpc_ext.Server.Types.{Text, Blob, Error, NonceRow, Db}
use mpc_ext.Server.Clock.{Stamps, nanos}
use mpc_ext.Server.Recovery.{device_key}

abbrev pub max_clock_skew_ms : ℕ
max_clock_skew_ms = 300000

abbrev pub nonce_ttl_seconds : ℕ
nonce_ttl_seconds = 600

-- An i64 as its bit pattern. A release build wraps.
abbrev pub i64_mod : ℕ
i64_mod = 2 ^ 64

abbrev pub sign_bit : ℕ
sign_bit = 2 ^ 63

unfoldable pub sub_i64 : ℕ → ℕ → ℕ
sub_i64 a b = (a + i64_mod - b) % i64_mod

unfoldable pub abs_i64 : ℕ → ℕ
abs_i64 a = if ltb a sign_bit then a else (i64_mod - a) % i64_mod

-- a > b for a number b that is not negative.
unfoldable pub gt_i64 : ℕ → ℕ → Bool
gt_i64 a b = ltb a sign_bit && ltb b a

-- (now - timestamp).abs() > MAX_CLOCK_SKEW_MS
unfoldable pub is_skewed : ℕ → ℕ → Bool
unfolding gt_i64 abs_i64 sub_i64
is_skewed now timestamp = gt_i64 (abs_i64 (sub_i64 now timestamp)) max_clock_skew_ms

-- The headers of a device proof, as far as they are there and can be read: a timestamp that parses as
-- an i64, a nonce and a signature in base64.
pub record Proof : Type 0 where
  pub timestamp : Option ℕ
  pub nonce : Option Text
  pub signature : Option Text

-- The p256 and base64 crates, `str::len` and `format!`.
pub record Verifier : Type 0 where
  pub len : Text → ℕ
  pub is_key : Blob → Bool
  pub decode_base64 : Text → Option Blob
  pub is_signature : Blob → Bool
  -- The text method, path, timestamp, nonce and body joined by line ends.
  pub message : Text → Text → ℕ → Text → Text → Text
  pub verify : Blob → Text → Blob → Bool

-- What is read of the system clock: in milliseconds for the check, and twice in nanoseconds for the
-- reservation.
pub record Reading : Type 0 where
  pub check_ms : ℕ
  pub now : ℕ
  pub later : ℕ

pub data Access : Type 0 where
  granted : Access
  denied : Error → Access

module _ (s : Stamps) where
  abbrev pub holds_nonce : Text → Text → NonceRow → Bool
  holds_nonce w n r = (r.wallet_id == w) && (r.nonce == n)

  -- DELETE the expired, then INSERT OR IGNORE; the result is whether a row was inserted.
  unfoldable pub reserve_device_nonce : Text → Text → ℕ → ℕ → ℕ → Db → Bool × Db
  reserve_device_nonce w n ttl_seconds now later db =
      let kept = delete_where (λ r. s.before r.expires_at now) db.used_device_nonces in
      if is_some (find_where (holds_nonce w n) kept)
      then (false, record db { used_device_nonces = kept })
      else (
        true,
        record db {
          used_device_nonces =
              record { wallet_id = w; nonce = n; expires_at = later + ttl_seconds * nanos } ∷ kept;
        },
      )

module _ (s : Stamps) (v : Verifier) where
  -- The signature check, once the headers are read and the clock is close.
  unfoldable pub is_signed : Text → Text → Text → Blob → ℕ → Text → Text → Bool
  is_signed method path raw key timestamp nonce signature =
      v.is_key key && (elim (v.decode_base64 signature) [
        | none ↦ false
        | some bytes ↦
            v.is_signature bytes && v.verify key (v.message method path timestamp nonce raw) bytes
      ])

  unfoldable pub authenticate_headers :
      Text → Text → Text → Text → Blob → Reading → ℕ → Text → Text → Db → Access × Db
  unfolding is_skewed is_signed reserve_device_nonce
  authenticate_headers method path w raw key t timestamp nonce signature db =
      if is_skewed t.check_ms timestamp || (v.len nonce == 0) || ltb 128 (v.len nonce)
      then (denied Error.authentication, db)
      else if is_signed method path raw key timestamp nonce signature
      then (let (fresh, db') = reserve_device_nonce s w nonce nonce_ttl_seconds t.now t.later db in
          (if fresh then granted else denied Error.authentication, db'))
      else (denied Error.authentication, db)

  unfoldable pub read_headers :
      Text
      → Text
      → Text
      → Text
      → Blob
      → Reading
      → Option ℕ
      → Option Text
      → Option Text
      → Db
      → Access × Db
  unfolding authenticate_headers
  read_headers method path w raw key t (some timestamp) (some nonce) (some signature) db =
      authenticate_headers method path w raw key t timestamp nonce signature db
  read_headers method path w raw key t _ _ _ db = (denied Error.authentication, db)

  unfoldable pub authenticate_with_key :
      Text → Text → Text → Text → Blob → Proof → Reading → Db → Access × Db
  unfolding read_headers
  authenticate_with_key method path w raw key p t db =
      read_headers method path w raw key t p.timestamp p.nonce p.signature db

  unfoldable pub authenticate : Text → Text → Text → Text → Proof → Reading → Db → Access × Db
  unfolding authenticate_with_key
  authenticate method path w raw p t db = elim (device_key w db) [
    | none ↦ (denied Error.authentication, db)
    | some key ↦ authenticate_with_key method path w raw key p t db
  ]
