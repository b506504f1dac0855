-- ===== src/Server/Auth/Replay.antt =====
-- What a granted device proof of crates/mpc-server/src/auth.rs has shown, and when a second use of it is
-- refused.
use mpc_ext.Base.{
  ℕ, ◌+◌, ◌*◌, ◌/◌, ◌<◌, ◌≡◌, refl, ◌↔◌, List, Option, some, true, false, arith, All,
}
use mpc_ext.Server.Types.{Text, Blob, Db}
use mpc_ext.Server.Clock.{Stamps, nanos, horizon}
use mpc_ext.Server.Auth.{
  Proof, Verifier, Reading, granted, is_skewed, authenticate_headers, read_headers,
  authenticate_with_key, nonce_ttl_seconds,
}
use mpc_ext.Server.Auth.Proven.{reservation, IsChecked, IsProven, checked_proven, proven_checked}
use mpc_ext.Server.Auth.Nonces.{Reservation, reserve, reserve_all, reserved_once, reserved_again}

module _ (s : Stamps) (v : Verifier) where
  headers_granted :
      (method path w raw : Text) (key : Blob) (p : Proof) (t : Reading) (db : Db) (ts : Option ℕ)
      (n g : Option Text)
      → p.timestamp ≡ ts
      → p.nonce ≡ n
      → p.signature ≡ g
      → (read_headers s v method path w raw key t ts n g db).0 ≡ granted
      → IsChecked s v method path w raw key p t db
  unfolding read_headers authenticate_headers reserve
  headers_granted method path w raw key p t db (some ts) (some n) (some g) e₁ e₂ e₃ h = record {
    timestamp = ts;
    nonce = n;
    signature = g;
    has_timestamp = e₁;
    has_nonce = e₂;
    has_signature = e₃;
    near = ground arith;
    not_empty = ground arith;
    not_long = ground arith;
    signed = ground arith;
    fresh = ground arith;
  }
  headers_granted method path w raw key p t db _ _ _ e₁ e₂ e₃ h = absurd (ground arith)

  checked_granted :
      (method path w raw : Text) (key : Blob) (p : Proof) (t : Reading) (db : Db)
      → IsChecked s v method path w raw key p t db
      → (authenticate_with_key s v method path w raw key p t db).0 ≡ granted
  unfolding authenticate_with_key reserve
  checked_granted method path w raw key p t db h =
      rw (h.has_timestamp, h.has_nonce, h.has_signature)
        (ground (arith, h.near, h.not_empty, h.not_long, h.signed, h.fresh))

  checked_of :
      (method path w raw : Text) (key : Blob) (p : Proof) (t : Reading) (db : Db)
      → (authenticate_with_key s v method path w raw key p t db).0 ≡ granted
      → IsChecked s v method path w raw key p t db
  unfolding authenticate_with_key
  checked_of method path w raw key p t db =
      headers_granted method path w raw key p t db p.timestamp p.nonce p.signature refl refl refl

  -- A device proof is granted exactly when its headers are all there, the wrapped difference of the
  -- clock and its timestamp is within the allowed skew or the least i64, its nonce has 1 to 128 bytes,
  -- the key and the signature are well formed, the signature verifies under the key over the text of
  -- this method, path, timestamp, nonce and body, and no reservation of the nonce for the wallet is in
  -- force.
  pub granted_iff_proven :
      (method path w raw : Text) (key : Blob) (p : Proof) (t : Reading) (db : Db)
      → ((authenticate_with_key s v method path w raw key p t db).0 ≡ granted)
        ↔ IsProven s v method path w raw key p t db
  granted_iff_proven method path w raw key p t db = (
    λ h.
        checked_proven s v method path w raw key p t db (checked_of method path w raw key p t db h),
    λ h.
        checked_granted method path w raw key p t db
          (proven_checked s v method path w raw key p t db h),
  )

  -- A granted proof has made its reservation, and nothing else.
  granted_reserves :
      (method path w raw : Text) (key : Blob) (p : Proof) (t : Reading) (db : Db)
      (h : IsChecked s v method path w raw key p t db)
      → (authenticate_with_key s v method path w raw key p t db).1
        ≡ (reserve s (reservation w h.nonce t) db).1
  unfolding authenticate_with_key reserve
  granted_reserves method path w raw key p t db h =
      rw (h.has_timestamp, h.has_nonce, h.has_signature)
        (ground (arith, h.near, h.not_empty, h.not_long, h.signed, h.fresh))

  -- Once a proof is granted, no later proof with the same nonce is granted to the wallet, under
  -- whatever key, path and body, and whatever reservations come in between, as long as the clock has
  -- not reached the second in which the nonce's ten minutes end.
  pub replay_denied :
      (method path raw method' path' raw' w : Text) (key key' : Blob) (p p' : Proof)
      (t t' : Reading) (rs : List Reservation) (db : Db)
      → p'.nonce ≡ p.nonce
      → t.later + nonce_ttl_seconds * nanos < horizon
      → t'.now / nanos < (t.later + nonce_ttl_seconds * nanos) / nanos
      → All (λ r. r.now / nanos < (t.later + nonce_ttl_seconds * nanos) / nanos) rs
      → (authenticate_with_key s v method path w raw key p t db).0 ≡ granted
      → ¬ (
          (authenticate_with_key s v method' path' w raw' key' p' t'
            (reserve_all s rs (authenticate_with_key s v method path w raw key p t db).1)).0
          ≡ granted)
  replay_denied method path raw method' path' raw' w key key' p p' t t' rs db same year soon early h
        h' =
      let first = checked_of method path w raw key p t db h in
      let db' = reserve_all s rs (authenticate_with_key s v method path w raw key p t db).1 in
      let second = checked_of method' path' w raw' key' p' t' db' h' in
      let once =
        reserved_once s (reservation w first.nonce t) (reservation w second.nonce t') rs db refl
          (ground (arith, first.has_nonce, second.has_nonce)) year (soon, early) first.fresh in
      let again : (reserve s (reservation w second.nonce t')
            (reserve_all s rs (reserve s (reservation w first.nonce t) db).1)).0
          ≡ true =
        rw (granted_reserves method path w raw key p t db first) at (second.fresh) in
      cc (once, again)

  -- The bug: when the text of the second attempt's clock is past the nonce's expiry while the skew
  -- test still lets the timestamp through, the very same proof is granted a second time.
  pub replay_after_expiry :
      (method path w raw : Text) (key : Blob) (p : Proof) (t t' : Reading) (db : Db)
      → (h : IsProven s v method path w raw key p t db) → is_skewed t'.check_ms h.timestamp ≡ false
      → s.before (t.later + nonce_ttl_seconds * nanos) t'.now ≡ true
      → (authenticate_with_key s v method path w raw key p t'
          (authenticate_with_key s v method path w raw key p t db).1).0
        ≡ granted
  unfolding proven_checked
  replay_after_expiry method path w raw key p t t' db h near late =
      let c = proven_checked s v method path w raw key p t db h in
      let once = reservation w c.nonce t in
      let free = reserved_again s once (reservation w c.nonce t') db refl refl late c.fresh in
      checked_granted method path w raw key p t' _ (record {
        timestamp = c.timestamp;
        nonce = c.nonce;
        signature = c.signature;
        has_timestamp = c.has_timestamp;
        has_nonce = c.has_nonce;
        has_signature = c.has_signature;
        near = near;
        not_empty = c.not_empty;
        not_long = c.not_long;
        signed = c.signed;
        fresh = rw (granted_reserves method path w raw key p t db c) free;
      })
