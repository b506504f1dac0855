-- ===== src/Server/Auth/Proven.antt =====
-- What the check of a device proof in crates/mpc-server/src/auth.rs asks for, as the code tests it and
-- by the parts of the proof and the rows of the table.
use mpc_ext.Base.{
  ℕ, ◌+◌, ◌%◌, ◌-◌, ◌<◌, [], ◌∷◌, Bool, not, ◌&&◌, ◌==◌, ◌⊎◌, inl, inr, is_some, find_where,
  delete_where, Bool-cases, Option-cases, ◌≤◌, ◌≡◌, refl, ◌↔◌, List, some, true, false, arith, All,
}
use mpc_ext.Server.Types.{Text, Blob, NonceRow, Db}
use mpc_ext.Server.Clock.{Stamps}
use mpc_ext.Server.Auth.{
  Proof, Verifier, Reading, is_skewed, is_signed, nonce_ttl_seconds, max_clock_skew_ms, i64_mod,
  sign_bit, sub_i64, abs_i64, gt_i64, holds_nonce, reserve_device_nonce,
}
use mpc_ext.Server.Auth.Nonces.{Reservation, reserve}

-- The reservation that a proof with this nonce makes.
abbrev pub reservation : Text → Text → Reading → Reservation
reservation w n t = record {
  wallet_id = w;
  nonce = n;
  ttl_seconds = nonce_ttl_seconds;
  now = t.now;
  later = t.later;
}

-- The wrapped difference of the clock and a timestamp is at most the allowed skew, one way or the
-- other, or it is the least i64.
abbrev pub IsClose : ℕ → ℕ → Type 0
IsClose now timestamp =
    let d = (now + i64_mod - timestamp) % i64_mod in
    (d ≤ max_clock_skew_ms) ⊎ (i64_mod ≤ d + max_clock_skew_ms) ⊎ (d ≡ sign_bit)

pub IsClose-iff : (now timestamp : ℕ) → (is_skewed now timestamp ≡ false) ↔ IsClose now timestamp
unfolding is_skewed sub_i64 abs_i64 gt_i64
IsClose-iff now timestamp = (λ h. ground arith, λ h. ground arith)

module _ (s : Stamps) (v : Verifier) where
  -- All that a proof is checked for, as the code tests it.
  pub record IsChecked (method path w raw : Text) (key : Blob) (p : Proof) (t : Reading) (db : Db)
      : Type 0 where
    pub timestamp : ℕ
    pub nonce : Text
    pub signature : Text
    pub has_timestamp : p.timestamp ≡ some timestamp
    pub has_nonce : p.nonce ≡ some nonce
    pub has_signature : p.signature ≡ some signature
    pub near : is_skewed t.check_ms timestamp ≡ false
    pub not_empty : 0 < v.len nonce
    pub not_long : v.len nonce ≤ 128
    pub signed : is_signed s v method path raw key timestamp nonce signature ≡ true
    pub fresh : (reserve s (reservation w nonce t) db).0 ≡ true

  -- What a granted proof shows: the headers are there, the clock is close, the key and the signature
  -- are well formed, the signature verifies over the text of this method, path, timestamp, nonce and
  -- body, and no reservation of the nonce for the wallet is in force.
  pub record IsProven (method path w raw : Text) (key : Blob) (p : Proof) (t : Reading) (db : Db)
      : Type 0 where
    pub timestamp : ℕ
    pub nonce : Text
    pub signature : Text
    pub bytes : Blob
    pub has_timestamp : p.timestamp ≡ some timestamp
    pub has_nonce : p.nonce ≡ some nonce
    pub has_signature : p.signature ≡ some signature
    pub near : IsClose t.check_ms timestamp
    pub not_empty : 0 < v.len nonce
    pub not_long : v.len nonce ≤ 128
    pub is_key : v.is_key key ≡ true
    pub decoded : v.decode_base64 signature ≡ some bytes
    pub is_signature : v.is_signature bytes ≡ true
    pub verified : v.verify key (v.message method path timestamp nonce raw) bytes ≡ true
    pub fresh :
        All
          (λ r.
            ((r.wallet_id == w) && (r.nonce == nonce) && not (s.before r.expires_at t.now)) ≡ false)
          db.used_device_nonces

  abbrev pub in_force : Text → Text → ℕ → NonceRow → Bool
  in_force w n now r = (r.wallet_id == w) && (r.nonce == n) && not (s.before r.expires_at now)

  free-All :
      (w n : Text) (now : ℕ) (rows : List NonceRow)
      → is_some
          (find_where (holds_nonce s w n) (delete_where (λ r. s.before r.expires_at now) rows))
        ≡ false
      → All (λ r. in_force w n now r ≡ false) rows
  unfolding find_where delete_where
  free-All w n now [] h = tt
  free-All w n now (r ∷ rows) h = elim (Bool-cases (s.before r.expires_at now)) [
    | inl old ↦ (ground arith, free-All w n now rows (ground arith))
    | inr live ↦ (ground arith, free-All w n now rows (ground arith))
  ]

  pub All-free :
      (w n : Text) (now : ℕ) (rows : List NonceRow)
      → All (λ r. in_force w n now r ≡ false) rows
      → is_some
          (find_where (holds_nonce s w n) (delete_where (λ r. s.before r.expires_at now) rows))
        ≡ false
  unfolding find_where delete_where
  All-free w n now [] h = refl
  All-free w n now (r ∷ rows) h = ground (arith, h.0, All-free w n now rows h.1)

  pub checked_proven :
      (method path w raw : Text) (key : Blob) (p : Proof) (t : Reading) (db : Db)
      → IsChecked method path w raw key p t db
      → IsProven method path w raw key p t db
  unfolding is_signed reserve reserve_device_nonce
  checked_proven method path w raw key p t db c =
      elim (Option-cases (v.decode_base64 c.signature)) [
        | inl garbled ↦ absurd (ground (arith, c.signed))
        | inr (bytes, decoded) ↦ record {
          timestamp = c.timestamp;
          nonce = c.nonce;
          signature = c.signature;
          bytes = bytes;
          has_timestamp = c.has_timestamp;
          has_nonce = c.has_nonce;
          has_signature = c.has_signature;
          near = (IsClose-iff t.check_ms c.timestamp).0 c.near;
          not_empty = c.not_empty;
          not_long = c.not_long;
          is_key = ground (arith, c.signed);
          decoded = decoded;
          is_signature = ground (arith, c.signed);
          verified = ground (arith, c.signed);
          fresh = free-All w c.nonce t.now db.used_device_nonces (ground (arith, c.fresh));
        }
      ]

  unfoldable pub proven_checked :
      (method path w raw : Text) (key : Blob) (p : Proof) (t : Reading) (db : Db)
      → IsProven method path w raw key p t db
      → IsChecked method path w raw key p t db
  unfolding is_signed reserve reserve_device_nonce
  proven_checked method path w raw key p t db h = record {
    timestamp = h.timestamp;
    nonce = h.nonce;
    signature = h.signature;
    has_timestamp = h.has_timestamp;
    has_nonce = h.has_nonce;
    has_signature = h.has_signature;
    near = (IsClose-iff t.check_ms h.timestamp).1 h.near;
    not_empty = h.not_empty;
    not_long = h.not_long;
    signed = rw (h.is_key, h.decoded, h.is_signature, h.verified) refl;
    fresh = ground (arith, All-free w h.nonce t.now db.used_device_nonces h.fresh);
  }
