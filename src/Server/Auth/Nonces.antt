-- ===== src/Server/Auth/Nonces.antt =====
-- The nonces that are in use, across any sequence of reservations.
use mpc_ext.Base.{
  ℕ, ◌+◌, ◌*◌, ◌/◌, ◌<◌, ◌≡◌, refl, List, [], ◌∷◌, Bool, true, false, arith, ◌==◌, ◌&&◌, is_some,
  find_where, All-map, delete_where, All, Bool-cases, inl, inr,
}
use mpc_ext.Server.Types.{Text, NonceRow, Db}
use mpc_ext.Server.Clock.{Stamps, nanos, horizon}
use mpc_ext.Server.Auth.{reserve_device_nonce, holds_nonce}

-- One call of reserve_device_nonce, with the two times that it reads.
pub record Reservation : Type 0 where
  pub wallet_id : Text
  pub nonce : Text
  pub ttl_seconds : ℕ
  pub now : ℕ
  pub later : ℕ

module _ (s : Stamps) where
  unfoldable pub reserve : Reservation → Db → Bool × Db
  unfolding reserve_device_nonce
  reserve r db = reserve_device_nonce s r.wallet_id r.nonce r.ttl_seconds r.now r.later db

  unfoldable pub reserve_all : List Reservation → Db → Db
  reserve_all [] db = db
  reserve_all (r ∷ rs) db = reserve_all rs (reserve r db).1

  -- The nonce is reserved by a row that stays at least until `until`.
  abbrev holds_until : Text → Text → ℕ → NonceRow → Bool
  holds_until w n until r = (r.wallet_id == w) && (r.nonce == n) && (r.expires_at == until)

  abbrev pub IsHeld : Text → Text → ℕ → List NonceRow → Type 0
  IsHeld w n until rows = is_some (find_where (holds_until w n until) rows) ≡ true

  held_is_refused :
      (w n : Text) (until : ℕ) (rows : List NonceRow)
      → IsHeld w n until rows
      → is_some (find_where (holds_nonce s w n) rows) ≡ true
  unfolding find_where
  held_is_refused w n until [] h = cc
  held_is_refused w n until (r ∷ rows) h = ground (arith, held_is_refused w n until rows)

  delete-IsHeld :
      (w n : Text) (until now : ℕ) (rows : List NonceRow)
      → s.before until now ≡ false
      → IsHeld w n until rows
      → IsHeld w n until (delete_where (λ r. s.before r.expires_at now) rows)
  unfolding find_where delete_where
  delete-IsHeld w n until now [] alive h = cc
  delete-IsHeld w n until now (r ∷ rows) alive h = elim (Bool-cases (r.expires_at == until)) [
    | inl same ↦
        let e : r.expires_at ≡ until = ground arith in
        rw (e, alive) (ground (arith, delete-IsHeld w n until now rows alive))
    | inr other ↦ ground (arith, delete-IsHeld w n until now rows alive)
  ]

  reserve-IsHeld :
      (w n : Text) (until : ℕ) (r : Reservation) (db : Db)
      → s.before until r.now ≡ false
      → IsHeld w n until db.used_device_nonces
      → IsHeld w n until (reserve r db).1.used_device_nonces
  unfolding reserve find_where
  reserve-IsHeld w n until r db alive h =
      ground (arith, delete-IsHeld w n until r.now db.used_device_nonces alive h)

  reserve_all-IsHeld :
      (w n : Text) (until : ℕ) (rs : List Reservation) (db : Db)
      → All (λ r. s.before until r.now ≡ false) rs
      → IsHeld w n until db.used_device_nonces
      → IsHeld w n until (reserve_all rs db).used_device_nonces
  unfolding reserve_all
  reserve_all-IsHeld w n until [] db alive h = h
  reserve_all-IsHeld w n until (r ∷ rs) db alive h =
      reserve_all-IsHeld w n until rs (reserve r db).1 (alive.1)
        (reserve-IsHeld w n until r db (alive.0) h)

  reserve_holds :
      (r : Reservation) (db : Db)
      → (reserve r db).0 ≡ true
      → IsHeld r.wallet_id r.nonce
          (r.later + r.ttl_seconds * nanos)
          (reserve r db).1.used_device_nonces
  unfolding reserve find_where
  reserve_holds r db h = ground arith

  reserve_refused :
      (r : Reservation) (until : ℕ) (db : Db)
      → s.before until r.now ≡ false
      → IsHeld r.wallet_id r.nonce until db.used_device_nonces
      → (reserve r db).0 ≡ false
  unfolding reserve
  reserve_refused r until db alive h = ground (
    arith,
    held_is_refused r.wallet_id r.nonce until _
        (delete-IsHeld r.wallet_id r.nonce until r.now db.used_device_nonces alive h),
  )

  -- A reserved nonce is refused to the same wallet, whatever other reservations come in between, as
  -- long as none of them and not the second attempt happens in or after the second in which the
  -- reservation runs out.
  pub reserved_once :
      (first again : Reservation) (rs : List Reservation) (db : Db)
      → again.wallet_id ≡ first.wallet_id
      → again.nonce ≡ first.nonce
      → first.later + first.ttl_seconds * nanos < horizon
      → All (λ r. r.now / nanos < (first.later + first.ttl_seconds * nanos) / nanos) (again ∷ rs)
      → (reserve first db).0 ≡ true
      → (reserve again (reserve_all rs (reserve first db).1)).0 ≡ false
  reserved_once first again rs db same_wallet same_nonce year early h =
      let until : ℕ = first.later + first.ttl_seconds * nanos in
      let held =
        reserve_all-IsHeld first.wallet_id first.nonce until rs (reserve first db).1
          (All-map rs (λ r sooner. s.not_before_of_seconds r.now until year sooner) (early.1))
          (reserve_holds first db h) in
      reserve_refused again until _ (s.not_before_of_seconds again.now until year (early.0))
        (rw (same_wallet, same_nonce) held)

  free_after_delete :
      (w n : Text) (p : NonceRow → Bool) (rows : List NonceRow)
      → is_some (find_where (holds_nonce s w n) rows) ≡ false
      → is_some (find_where (holds_nonce s w n) (delete_where p rows)) ≡ false
  unfolding find_where delete_where
  free_after_delete w n p [] h = refl
  free_after_delete w n p (r ∷ rows) h = ground (arith, free_after_delete w n p rows)

  -- A reservation that has run out is swept by the next attempt, which then succeeds.
  pub reserved_again :
      (first again : Reservation) (db : Db)
      → again.wallet_id ≡ first.wallet_id
      → again.nonce ≡ first.nonce
      → s.before (first.later + first.ttl_seconds * nanos) again.now ≡ true
      → (reserve first db).0 ≡ true
      → (reserve again (reserve first db).1).0 ≡ true
  unfolding reserve delete_where
  reserved_again first again db same_wallet same_nonce late h =
      rw (same_wallet, same_nonce)
        (ground (
          arith,
          late,
          free_after_delete first.wallet_id first.nonce (λ r. s.before r.expires_at again.now)
              (delete_where (λ r. s.before r.expires_at first.now) db.used_device_nonces),
        ))
