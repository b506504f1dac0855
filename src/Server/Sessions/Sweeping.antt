-- ===== src/Server/Sessions/Sweeping.antt =====
-- The sweep of expired sessions in crates/mpc-server/src/store.rs against the reads.
use mpc_ext.Base.{
  ap, ℕ, ◌≡◌, ◌≤◌, refl, List, [], ◌∷◌, none, some, true, false, ◌==◌, find_where, delete_where,
  count_where, arith, Bool-cases, Option-cases, inl, inr, All-delete_where, find_where-none,
  All-of_count_where-zero,
}
use mathlib.Core.Option
use mpc_ext.Server.Types.{Text, SessionRow, Db}
use mpc_ext.Server.Clock.{Stamps}
use mpc_ext.Server.Sessions.{has_id, take_row, take_session, take_sign_session, sweep_expired}

module _ (s : Stamps) where
  swept_found :
      (id : Text) (now : ℕ) (rows : List SessionRow) (r : SessionRow)
      → find_where (has_id id) rows ≡ some r
      → s.before r.expires_at now ≡ false
      → find_where (has_id id) (delete_where (λ x. s.before x.expires_at now) rows) ≡ some r
  unfolding find_where delete_where
  swept_found id now [] r h live = cc
  swept_found id now (x ∷ rows) r h live = ground (arith, swept_found id now rows r)

  swept_gone :
      (id : Text) (now : ℕ) (rows : List SessionRow) (r : SessionRow)
      → count_where (has_id id) rows ≤ 1
      → find_where (has_id id) rows ≡ some r
      → s.before r.expires_at now ≡ true
      → find_where (has_id id) (delete_where (λ x. s.before x.expires_at now) rows) ≡ none
  unfolding find_where delete_where count_where
  swept_gone id now [] r unique h old = cc
  swept_gone id now (x ∷ rows) r unique h old = elim (Bool-cases (x.session_id == id)) [
    | inl here ↦
        let none_left : count_where (has_id id) rows ≡ 0 = ground arith in
        ground (
          arith,
          find_where-none (has_id id) (delete_where (λ x. s.before x.expires_at now) rows)
              (All-delete_where _ _ rows (All-of_count_where-zero (has_id id) rows none_left)),
        )
    | inr other ↦ ground (arith, swept_gone id now rows r)
  ]

  swept_absent :
      (id : Text) (now : ℕ) (rows : List SessionRow)
      → find_where (has_id id) rows ≡ none
      → find_where (has_id id) (delete_where (λ x. s.before x.expires_at now) rows) ≡ none
  unfolding find_where delete_where
  swept_absent id now [] h = refl
  swept_absent id now (x ∷ rows) h = ground (arith, swept_absent id now rows)

  swept_row :
      (id : Text) (now : ℕ) (rows : List SessionRow)
      → count_where (has_id id) rows ≤ 1
      → (take_row s (has_id id) now (delete_where (λ x. s.before x.expires_at now) rows)).0
        ≡ (take_row s (has_id id) now rows).0
  unfolding take_row
  swept_row id now rows unique = elim (Option-cases (find_where (has_id id) rows)) [
    | inl miss ↦ ground (arith, miss, swept_absent id now rows miss)
    | inr (r, found) ↦ elim (Bool-cases (s.before r.expires_at now)) [
      | inl old ↦ ground (arith, found, swept_gone id now rows r unique found old)
      | inr live ↦ ground (arith, found, swept_found id now rows r found live)
    ]
  ]

  -- A sweep changes no answer: where session ids are unique, a key generation or signing session read
  -- at the time of the sweep gives the same after it as before it.
  pub sweep_unseen :
      (id : Text) (now : ℕ) (db : Db)
      → count_where (has_id id) db.dkg_sessions ≤ 1
      → count_where (has_id id) db.sign_sessions ≤ 1
      → ((take_session s id now (sweep_expired s now db).1).0 ≡ (take_session s id now db).0)
        × ((take_sign_session s id now (sweep_expired s now db).1).0
            ≡ (take_sign_session s id now db).0)
  unfolding take_session take_sign_session sweep_expired
  sweep_unseen id now db dkg signing = (
    ap (Option.map (λ r. (r.round, r.state))) (swept_row id now db.dkg_sessions dkg),
    ap (Option.map (λ r. r.state)) (swept_row id now db.sign_sessions signing),
  )
