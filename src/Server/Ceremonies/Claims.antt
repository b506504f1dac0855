-- ===== src/Server/Ceremonies/Claims.antt =====
-- The order of a handoff's steps in crates/mpc-server/src/store.rs: claimed, challenged, completed.
use mpc_ext.Base.{
  ℕ, ◌≡◌, ◌≤◌, refl, List, none, some, true, false, ◌&&◌, ◌==◌, is_some, find_where, update_where,
  count_where, find_where-none, count_where-zero, count_where_mono, count_where-pos_of_found,
  All-update_where_only, All, All-map, arith, Option-cases, inl, inr,
}
use mpc_ext.Server.Types.{Text, Blob, CeremonyRow, Db}
use mpc_ext.Server.Clock.{Stamps}
use mpc_ext.Server.Ceremonies.{
  claim_browser_ceremony, is_claimable, complete_browser_ceremony, is_completable,
}

module _ (s : Stamps) where
  claimed_gone :
      (hash : Blob) (now later : ℕ) (rows : List CeremonyRow) (r : CeremonyRow)
      → count_where (λ r. r.handoff_hash == hash) rows ≤ 1
      → find_where (is_claimable s hash now) rows ≡ some r
      → All
          (λ x. is_claimable s hash later x ≡ false)
          (update_where (is_claimable s hash now) (λ r. record r { claimed_at = some now }) rows)
  claimed_gone hash now later rows r unique found =
      All-update_where_only (λ x. is_claimable s hash later x ≡ false) (is_claimable s hash now)
        (λ r. r.handoff_hash == hash) (λ r. record r { claimed_at = some now }) rows
        (λ x h. ground arith) (λ x h. ground arith) (λ x h. ground arith) unique
        (omega (
          arith,
          unique,
          count_where-pos_of_found (is_claimable s hash now) rows r found,
          count_where_mono (is_claimable s hash now) (λ r. r.handoff_hash == hash) rows
              (λ x h. ground arith),
        ))

  -- A handoff that has been claimed cannot be claimed again, whatever the clock then reads, in a table
  -- where its hash is unique.
  pub claimed_once :
      (hash : Blob) (now later : ℕ) (db : Db)
      → count_where (λ r. r.handoff_hash == hash) db.browser_ceremonies ≤ 1
      → is_some (claim_browser_ceremony s hash now db).0 ≡ true
      → (claim_browser_ceremony s hash later (claim_browser_ceremony s hash now db).1).0 ≡ none
  unfolding claim_browser_ceremony
  claimed_once hash now later db unique h =
      elim (Option-cases (find_where (is_claimable s hash now) db.browser_ceremonies)) [
        | inl miss ↦ absurd (ground arith)
        | inr (r, found) ↦
            rw
              (find_where-none (is_claimable s hash later) _
                (claimed_gone hash now later db.browser_ceremonies r unique found))
              refl
      ]

  -- A handoff that nobody has claimed is not completed.
  unclaimed_not_completed :
      (id : Text) (mark now : ℕ) (db : Db)
      → All (λ r. (r.session_id == id) && is_some r.claimed_at ≡ false) db.browser_ceremonies
      → (complete_browser_ceremony s id mark now db).0 ≡ false
  unfolding complete_browser_ceremony
  unclaimed_not_completed id mark now db h = ground (
    arith,
    count_where-zero (is_completable s id now) db.browser_ceremonies
        (All-map _ (λ r u. ground arith) h),
  )
