-- ===== src/Server/Ceremonies.antt =====
-- The browser handoffs of crates/mpc-server/src/store.rs. A method that reads the clock takes the
-- instants that it reads.
pub mod Claims
use mpc_ext.Base.{
  ℕ, ◌+◌, ◌*◌, ◌≡◌, refl, arith, List, [], ◌∷◌, Option, none, some, Bool, true, false, not, ◌&&◌,
  ◌||◌, ◌==◌, if◌then◌else◌, is_some, find_where, update_where, delete_where, count_where,
  count_where-zero, All, All-update_where_new, Bool-cases, inl, inr,
}
use mathlib.Core.Option
use mpc_ext.Server.Types.{Text, Blob, CeremonyRow, Db, register, assert}
use mpc_ext.Server.Clock.{Stamps, nanos}

-- CHECK (kind IN ('register', 'assert'))
abbrev pub is_kind : Text → Bool
is_kind kind = (kind == register) || (kind == assert)

-- The result is whether the row was inserted: the session id and the handoff hash are unique.
unfoldable pub put_browser_ceremony :
    Text → Blob → Text → Text → Text → Option Text → Option Text → ℕ → ℕ → Db → Bool × Db
put_browser_ceremony id hash w kind purpose operation_id digest ttl_seconds now db =
    if not (is_kind kind)
      || is_some
          (find_where (λ r. (r.session_id == id) || (r.handoff_hash == hash)) db.browser_ceremonies)
    then (false, db)
    else (
      true,
      record db {
        browser_ceremonies =
            record {
              session_id = id;
              handoff_hash = hash;
              wallet_id = w;
              kind = kind;
              purpose = purpose;
              operation_id = operation_id;
              digest = digest;
              challenge_id = none;
              options = none;
              expires_at = now + ttl_seconds * nanos;
              claimed_at = none;
              completed_at = none;
              cancelled_at = none;
            }
            ∷ db.browser_ceremonies;
      },
    )

module _ (s : Stamps) where
  -- completed_at IS NULL AND cancelled_at IS NULL AND expires_at >= ?
  abbrev pub is_running : ℕ → CeremonyRow → Bool
  is_running now r =
      not (is_some r.completed_at)
      && not (is_some r.cancelled_at)
      && not (s.before r.expires_at now)

  abbrev pub is_claimable : Blob → ℕ → CeremonyRow → Bool
  is_claimable hash now r =
      (r.handoff_hash == hash) && not (is_some r.claimed_at) && is_running now r

  -- UPDATE … RETURNING the row as updated.
  unfoldable pub claim_browser_ceremony : Blob → ℕ → Db → Option CeremonyRow × Db
  claim_browser_ceremony hash now db = (
    Option.map {A = CeremonyRow} (λ r. record r { claimed_at = some now })
        (find_where (is_claimable hash now) db.browser_ceremonies),
    record db {
      browser_ceremonies =
          update_where (is_claimable hash now) (λ r. record r { claimed_at = some now })
            db.browser_ceremonies;
    },
  )

  unfoldable pub browser_ceremony : Text → ℕ → Db → Option CeremonyRow
  browser_ceremony id now db =
      find_where
        (λ r.
          (r.session_id == id) && not (s.before r.expires_at now) && not (is_some r.cancelled_at))
        db.browser_ceremonies

  abbrev pub takes_challenge : Text → ℕ → CeremonyRow → Bool
  takes_challenge id now r =
      (r.session_id == id)
      && is_some r.claimed_at
      && not (is_some r.challenge_id)
      && is_running now r

  unfoldable pub set_browser_challenge : Text → Text → Text → ℕ → Db → Bool × Db
  set_browser_challenge id challenge_id options now db = (
    count_where (takes_challenge id now) db.browser_ceremonies == 1,
    record db {
      browser_ceremonies =
          update_where (takes_challenge id now)
            (λ r. record r { challenge_id = some challenge_id; options = some options })
            db.browser_ceremonies;
    },
  )

  abbrev pub is_completable : Text → ℕ → CeremonyRow → Bool
  is_completable id now r = (r.session_id == id) && is_some r.claimed_at && is_running now r

  -- The clock is read for the mark and for the test.
  unfoldable pub complete_browser_ceremony : Text → ℕ → ℕ → Db → Bool × Db
  complete_browser_ceremony id mark now db = (
    count_where (is_completable id now) db.browser_ceremonies == 1,
    record db {
      browser_ceremonies =
          update_where (is_completable id now) (λ r. record r { completed_at = some mark })
            db.browser_ceremonies;
    },
  )

  unfoldable pub sweep_browser_ceremonies : ℕ → Db → ℕ × Db
  sweep_browser_ceremonies now db =
      let old : CeremonyRow → Bool = λ r. s.before r.expires_at now in
      (
        count_where old db.browser_ceremonies,
        record db { browser_ceremonies = delete_where old db.browser_ceremonies },
      )
