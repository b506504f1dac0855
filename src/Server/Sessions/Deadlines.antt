-- ===== src/Server/Sessions/Deadlines.antt =====
-- The deadline of a session in crates/mpc-server/src/store.rs.
use mathlib.Core.Option
use mpc_ext.Base.{
  ℕ, ◌+◌, ◌*◌, ◌≡◌, refl, List, [], ◌∷◌, none, some, false, not, is_some, find_where, update_where,
  if◌then◌else◌, arith,
}
use mpc_ext.Server.Types.{Text, Sealed, SessionRow, Db}
use mpc_ext.Server.Clock.{Stamps, nanos}
use mpc_ext.Server.Sessions.{has_id, put_row, put_sign_session, take_row, take_sign_session}

-- One write of a session: its wallet, round, state, lifetime and the instant.
abbrev pub Write : Type 0
Write = Text × ℕ × Sealed × ℕ × ℕ

pub put_all : Text → List Write → List SessionRow → List SessionRow
put_all id [] rows = rows
put_all id ((w, round, state, ttl, now) ∷ writes) rows =
    put_all id writes (put_row id w round state ttl now rows)

found_updated :
    (id : Text) (round : ℕ) (state : Sealed) (rows : List SessionRow) (r : SessionRow)
    → find_where (has_id id) rows ≡ some r
    → find_where
        (has_id id)
        (update_where (has_id id) (λ r. record r { round = round; state = state }) rows)
      ≡ some (record r { round = round; state = state })
unfolding find_where update_where
found_updated id round state [] r h = cc
found_updated id round state (x ∷ rows) r h = ground (arith, found_updated id round state rows r)

pub put_row-keeps :
    (id w : Text) (round : ℕ) (state : Sealed) (ttl now : ℕ) (rows : List SessionRow)
    (r : SessionRow)
    → find_where (has_id id) rows ≡ some r
    → find_where (has_id id) (put_row id w round state ttl now rows)
      ≡ some (record r { round = round; state = state })
unfolding put_row
put_row-keeps id w round state ttl now rows r h = rw h (found_updated id round state rows r h)

put_row-new :
    (id w : Text) (round : ℕ) (state : Sealed) (ttl now : ℕ) (rows : List SessionRow)
    → find_where (has_id id) rows ≡ none
    → find_where (has_id id) (put_row id w round state ttl now rows)
      ≡ some (record {
        session_id = id;
        wallet_id = w;
        round = round;
        state = state;
        expires_at = now + ttl * nanos;
      })
unfolding put_row find_where
put_row-new id w round state ttl now rows h = ground (arith, h)

-- The row that is found under an id once it has been written.
put_all-keeps :
    (id : Text) (writes : List Write) (rows : List SessionRow) (r : SessionRow)
    → find_where (has_id id) rows ≡ some r
    → (q : SessionRow) × (find_where (has_id id) (put_all id writes rows) ≡ some q)
      × (q.wallet_id ≡ r.wallet_id)
      × (q.expires_at ≡ r.expires_at)
unfolding put_all
put_all-keeps id [] rows r h = (r, h, refl, refl)
put_all-keeps id ((w, round, state, ttl, now) ∷ writes) rows r h =
    let (q, found, owner, expires) =
      put_all-keeps id writes (put_row id w round state ttl now rows)
        (record r { round = round; state = state })
        (put_row-keeps id w round state ttl now rows r h) in
    (q, found, owner, expires)

module _ (s : Stamps) where
  -- A session is read until the deadline of its first write and no longer: the later writes under its
  -- id, whatever lifetime and wallet they name, leave the deadline and the wallet of the first.
  pub deadline_fixed :
      (id w : Text) (round : ℕ) (state : Sealed) (ttl now later : ℕ) (writes : List Write)
      (rows : List SessionRow)
      → find_where (has_id id) rows ≡ none
      → let found =
          (take_row s
            (has_id id)
            later
            (put_all id writes (put_row id w round state ttl now rows))).0 in
        (is_some found ≡ not (s.before (now + ttl * nanos) later))
        × (Option.map (λ r. r.wallet_id) found
            ≡ (if s.before (now + ttl * nanos) later then none else some w))
        × (Option.map (λ r. r.expires_at) found
            ≡ (if s.before (now + ttl * nanos) later then none else some (now + ttl * nanos)))
  unfolding take_row
  deadline_fixed id w round state ttl now later writes rows h =
      let (q, found, owner, expires) =
        put_all-keeps id writes (put_row id w round state ttl now rows) _
          (put_row-new id w round state ttl now rows h) in
      (
        ground (arith, found, expires),
        ground (arith, found, owner, expires),
        ground (arith, found, expires),
      )

  -- A signing session that is there, and is written and then read before its deadline, gives the state
  -- back, and the read leaves the database as it was.
  sign_session_roundtrip :
      (id w : Text) (round : ℕ) (state : Sealed) (ttl now later : ℕ) (db : Db) (r : SessionRow)
      → find_where (has_id id) db.sign_sessions ≡ some r
      → s.before r.expires_at later ≡ false
      → take_sign_session s id later (put_sign_session id w round state ttl now db)
        ≡ (some state, put_sign_session id w round state ttl now db)
  unfolding take_sign_session take_row put_sign_session
  sign_session_roundtrip id w round state ttl now later db r h live =
      ground (arith, put_row-keeps id w round state ttl now db.sign_sessions r h)
