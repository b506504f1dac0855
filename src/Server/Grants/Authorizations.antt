-- ===== src/Server/Grants/Authorizations.antt =====
-- The uses of one passkey authorization (crates/mpc-server/src/store.rs) across a history of calls.
use mpc_ext.Base.{
  ℕ, ◌≡◌, refl, List, [], ◌∷◌, some, Bool, true, false, not, ◌&&◌, ◌==◌, arith, All, is_some,
  find_where, count_where, All-update_where, find_where-update_where, is_some-map,
  is_some-find_where_weaken, is_some-find_where_of_count, count_where-zero,
  count_where-zero_of_find_where, count_where-update_where_same, All-update_where_only, ◌≤◌, ◌∙◌,
  All-map, inl, inr, Bool-cases,
}
use mpc_ext.Server.Types.{Text, AuthorizationRow, Db, empty_db}
use mpc_ext.Server.Clock.{Stamps}
use mpc_ext.Server.Grants.{
  authorizes, is_usable, put_passkey_authorization, consume_passkey_authorization,
}

pub data Call : Type 0 where
  puts : Text → Text → Text → Text → ℕ → Call
  consumes : Text → Text → Text → Text → ℕ → Call

abbrev authorizes_text : Text → Text → Text → Text → Text → Text → Text → Text → Bool
authorizes_text w p op d w' p' op' d' = (w' == w) && (p' == p) && (op' == op) && (d' == d)

same_texts :
    (w p op d w' p' op' d' : Text)
    → authorizes_text w p op d w' p' op' d' ≡ true
    → (w' ≡ w) × (p' ≡ p) × (op' ≡ op) × (d' ≡ d)
same_texts w p op d w' p' op' d' h = (ground arith, ground arith, ground arith, ground arith)

module _ (s : Stamps) where
  unfoldable pub step : ℕ × Call → Db → Db
  step (now, puts w p op d ttl) db = (put_passkey_authorization w p op d ttl now db).1
  step (now, consumes w p op d mark) db = (consume_passkey_authorization s w p op d mark now db).1

  unfoldable pub run : List (ℕ × Call) → Db → Db
  run [] db = db
  run (c ∷ cs) db = run cs (step c db)

  -- The operation has its row, and every row for it is used.
  pub record IsSpent (w p op d : Text) (rows : List AuthorizationRow) : Type 0 where
    pub taken : is_some (find_where (authorizes w p op d) rows) ≡ true
    pub used : All (λ r. (authorizes w p op d r && not (is_some r.consumed_at)) ≡ false) rows

  -- The table's unique key.
  abbrev pub OneEach : Db → Type 0
  OneEach db = (w p op d : Text) → count_where (authorizes w p op d) db.passkey_authorizations ≤ 1

  step-OneEach : (c : ℕ × Call) (db : Db) → OneEach db → OneEach (step c db)
  unfolding step put_passkey_authorization consume_passkey_authorization count_where
  step-OneEach (now, puts w p op d ttl) db h w' p' op' d' =
      elim (Bool-cases (authorizes_text w' p' op' d' w p op d)) [
        | inl same ↦
            let (a, b, c, e) = same_texts w' p' op' d' w p op d same in
            rw (a, b, c, e)
              (ground (
                arith,
                h w' p' op' d',
                count_where-zero_of_find_where (authorizes w' p' op' d') db.passkey_authorizations,
              ))
        | inr other ↦ ground (arith, h w' p' op' d')
      ]
  step-OneEach (now, consumes w p op d mark) db h w' p' op' d' = omega (
    arith,
    h w' p' op' d',
    count_where-update_where_same (authorizes w' p' op' d') (is_usable s w p op d now)
        (λ r. record r { consumed_at = some mark }) db.passkey_authorizations (λ r _. refl),
  )

  run-OneEach : (cs : List (ℕ × Call)) (db : Db) → OneEach db → OneEach (run cs db)
  unfolding run
  run-OneEach [] db h = h
  run-OneEach (c ∷ cs) db h = run-OneEach cs (step c db) (step-OneEach c db h)

  consume_spends :
      (w p op d : Text) (mark now : ℕ) (db : Db)
      → OneEach db
      → (consume_passkey_authorization s w p op d mark now db).0 ≡ true
      → IsSpent w p op d
          (consume_passkey_authorization s w p op d mark now db).1.passkey_authorizations
  unfolding consume_passkey_authorization
  consume_spends w p op d mark now db each h = record {
    taken =
        rw
          (find_where-update_where (authorizes w p op d) (is_usable s w p op d now)
            (λ r. record r { consumed_at = some mark }) db.passkey_authorizations (λ r. refl))
          (is_some-map _ (find_where (authorizes w p op d) db.passkey_authorizations)
            ∙ is_some-find_where_weaken (is_usable s w p op d now) (authorizes w p op d)
                db.passkey_authorizations (λ r u. ground arith)
                (is_some-find_where_of_count _ _ (ground arith)));
    used =
        All-update_where_only _ (is_usable s w p op d now) (authorizes w p op d) _
          db.passkey_authorizations (λ r u. ground arith) (λ r u. ground arith)
          (λ r u. ground arith) (each w p op d) (ground arith);
  }

  step-IsSpent :
      (w p op d : Text) (c : ℕ × Call) (db : Db)
      → IsSpent w p op d db.passkey_authorizations
      → IsSpent w p op d (step c db).passkey_authorizations
  unfolding step put_passkey_authorization consume_passkey_authorization find_where
  step-IsSpent w p op d (now, puts w' p' op' d' ttl) db v =
      elim (Bool-cases (authorizes_text w p op d w' p' op' d')) [
        | inl same ↦
            let (a, b, c, d) = same_texts w p op d w' p' op' d' same in
            rw (a, b, c, d) (ground arith)
        | inr other ↦ ground arith
      ]
  step-IsSpent w p op d (now, consumes w' p' op' d' mark) db v = record {
    taken =
        rw
          (find_where-update_where (authorizes w p op d) (is_usable s w' p' op' d' now)
            (λ r. record r { consumed_at = some mark }) db.passkey_authorizations (λ r. refl))
          (is_some-map _ (find_where (authorizes w p op d) db.passkey_authorizations) ∙ v.taken);
    used = All-update_where _ _ _ _ (λ r u x. ground arith) v.used;
  }

  run-IsSpent :
      (w p op d : Text) (cs : List (ℕ × Call)) (db : Db)
      → IsSpent w p op d db.passkey_authorizations
      → IsSpent w p op d (run cs db).passkey_authorizations
  unfolding run
  run-IsSpent w p op d [] db v = v
  run-IsSpent w p op d (c ∷ cs) db v =
      run-IsSpent w p op d cs (step c db) (step-IsSpent w p op d c db v)

  spent_refused :
      (w p op d : Text) (mark now : ℕ) (db : Db)
      → IsSpent w p op d db.passkey_authorizations
      → (consume_passkey_authorization s w p op d mark now db).0 ≡ false
  unfolding consume_passkey_authorization
  spent_refused w p op d mark now db v = ground (
    arith,
    count_where-zero (is_usable s w p op d now) db.passkey_authorizations
        (All-map _ (λ r u. ground arith) v.used),
  )

  -- From the empty database, whatever was recorded and consumed before: a call that is authorized for
  -- an operation uses its authorization up. No later call is authorized for the same wallet, purpose,
  -- operation and digest, whatever is recorded and consumed in between, and whatever the time.
  pub authorized_once :
      (w p op d : Text) (mark now mark' now' : ℕ) (before after : List (ℕ × Call))
      → (consume_passkey_authorization s w p op d mark now (run before empty_db)).0 ≡ true
      → (consume_passkey_authorization s w p op d mark' now'
          (run after (consume_passkey_authorization s w p op d mark now (run before empty_db)).1)).0
        ≡ false
  unfolding count_where
  authorized_once w p op d mark now mark' now' before after h =
      spent_refused w p op d mark' now' _ (
        run-IsSpent w p op d after _ (
          consume_spends w p op d mark now _ (run-OneEach before empty_db (λ _ _ _ _. omega arith))
            h))
