-- ===== src/Server/Grants/Challenges.antt =====
-- The answers to one passkey challenge (crates/mpc-server/src/store.rs) across a history of calls.
use mathlib.Core.Option
use mpc_ext.Base.{
  sym, ap, count_where_mono, All-of_find_where-none, count_where-pos_of_found,
  All-update_where_only, ◌≤◌, count_where, count_where-zero_of_find_where,
  count_where-update_where_same, Bool-cases, ℕ, ◌≡◌, refl, List, [], ◌∷◌, Option, none, some, Bool,
  true, false, arith, All, is_some, ◌==◌, find_where, All-update_where, find_where-none,
  All-find_where, find_where_holds, All-map, Option-cases, inl, inr, is_some-find_where_weaken,
  find_where-update_where, is_some-map, ◌∙◌,
}
use mpc_ext.Server.Types.{Text, Blob, ChallengeRow, Db, empty_db}
use mpc_ext.Server.Clock.{Stamps}
use mpc_ext.Server.Grants.{
  is_answerable, put_passkey_challenge_with_binding, take_passkey_challenge_with_binding,
}

pub data Call : Type 0 where
  puts : Text → Text → Text → Blob → Blob → ℕ → Call
  takes : Text → Text → Text → Call

map-some {ℓ κ} :
    {A : Type ℓ} {B : Type κ} (f : A → B) (o : Option A) (b : B)
    → Option.map f o ≡ some b
    → (a : A) × (o ≡ some a) × (f a ≡ b)
map-some f none b h = cc
map-some f (some a) b h = (a, refl, ground arith)

module _ (s : Stamps) where
  unfoldable pub step : ℕ × Call → Db → Db
  step (now, puts c w p challenge binding ttl) db =
      (put_passkey_challenge_with_binding c w p challenge binding ttl now db).1
  step (now, takes c w p) db = (take_passkey_challenge_with_binding s c w p now db).1

  unfoldable pub run : List (ℕ × Call) → Db → Db
  run [] db = db
  run (c ∷ cs) db = run cs (step c db)

  abbrev pub has_id : Text → ChallengeRow → Bool
  has_id c r = r.challenge_id == c

  -- The primary key.
  abbrev pub OneEach : Db → Type 0
  OneEach db = (c : Text) → count_where (has_id c) db.passkey_challenges ≤ 1

  step-OneEach : (c : ℕ × Call) (db : Db) → OneEach db → OneEach (step c db)
  unfolding step put_passkey_challenge_with_binding take_passkey_challenge_with_binding count_where
  step-OneEach (now, puts c w p challenge binding ttl) db h c' = elim (Bool-cases (c == c')) [
    | inl same ↦
        let e : c ≡ c' = ground arith in
        rw e
          (ground (arith, h c', count_where-zero_of_find_where (has_id c') db.passkey_challenges))
    | inr other ↦ ground (arith, h c')
  ]
  step-OneEach (now, takes c w p) db h c' = omega (
    arith,
    h c',
    count_where-update_where_same (has_id c') (is_answerable s c w p now)
        (λ r. record r { used_at = some now }) db.passkey_challenges (λ r _. refl),
  )

  run-OneEach : (cs : List (ℕ × Call)) (db : Db) → OneEach db → OneEach (run cs db)
  unfolding run
  run-OneEach [] db h = h
  run-OneEach (c ∷ cs) db h = run-OneEach cs (step c db) (step-OneEach c db h)

  -- Some row has the id, and `P` holds of every row that has it.
  pub record IsKept {ℓ} (P : ChallengeRow → Type ℓ) (c : Text) (rows : List ChallengeRow)
      : Type ℓ where
    pub there : is_some (find_where (has_id c) rows) ≡ true
    pub all : All (λ r. has_id c r ≡ true → P r) rows

  -- A row with another id goes in front.
  cons_row {ℓ} :
      (P : ChallengeRow → Type ℓ) (c : Text) (x : ChallengeRow) (rows : List ChallengeRow)
      → has_id c x ≡ false
      → IsKept P c rows
      → IsKept P c (x ∷ rows)
  unfolding find_where
  cons_row P c x rows other k = record {
    there = ground (arith, k.there);
    all = (λ e. absurd (cc (sym other ∙ e)), k.all);
  }

  fresh_id :
      (c c' : Text) (rows : List ChallengeRow)
      → is_some (find_where (has_id c) rows) ≡ true
      → is_some (find_where (has_id c') rows) ≡ false
      → (c' == c) ≡ false
  fresh_id c c' rows there new = elim (Bool-cases (c' == c)) [
    | inl same ↦
        let e : c' ≡ c = ground arith in
        let clash : is_some (find_where (has_id c) rows) ≡ false = rw e at new in cc (there, clash)
    | inr other ↦ other
  ]

  -- A property of the row that marking it used does not change is kept by every call.
  step-IsKept {ℓ} :
      (P : ChallengeRow → Type ℓ) (c : Text) (x : ℕ × Call) (db : Db)
      → ((r : ChallengeRow) (now : ℕ) → P r → P (record r { used_at = some now }))
      → IsKept P c db.passkey_challenges
      → IsKept P c (step x db).passkey_challenges
  unfolding step put_passkey_challenge_with_binding take_passkey_challenge_with_binding
  step-IsKept P c (now, puts c' w p challenge binding ttl) db mark k =
      elim (Bool-cases (is_some (find_where (has_id c') db.passkey_challenges))) [
        | inl old ↦ rw (old, step, put_passkey_challenge_with_binding) k
        | inr new ↦
            rw (new, step, put_passkey_challenge_with_binding)
              (cons_row P c _ db.passkey_challenges
                (fresh_id c c' db.passkey_challenges k.there new) k)
      ]
  step-IsKept P c (now, takes c' w p) db mark k = record {
    there =
        rw
          (find_where-update_where (has_id c) (is_answerable s c' w p now)
            (λ r. record r { used_at = some now }) db.passkey_challenges (λ r. refl))
          (is_some-map _ (find_where (has_id c) db.passkey_challenges) ∙ k.there);
    all = All-update_where _ _ _ db.passkey_challenges (λ r u keep id. mark r now (keep id)) k.all;
  }

  run-IsKept {ℓ} :
      (P : ChallengeRow → Type ℓ) (c : Text) (xs : List (ℕ × Call)) (db : Db)
      → ((r : ChallengeRow) (now : ℕ) → P r → P (record r { used_at = some now }))
      → IsKept P c db.passkey_challenges
      → IsKept P c (run xs db).passkey_challenges
  unfolding run
  run-IsKept P c [] db mark k = k
  run-IsKept P c (x ∷ xs) db mark k =
      run-IsKept P c xs (step x db) mark (step-IsKept P c x db mark k)

  abbrev pub IsUsed : ChallengeRow → Type 0
  IsUsed r = is_some r.used_at ≡ true

  take_uses :
      (c w p : Text) (now : ℕ) (a : Blob × Blob) (db : Db)
      → OneEach db
      → (take_passkey_challenge_with_binding s c w p now db).0 ≡ some a
      → IsKept IsUsed c (take_passkey_challenge_with_binding s c w p now db).1.passkey_challenges
  unfolding take_passkey_challenge_with_binding
  take_uses c w p now a db each h =
      let (r, found, _) =
        map-some (λ r. (r.challenge, r.binding))
          (find_where (is_answerable s c w p now) db.passkey_challenges) a h in
      let pos =
        count_where-pos_of_found (is_answerable s c w p now) db.passkey_challenges r found in
      let le =
        count_where_mono (is_answerable s c w p now) (has_id c) db.passkey_challenges
          (λ r u. ground arith) in
      record {
        there =
            rw
              (find_where-update_where (has_id c) (is_answerable s c w p now)
                (λ r. record r { used_at = some now }) db.passkey_challenges (λ r. refl))
              (is_some-map _ (find_where (has_id c) db.passkey_challenges)
                ∙ is_some-find_where_weaken (is_answerable s c w p now) (has_id c)
                    db.passkey_challenges (λ r u. ground arith) (ap is_some found));
        all =
            All-update_where_only _ (is_answerable s c w p now) (has_id c) _ db.passkey_challenges
              (λ r u. ground arith) (λ r u e. refl) (λ r no_id e. absurd (cc (sym no_id ∙ e)))
              (each c) (omega (arith, pos, le, each c));
      }

  used_refused :
      (c w p : Text) (now : ℕ) (db : Db)
      → IsKept IsUsed c db.passkey_challenges
      → (take_passkey_challenge_with_binding s c w p now db).0 ≡ none
  unfolding take_passkey_challenge_with_binding
  used_refused c w p now db k = ap (Option.map (λ r. (r.challenge, r.binding))) (
      find_where-none (is_answerable s c w p now) db.passkey_challenges
        (All-map _ (λ r u. not_answerable c w p now r u) k.all))
    where
      not_answerable :
          (c w p : Text) (now : ℕ) (r : ChallengeRow)
          → (has_id c r ≡ true → IsUsed r)
          → is_answerable s c w p now r ≡ false
      not_answerable c w p now r u = elim (Bool-cases (has_id c r)) [
        | inl e ↦ ground (arith, u e)
        | inr e ↦ ground arith
      ]

  -- From the empty database, whatever was stored and taken before: a challenge that is taken is used
  -- up. No later call takes it, for whatever wallet and purpose, whatever comes in between, and
  -- whatever the time.
  pub challenge_taken_once :
      (c w p w' p' : Text) (now now' : ℕ) (a : Blob × Blob) (before after : List (ℕ × Call))
      → (take_passkey_challenge_with_binding s c w p now (run before empty_db)).0 ≡ some a
      → (take_passkey_challenge_with_binding s c w' p' now'
          (run after (take_passkey_challenge_with_binding s c w p now (run before empty_db)).1)).0
        ≡ none
  unfolding count_where
  challenge_taken_once c w p w' p' now now' a before after h = used_refused c w' p' now' _ (
      run-IsKept IsUsed c after _ (λ r t u. refl)
        (take_uses c w p now a _ (run-OneEach before empty_db (λ _. omega arith)) h))

  -- What a challenge was made for: no call changes it.
  abbrev pub IsFor : Text → Text → Blob → Blob → ChallengeRow → Type 0
  IsFor w p challenge binding r =
      (r.wallet_id ≡ w) × (r.purpose ≡ p) × (r.challenge ≡ challenge) × (r.binding ≡ binding)

  put_row-IsFor :
      (c w p : Text) (challenge binding : Blob) (ttl now : ℕ) (db : Db)
      → (put_passkey_challenge_with_binding c w p challenge binding ttl now db).0 ≡ true
      → IsKept
          (IsFor w p challenge binding)
          c
          (put_passkey_challenge_with_binding c w p challenge binding ttl now
            db).1.passkey_challenges
  unfolding put_passkey_challenge_with_binding find_where
  put_row-IsFor c w p challenge binding ttl now db h =
      elim (Option-cases (find_where (has_id c) db.passkey_challenges)) [
        | inl e ↦
            rw (e, put_passkey_challenge_with_binding)
              (record {
                there = ground arith;
                all = (
                  λ _. (refl, refl, refl, refl),
                  All-map db.passkey_challenges (λ r no_id id. absurd (cc (sym no_id ∙ id)))
                      (All-of_find_where-none (has_id c) db.passkey_challenges e),
                );
              })
        | inr (r, e) ↦ absurd (ground (arith, e))
      ]

  take_found :
      (c w p : Text) (now : ℕ) (a : Blob × Blob) (db : Db)
      → (take_passkey_challenge_with_binding s c w p now db).0 ≡ some a
      → (r : ChallengeRow) × (find_where (is_answerable s c w p now) db.passkey_challenges ≡ some r)
        × ((r.challenge, r.binding) ≡ a)
  unfolding take_passkey_challenge_with_binding
  take_found c w p now a db h =
      map-some (λ r. (r.challenge, r.binding))
        (find_where (is_answerable s c w p now) db.passkey_challenges) a h

  -- A challenge that was stored answers only to the wallet and the purpose that it was stored for, and
  -- gives back exactly the state and the binding that were stored, whatever comes in between.
  pub challenge_bound :
      (c w p w' p' : Text) (challenge binding : Blob) (ttl now now' : ℕ) (a : Blob × Blob)
      (between : List (ℕ × Call)) (db : Db)
      → (put_passkey_challenge_with_binding c w p challenge binding ttl now db).0 ≡ true
      → (take_passkey_challenge_with_binding s c w' p' now'
          (run between (put_passkey_challenge_with_binding c w p challenge binding ttl now db).1)).0
        ≡ some a
      → (w' ≡ w) × (p' ≡ p) × (a ≡ (challenge, binding))
  challenge_bound c w p w' p' challenge binding ttl now now' a between db h h' =
      let stored = (put_passkey_challenge_with_binding c w p challenge binding ttl now db).1 in
      let kept =
        run-IsKept (IsFor w p challenge binding) c between stored (λ r t u. u)
          (put_row-IsFor c w p challenge binding ttl now db h) in
      let (r, found, same) = take_found c w' p' now' a (run between stored) h' in
      let asked = find_where_holds _ _ r found in
      let id : has_id c r ≡ true = ground arith in
      let made =
        All-find_where (λ r. has_id c r ≡ true → IsFor w p challenge binding r) _ _ r kept.all found
          id in
      (ground (arith, asked, made), ground (arith, asked, made), ground (arith, same, made))
