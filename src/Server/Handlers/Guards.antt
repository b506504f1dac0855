-- ===== src/Server/Handlers/Guards.antt =====
-- What a handler of crates/mpc-server/src/recovery.rs has checked when it replies or writes.
use mpc_ext.Base.{
  ℕ, ◌≡◌, ◌⊎◌, refl, Option, none, some, Bool, true, false, arith, Option-cases, Bool-cases, inl,
  inr, ◌∙◌, ap, sym, subst,
}
use mpc_ext.Server.Types.{Text, Blob, Db, RecoveryRequest, recovery}
use mpc_ext.Server.Clock.{Stamps}
use mpc_ext.Server.Auth.{
  Proof, Verifier, Reading, Access, granted, denied, authenticate_with_key, read_headers,
  authenticate_headers, reserve_device_nonce,
}
use mpc_ext.Server.Grants.{consume_passkey_authorization}
use mpc_ext.Server.Recovery.{done, recovery_request, complete_recovery, device_key}
use mpc_ext.Server.Recovery.Completion.{IsReady, complete_replaces_key}
use mpc_ext.Server.Handlers.{
  RecoveryCall, Formats, Moments, Reply, reply, failed, post, complete_path, status_path, admit,
  check_own_key, check_found, authenticated_request, complete_admitted, answer_completion, complete,
  after_grant, look_for_grant, report, status, is_awaiting_state,
}
use mpc_ext.Server.Recovery.State.{state_of}

some_inj : {A : Type 0} {x y : A} → some x ≡ some y → x ≡ y
some_inj {x = x} e = ap (λ o. elim o [ some z ↦ z | none ↦ x ]) e

module _ (s : Stamps) (v : Verifier) where
  -- A proof writes nothing but nonces.
  authenticate_headers-requests :
      (method path w raw : Text) (key : Blob) (t : Reading) (timestamp : ℕ) (nonce signature : Text)
      (db : Db)
      → (authenticate_headers s v method path w raw key t timestamp nonce signature
          db).1.recovery_requests
        ≡ db.recovery_requests
  unfolding authenticate_headers reserve_device_nonce
  authenticate_headers-requests method path w raw key t timestamp nonce signature db = ground arith

  read_headers-requests :
      (method path w raw : Text) (key : Blob) (t : Reading) (timestamp : Option ℕ)
      (nonce signature : Option Text) (db : Db)
      → (read_headers s v method path w raw key t timestamp nonce signature db).1.recovery_requests
        ≡ db.recovery_requests
  unfolding read_headers
  read_headers-requests method path w raw key t (some timestamp) (some nonce) (some signature) db =
      authenticate_headers-requests method path w raw key t timestamp nonce signature db
  read_headers-requests method path w raw key t none _ signature db = refl
  read_headers-requests method path w raw key t (some _) none signature db = refl
  read_headers-requests method path w raw key t (some _) (some _) none db = refl

  authenticate_with_key-requests :
      (method path w raw : Text) (key : Blob) (p : Proof) (t : Reading) (db : Db)
      → (authenticate_with_key s v method path w raw key p t db).1.recovery_requests
        ≡ db.recovery_requests
  unfolding authenticate_with_key
  authenticate_with_key-requests method path w raw key p t db =
      read_headers-requests method path w raw key t p.timestamp p.nonce p.signature db

module _ (s : Stamps) (v : Verifier) (f : Formats) where
  -- A request that a call named and proved: it is stored under the call's ids, and the proof verified
  -- against the key that it names.
  pub IsOwned : Text → RecoveryCall → Text → Proof → Reading → Db → RecoveryRequest → Type 0
  IsOwned path call raw p t db r =
      (key : Blob) × (recovery_request call.request_id call.wallet_id db ≡ some r)
      × (r.new_device_key ≡ some key)
      × ((authenticate_with_key s v post path call.wallet_id raw key p t db).0 ≡ granted)

  admit-reply :
      (r q : RecoveryRequest) (a : Access × Db)
      → (admit s v f r a).0 ≡ reply q
      → (a.0 ≡ granted) × (r ≡ q)
  unfolding admit
  admit-reply r q (granted, db) h = (refl, ground arith)
  admit-reply r q (denied e, db) h = ground arith

  check_own_key-reply :
      (path : Text) (call : RecoveryCall) (raw : Text) (p : Proof) (t : Reading) (db : Db)
      (r q : RecoveryRequest) (o : Option Blob)
      → recovery_request call.request_id call.wallet_id db ≡ some r
      → r.new_device_key ≡ o
      → (check_own_key s v f path call.wallet_id raw p t db r o).0 ≡ reply q
      → IsOwned path call raw p t db q
  unfolding check_own_key IsOwned
  check_own_key-reply path call raw p t db r q none found k h = ground arith
  check_own_key-reply path call raw p t db r q (some key) found k h =
      let (g, e) = admit-reply r q _ h in (key, ground (arith, found, e), ground (arith, k, e), g)

  check_found-reply :
      (path : Text) (call : RecoveryCall) (raw : Text) (p : Proof) (t : Reading) (db : Db)
      (q : RecoveryRequest) (o : Option RecoveryRequest)
      → recovery_request call.request_id call.wallet_id db ≡ o
      → (check_found s v f path call.wallet_id raw p t db o).0 ≡ reply q
      → IsOwned path call raw p t db q
  unfolding check_found
  check_found-reply path call raw p t db q none found h = ground arith
  check_found-reply path call raw p t db q (some r) found h =
      check_own_key-reply path call raw p t db r q r.new_device_key found refl h

  authenticated_request-reply :
      (path : Text) (call : RecoveryCall) (raw : Text) (p : Proof) (t : Reading) (db : Db)
      (q : RecoveryRequest)
      → (authenticated_request s v f path call raw p t db).0 ≡ reply q
      → IsOwned path call raw p t db q
  unfolding authenticated_request
  authenticated_request-reply path call raw p t db q h =
      check_found-reply path call raw p t db q (recovery_request call.request_id call.wallet_id db)
        refl (ground arith)

  admit-requests :
      (r : RecoveryRequest) (a : Access × Db)
      → (admit s v f r a).1.recovery_requests ≡ a.1.recovery_requests
  unfolding admit
  admit-requests r (granted, _) = refl
  admit-requests r (denied _, _) = refl

  check_own_key-requests :
      (path w raw : Text) (p : Proof) (t : Reading) (db : Db) (r : RecoveryRequest)
      (o : Option Blob)
      → (check_own_key s v f path w raw p t db r o).1.recovery_requests ≡ db.recovery_requests
  unfolding check_own_key admit
  check_own_key-requests path w raw p t db r none = refl
  check_own_key-requests path w raw p t db r (some key) =
      admit-requests r (authenticate_with_key s v post path w raw key p t db)
      ∙ authenticate_with_key-requests s v post path w raw key p t db

  authenticated_request-requests :
      (path : Text) (call : RecoveryCall) (raw : Text) (p : Proof) (t : Reading) (db : Db)
      → (authenticated_request s v f path call raw p t db).1.recovery_requests
        ≡ db.recovery_requests
  unfolding authenticated_request check_found
  authenticated_request-requests path call raw p t db =
      elim (Option-cases (recovery_request call.request_id call.wallet_id db)) [
        | inl miss ↦ ground (arith, miss)
        | inr (r, found) ↦
            ground (
              arith,
              found,
              check_own_key-requests path call.wallet_id raw p t db r r.new_device_key,
            )
      ]

  complete_admitted-reply :
      (call : RecoveryCall) (now : ℕ) (a : Reply RecoveryRequest × Db)
      → (complete_admitted s v f call now a).0 ≡ reply tt
      → (r : RecoveryRequest) × (a.0 ≡ reply r)
        × ((complete_recovery call.request_id call.wallet_id now a.1).0 ≡ done)
        × ((complete_admitted s v f call now a).1
            ≡ (complete_recovery call.request_id call.wallet_id now a.1).1)
  unfolding complete_admitted answer_completion
  complete_admitted-reply call now (failed e, db) h = ground arith
  complete_admitted-reply call now (reply r, db) h = (r, refl, ground arith, ground arith)

  same_request :
      (rid w : Text) (db after : Db)
      → after.recovery_requests ≡ db.recovery_requests
      → recovery_request rid w after ≡ recovery_request rid w db
  unfolding recovery_request
  same_request rid w db after e = rw e refl

  -- The complete handler answers with success only if the call named a stored request of the wallet,
  -- proved the key that this request names, and the request was cooling, past its cooling-off period
  -- and within its window; the wallet's device key is then the request's, in the database that the
  -- handler leaves, which is the one that the store's completion after that proof leaves.
  pub complete_guarded :
      (call : RecoveryCall) (raw : Text) (p : Proof) (t : Reading) (now : ℕ) (db : Db)
      → (complete s v f call raw p t now db).0 ≡ reply tt
      → (r : RecoveryRequest) × (key : Blob) × IsOwned complete_path call raw p t db r
        × IsReady r key now
        × (device_key call.wallet_id (complete s v f call raw p t now db).1 ≡ some key)
        × ((complete s v f call raw p t now db).1
            ≡ (complete_recovery call.request_id call.wallet_id now
                (authenticated_request s v f complete_path call raw p t db).1).1)
  unfolding complete IsOwned
  complete_guarded call raw p t now db h =
      let after = (authenticated_request s v f complete_path call raw p t db).1 in
      let (r, e, d, left) = complete_admitted-reply call now _ h in
      let owned = authenticated_request-reply complete_path call raw p t db r e in
      let (q, key, found, ready, changed, _, _) =
        complete_replaces_key call.request_id call.wallet_id now after d in
      let same =
        same_request call.request_id call.wallet_id db after
          (authenticated_request-requests complete_path call raw p t db) in
      let one : q ≡ r = some_inj (sym found ∙ same ∙ owned.1) in
      (
        r,
        key,
        owned,
        subst (λ x. IsReady x key now) one ready,
        ap (device_key call.wallet_id) left ∙ changed,
        left,
      )

  -- The passkey grant for a request: unused, unexpired, and bound to the wallet, the request and the
  -- key that would take over.
  pub HasGrant : RecoveryCall → Moments → RecoveryRequest → Db → Type 0
  HasGrant call m r db =
      (key : Blob) × (r.new_device_key ≡ some key)
      × ((consume_passkey_authorization s call.wallet_id recovery call.request_id
            (f.assertion_digest call.wallet_id key call.request_id) m.mark m.grant db).0
          ≡ true)

  after_grant-requests :
      (cooling_seconds : ℕ) (call : RecoveryCall) (m : Moments) (r : RecoveryRequest)
      (g : Bool × Db)
      → ((after_grant s v f cooling_seconds call m r g).1.recovery_requests ≡ g.1.recovery_requests)
        ⊎ (g.0 ≡ true)
  unfolding after_grant
  after_grant-requests cooling_seconds call m r (true, db) = inr refl
  after_grant-requests cooling_seconds call m r (false, db) = inl refl

  look_for_grant-requests :
      (cooling_seconds : ℕ) (call : RecoveryCall) (m : Moments) (r : RecoveryRequest)
      (o : Option Blob) (db : Db)
      → r.new_device_key ≡ o
      → ((look_for_grant s v f cooling_seconds call m r o db).1.recovery_requests
          ≡ db.recovery_requests)
        ⊎ HasGrant call m r db
  unfolding look_for_grant consume_passkey_authorization HasGrant
  look_for_grant-requests cooling_seconds call m r none db k = inl refl
  look_for_grant-requests cooling_seconds call m r (some key) db k =
      elim (after_grant-requests cooling_seconds call m r (
        consume_passkey_authorization s call.wallet_id recovery call.request_id
          (f.assertion_digest call.wallet_id key call.request_id) m.mark m.grant db)) [
            | inl same ↦ inl same
            | inr used ↦ inr (key, k, used)
          ]

  report-requests :
      (cooling_seconds : ℕ) (call : RecoveryCall) (m : Moments) (a : Reply RecoveryRequest × Db)
      → ((report s v f cooling_seconds call m a).1.recovery_requests ≡ a.1.recovery_requests)
        ⊎ ((r : RecoveryRequest) × (a.0 ≡ reply r) × HasGrant call m r a.1)
  unfolding report
  report-requests cooling_seconds call m (failed e, db) = inl refl
  report-requests cooling_seconds call m (reply r, db) =
      elim (Bool-cases (is_awaiting_state (state_of r m.first))) [
        | inr other ↦ inl (ground arith)
        | inl waits ↦
            elim (look_for_grant-requests cooling_seconds call m r r.new_device_key db refl) [
              | inl same ↦ inl (ground (arith, same))
              | inr grant ↦ inr (r, refl, grant)
            ]
      ]

  -- The status handler either leaves every recovery request as it was, or the call proved the key of
  -- a stored request and found an unused passkey grant that is bound to that key.
  pub status_needs_grant :
      (cooling_seconds : ℕ) (call : RecoveryCall) (raw : Text) (p : Proof) (m : Moments) (db : Db)
      → ((status s v f cooling_seconds call raw p m db).1.recovery_requests ≡ db.recovery_requests)
        ⊎ ((r : RecoveryRequest) × IsOwned status_path call raw p m.proof db r
            × HasGrant call m r (authenticated_request s v f status_path call raw p m.proof db).1)
  unfolding status
  status_needs_grant cooling_seconds call raw p m db =
      elim (report-requests cooling_seconds call m
        (authenticated_request s v f status_path call raw p m.proof db)) [
          | inl same ↦ inl (same ∙ authenticated_request-requests status_path call raw p m.proof db)
          | inr (r, e, grant) ↦
              inr (r, authenticated_request-reply status_path call raw p m.proof db r e, grant)
        ]
