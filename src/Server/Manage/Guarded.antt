-- ===== src/Server/Manage/Guarded.antt =====
-- What stands behind a cancel on the management page, crates/mpc-server/src/manage.rs.
use mpc_ext.Base.{
  ℕ, ◌≡◌, ◌⊎◌, refl, inl, inr, List, Option, none, some, true, false, ◌==◌, arith, Bool-cases,
  Option-cases,
}
use mpc_ext.Server.Types.{Text, Error, Db, RecoveryRequest}
use mpc_ext.Server.Clock.{Stamps}
use mpc_ext.Server.Auth.{Verifier}
use mpc_ext.Server.Recovery.{cancel_recovery}
use mpc_ext.Server.Credentials.{manage_session_wallet}
use mpc_ext.Server.Handlers.{Formats, reply, failed}
use mpc_ext.Server.Steps.{◌>>=◌, follow, query_writing, check, Host}
use mpc_ext.Server.Steps.Keeps.{check_keeps}
use mpc_ext.Server.Passkeys.{Webauthn}
use mpc_ext.Server.Manage.{Site, token_of, require_origin, session_wallet, view, manage_cancel}

module _ (h : Host) (a : Webauthn) (s : Stamps) (v : Verifier) (f : Formats) (site : Site) where
  abbrev requests : Db → List RecoveryRequest
  requests db = db.recovery_requests

  -- The page's own origin, and a token in the cookie whose session is live; the request is one of the
  -- session's wallet that can be cancelled.
  unfoldable pub MayCancel : Text → Option Text → Option (List ℕ) → ℕ → Db → Type 0
  MayCancel request_id origin cookie now db =
      (token : List ℕ) × (w : Text) × (origin ≡ some site.origin)
      × (token_of cookie ≡ some token)
      × (manage_session_wallet (site.session_hash token) now db ≡ some w)
      × ((cancel_recovery request_id w db).0 ≡ true)

  refused_same :
      (request_id w : Text) (db : Db)
      → (cancel_recovery request_id w db).0 ≡ false
      → requests (cancel_recovery request_id w db).1 ≡ requests db
  unfolding cancel_recovery
  refused_same request_id w db refused = ground arith

  session_wallet-cases :
      (cookie : Option (List ℕ)) (now : ℕ) (db : Db)
      → ((e : Error) × (session_wallet site cookie now db ≡ (failed e, db)))
        ⊎ ((token : List ℕ) × (w : Text) × (session_wallet site cookie now db ≡ (reply w, db))
            × (token_of cookie ≡ some token)
            × (manage_session_wallet (site.session_hash token) now db ≡ some w))
  unfolding session_wallet
  session_wallet-cases cookie now db = elim (Option-cases (token_of cookie)) [
    | inl none_there ↦ inl (Error.authentication, rw none_there refl)
    | inr (token, there) ↦
        elim (Option-cases (manage_session_wallet (site.session_hash token) now db)) [
          | inl no_session ↦ inl (Error.authentication, rw (there, no_session) refl)
          | inr (w, live) ↦ inr (token, w, rw (there, live) refl, there, live)
        ]
  ]

  -- Once the session's wallet is known.
  cancel_keeps :
      (request_id w : Text) (seen : ℕ) (db : Db)
      → (requests
            (follow (query_writing (cancel_recovery request_id w) db) (λ cancelled.
              check Error.unknown_session cancelled >>= (λ _. view h a s v f site w seen))).1
          ≡ requests db)
        ⊎ ((cancel_recovery request_id w db).0 ≡ true)
  cancel_keeps request_id w seen db = elim (Bool-cases (cancel_recovery request_id w db).0) [
    | inl done ↦ inr done
    | inr refused ↦ inl (rw refused (refused_same request_id w db refused))
  ]

  -- A cancel on the management page leaves the recovery requests as they were, unless it came from the
  -- page's own origin, with a cookie whose token opened a session that is still live, and the request
  -- is one of that session's wallet that can be cancelled.
  pub manage_cancel_guarded :
      (request_id : Text) (origin : Option Text) (cookie : Option (List ℕ)) (now seen : ℕ) (db : Db)
      → ((manage_cancel h a s v f site request_id origin cookie now seen db).1.recovery_requests
          ≡ db.recovery_requests)
        ⊎ MayCancel request_id origin cookie now db
  unfolding manage_cancel require_origin MayCancel
  manage_cancel_guarded request_id none cookie now seen db = inl refl
  manage_cancel_guarded request_id (some origin) cookie now seen db =
      check_keeps requests Error.authentication (origin == site.origin) _ db (λ same.
        elim (session_wallet-cases cookie now db) [
          | inl (e, failing) ↦ rw failing (inl refl)
          | inr (token, w, found, read, live) ↦ elim (cancel_keeps request_id w seen db) [
            | inl kept ↦ rw found (inl kept)
            | inr cancelled ↦ inr (token, w, ground arith, read, live, cancelled)
          ]
        ])
