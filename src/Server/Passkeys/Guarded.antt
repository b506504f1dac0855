-- ===== src/Server/Passkeys/Guarded.antt =====
-- What stands behind a passkey grant of crates/mpc-server/src/passkey.rs.
use mathlib.Core.Option
use mpc_ext.Base.{
  ℕ, length, leb, ◌≡◌, ◌⊎◌, ◌∙◌, refl, ap, sym, find_where, inl, inr, List, some, ◌==◌, arith,
}
use mpc_ext.Server.Types.{Text, Blob, Error, Db, AuthorizationRow, CredentialRow, assert}
use mpc_ext.Server.Clock.{Stamps}
use mpc_ext.Server.Auth.{Proof, Verifier, Reading, granted, authenticate}
use mpc_ext.Server.Grants.{is_answerable, take_passkey_challenge_with_binding}
use mpc_ext.Server.Credentials.{passkey_credential, update_passkey_credential, read_credential}
use mpc_ext.Server.Handlers.{reply, post}
use mpc_ext.Server.Steps.{query_writing, write, Host}
use mpc_ext.Server.Steps.Keeps.{
  authenticate_keeps, admit_keeps, follow_keeps, check-reply, need-reply, reply_inj, Keeps,
  need-Keeps, check-Keeps, answer-Keeps, bind-Keeps, follow-Keeps,
}
use mpc_ext.Server.Passkeys.{
  Webauthn, max_credential_json_bytes, StoredCredential, AssertFinishRequest, credential_bytes,
  check_assertion, identify, read_handle, verify_and_advance, take_bound, verify_assertion,
}
use mpc_ext.Server.Passkeys.Proved.{IsProved, verify_and_advance-IsProved}
use mpc_ext.Server.Passkeys.Checks.{
  validate_assertion_finish, validate_wallet_id, validate_challenge_id, validate_purpose,
  validate_operation_id, validate_digest,
}
use mpc_ext.Server.Passkeys.Endpoints.{assert_finish, assert_finish_path}

module _ (h : Host) (a : Webauthn) where
  -- The rows of the grants.
  abbrev grants : Db → List AuthorizationRow
  grants db = db.passkey_authorizations

  abbrev credentials : Db → List CredentialRow
  credentials db = db.passkey_credentials

  -- The answer's proof depends on the stored credentials only.
  same_proof :
      (w : Text) (server_state json : Blob) (db after : Db)
      → credentials after ≡ credentials db
      → IsProved h a w server_state json after
      → IsProved h a w server_state json db
  unfolding IsProved passkey_credential
  same_proof w server_state json db after same
        (
          state, authentication, bytes, count, stored, verified, decoded, parsed, read, kept,
          accepted,
        ) =
      (
        state,
        authentication,
        bytes,
        count,
        stored,
        verified,
        decoded,
        parsed,
        ap (λ rows. read_credential (find_where (λ r. r.wallet_id == w) rows)) (sym same) ∙ read,
        kept,
        accepted,
      )

  credential_bytes-reply :
      (credential : Text) (json : Blob) (db : Db)
      → (credential_bytes h a credential db).0 ≡ reply json
      → a.value_to_json credential ≡ some json
  unfolding credential_bytes
  credential_bytes-reply credential json db ok_h =
      let (bytes, carried, h₁) =
        need-reply Error.protocol (a.value_to_json credential) _ json db ok_h in
      let (_, h₂) =
        check-reply Error.protocol (leb (length (h.bytes bytes)) max_credential_json_bytes) _ json _
          h₁ in
      carried ∙ ap some (reply_inj h₂)

  credential_bytes-Keeps :
      {X : Type 0} (look : Db → X) (credential : Text)
      → Keeps look (credential_bytes h a credential)
  unfolding credential_bytes
  credential_bytes-Keeps look credential =
      bind-Keeps look _ _ (need-Keeps look Error.protocol (a.value_to_json credential)) (λ bytes.
        bind-Keeps look _ _ (check-Keeps look Error.protocol _) (λ _. answer-Keeps look bytes))

  read_handle-Keeps : (stored : StoredCredential) → Keeps grants (read_handle h a stored)
  unfolding read_handle
  read_handle-Keeps stored =
      bind-Keeps grants _ _ (check-Keeps grants Error.authentication _)
        (λ _. need-Keeps grants Error.authentication (a.decode_handle stored.user_id))

  identify-Keeps :
      (authentication : a.Authentication) (stored : StoredCredential) (count : ℕ)
      → Keeps grants (identify h a authentication stored count)
  unfolding identify
  identify-Keeps authentication stored count =
      let E : Error = Error.authentication in
      bind-Keeps grants _ _ (read_handle-Keeps stored) (λ handle.
        bind-Keeps grants _ _ (need-Keeps grants E (a.raw_id authentication)) (λ id.
          bind-Keeps grants _ _ (check-Keeps grants E (id == stored.id)) (λ _.
            bind-Keeps grants _ _ (need-Keeps grants E (a.decode_static stored.static_state))
              (λ static. bind-Keeps grants _ _ (check-Keeps grants E (a.is_p256 static)) (λ _.
                bind-Keeps grants _ _ (need-Keeps grants E (a.decode_dynamic stored.dynamic_state))
                  (λ dynamic.
                    bind-Keeps grants _ _ (check-Keeps grants E (a.sign_count dynamic == count))
                      (λ _.
                        need-Keeps grants E (a.assemble authentication handle static dynamic))))))))

  check_assertion-Keeps :
      (state : a.ServerState) (authentication : a.Authentication) (stored : StoredCredential)
      (count : ℕ)
      → Keeps grants (check_assertion h a state authentication stored count)
  unfolding check_assertion
  check_assertion-Keeps state authentication stored count =
      bind-Keeps grants _ _ (need-Keeps grants Error.config a.rp_id) (λ rp_id.
        bind-Keeps grants _ _ (need-Keeps grants Error.config a.origin) (λ origin.
          bind-Keeps grants _ _ (identify-Keeps authentication stored count) (λ credential.
            bind-Keeps grants _ _
              (need-Keeps grants Error.authentication
                (a.verify rp_id origin state authentication credential))
              (λ verified.
                bind-Keeps grants _ _
                  (check-Keeps grants Error.authentication verified.user_verified)
                  (λ _. answer-Keeps grants verified)))))

  passkey_credential-Keeps : (w : Text) → Keeps grants (passkey_credential w)
  unfolding passkey_credential Keeps
  passkey_credential-Keeps w db = refl

  update-Keeps :
      (w : Text) (credential : Blob) (count : ℕ)
      → Keeps grants (write (update_passkey_credential w credential count))
  unfolding update_passkey_credential Keeps
  update-Keeps w credential count db = refl

  verify_and_advance-Keeps :
      (w : Text) (server_state json : Blob)
      → Keeps grants (verify_and_advance h a w server_state json)
  unfolding verify_and_advance
  verify_and_advance-Keeps w server_state json =
      bind-Keeps grants _ _ (need-Keeps grants Error.protocol (a.decode_state server_state))
        (λ state.
          bind-Keeps grants _ _ (need-Keeps grants Error.protocol (a.parse_authentication json))
            (λ authentication. bind-Keeps grants _ _ (passkey_credential-Keeps w) (λ found.
              bind-Keeps grants _ _ (need-Keeps grants Error.authentication found) (λ read.
                bind-Keeps grants _ _ (need-Keeps grants Error.protocol (a.stored_from_json read.0))
                  (λ stored.
                    bind-Keeps grants _ _ (check_assertion-Keeps state authentication stored read.1)
                      (λ verified.
                        bind-Keeps grants _ _
                          (need-Keeps grants Error.authentication verified.dynamic_state)
                          (λ dynamic.
                            bind-Keeps grants _ _
                              (need-Keeps grants Error.protocol
                                (a.stored_to_json (record stored { dynamic_state = dynamic })))
                              (λ encoded. update-Keeps w encoded verified.sign_count))))))))

  module _ (s : Stamps) where
    take-Keeps :
        (c w p : Text) (now : ℕ)
        → Keeps grants (query_writing (take_passkey_challenge_with_binding s c w p now))
    unfolding take_passkey_challenge_with_binding Keeps
    take-Keeps c w p now db = refl

    taking_same :
        (c w p : Text) (now : ℕ)
        → Keeps credentials (query_writing (take_passkey_challenge_with_binding s c w p now))
    unfolding take_passkey_challenge_with_binding Keeps
    taking_same c w p now db = refl

    take_bound-Keeps :
        {X : Type 0} (look : Db → X) (request : AssertFinishRequest) (now : ℕ)
        → Keeps look (
            query_writing (
              take_passkey_challenge_with_binding s request.challenge_id request.wallet_id assert
                now))
        → Keeps look (take_bound h a s request now)
    unfolding take_bound
    take_bound-Keeps look request now taking = bind-Keeps look _ _ taking (λ found.
        bind-Keeps look _ _ (need-Keeps look Error.authentication found) (λ taken.
          bind-Keeps look _ _
            (need-Keeps look Error.authentication (
              a.binding_to_json (record {
                purpose = request.purpose;
                operation_id = request.operation_id;
                digest = request.digest;
              })))
            (λ expected.
              bind-Keeps look _ _ (check-Keeps look Error.authentication (taken.1 == expected))
                (λ _. answer-Keeps look taken.0))))

    -- A live challenge for the wallet was bound to exactly the purpose, the operation and the digest of
    -- the call, and its state is `server_state`.
    unfoldable pub IsBound : AssertFinishRequest → ℕ → Db → Blob → Type 0
    IsBound request now db server_state =
        (binding : Blob) × ((take_passkey_challenge_with_binding s request.challenge_id
            request.wallet_id assert now db).0
          ≡ some (server_state, binding))
        × (a.binding_to_json (record {
          purpose = request.purpose;
          operation_id = request.operation_id;
          digest = request.digest;
        })
            ≡ some binding)

    take_bound-IsBound :
        (request : AssertFinishRequest) (now : ℕ) (db : Db) (server_state : Blob)
        → (take_bound h a s request now db).0 ≡ reply server_state
        → IsBound request now db server_state
    unfolding take_bound IsBound
    take_bound-IsBound request now db server_state ok_h =
        let ((state, binding), taken, h₁) =
          need-reply Error.authentication
            (take_passkey_challenge_with_binding s request.challenge_id request.wallet_id assert now
              db).0
            _ server_state _ ok_h in
        let (expected, encoded, h₂) = need-reply Error.authentication _ _ server_state _ h₁ in
        let (same, h₃) =
          check-reply Error.authentication (binding == expected) _ server_state _ h₂ in
        let e : expected ≡ binding = ground arith in
        (binding, taken ∙ ap (λ x. some (x, binding)) (reply_inj h₃), encoded ∙ ap some e)

    -- The call took a challenge that was bound to exactly its purpose, operation and digest, and the
    -- library accepted its answer for the wallet's stored credential.
    unfoldable pub IsApproved : AssertFinishRequest → ℕ → Db → Type 0
    IsApproved request now db =
        (json : Blob) × (server_state : Blob) × (a.value_to_json request.credential ≡ some json)
        × IsBound request now db server_state
        × IsProved h a request.wallet_id server_state json db

    same-IsBound :
        (request : AssertFinishRequest) (now : ℕ) (server_state : Blob) (db after : Db)
        → after.passkey_challenges ≡ db.passkey_challenges
        → IsBound request now after server_state
        → IsBound request now db server_state
    unfolding IsBound take_passkey_challenge_with_binding
    same-IsBound request now server_state db after same (binding, taken, encoded) = (
      binding,
      ap
            (λ rows.
              Option.map (λ r. (r.challenge, r.binding))
                (find_where (is_answerable s request.challenge_id request.wallet_id assert now)
                  rows))
            (sym same)
          ∙ taken,
      encoded,
    )

    verify_assertion_keeps :
        (request : AssertFinishRequest) (now granted_at : ℕ) (db : Db)
        → (grants (verify_assertion h a s request now granted_at db).1 ≡ grants db)
          ⊎ IsApproved request now db
    unfolding verify_assertion IsApproved Keeps
    verify_assertion_keeps request now granted_at db =
        follow_keeps grants (credential_bytes h a request.credential db) _ (grants db)
          (credential_bytes-Keeps grants request.credential db)
          (λ json carried.
            follow_keeps grants (take_bound h a s request now _) _ _
              (take_bound-Keeps grants request now
                (take-Keeps request.challenge_id request.wallet_id assert now) _)
              (λ server_state bound.
                follow_keeps grants (verify_and_advance h a request.wallet_id server_state json _) _
                  _ (verify_and_advance-Keeps request.wallet_id server_state json _)
                  (λ _ proved. inr (
                    json,
                    server_state,
                    credential_bytes-reply request.credential json db carried,
                    same-IsBound request now server_state db _
                        (credential_bytes-Keeps (λ d. d.passkey_challenges) request.credential db)
                        (take_bound-IsBound request now _ server_state bound),
                    same_proof request.wallet_id server_state json db _
                        (take_bound-Keeps credentials request now
                            (taking_same request.challenge_id request.wallet_id assert now) _
                          ∙ credential_bytes-Keeps credentials request.credential db)
                        (verify_and_advance-IsProved h a request.wallet_id server_state json _
                          proved),
                  ))))

    same_approval :
        (request : AssertFinishRequest) (now : ℕ) (db after : Db)
        → after.passkey_challenges ≡ db.passkey_challenges
        → credentials after ≡ credentials db
        → IsApproved request now after
        → IsApproved request now db
    unfolding IsApproved
    same_approval request now db after challenges_same credentials_same
          (json, server_state, carried, bound, proved) =
        (
          json,
          server_state,
          carried,
          same-IsBound request now server_state db after challenges_same bound,
          same_proof request.wallet_id server_state json db after credentials_same proved,
        )

  validate_wallet_id-Keeps :
      {X : Type 0} (look : Db → X) (t : Text) → Keeps look (validate_wallet_id h t)
  unfolding validate_wallet_id
  validate_wallet_id-Keeps look t = check-Keeps look Error.protocol _

  validate_challenge_id-Keeps :
      {X : Type 0} (look : Db → X) (t : Text) → Keeps look (validate_challenge_id h t)
  unfolding validate_challenge_id
  validate_challenge_id-Keeps look t = check-Keeps look Error.protocol _

  validate_purpose-Keeps :
      {X : Type 0} (look : Db → X) (t : Text) → Keeps look (validate_purpose h t)
  unfolding validate_purpose
  validate_purpose-Keeps look t = check-Keeps look Error.protocol _

  validate_operation_id-Keeps :
      {X : Type 0} (look : Db → X) (t : Text) → Keeps look (validate_operation_id h t)
  unfolding validate_operation_id
  validate_operation_id-Keeps look t = check-Keeps look Error.protocol _

  validate_digest-Keeps : {X : Type 0} (look : Db → X) (t : Text) → Keeps look (validate_digest h t)
  unfolding validate_digest
  validate_digest-Keeps look t = check-Keeps look Error.protocol _

  validate-Keeps :
      {X : Type 0} (look : Db → X) (r : AssertFinishRequest)
      → Keeps look (validate_assertion_finish h r)
  unfolding validate_assertion_finish
  validate-Keeps look r = bind-Keeps look _ _ (validate_wallet_id-Keeps look r.wallet_id) (λ _.
      bind-Keeps look _ _ (validate_challenge_id-Keeps look r.challenge_id) (λ _.
        bind-Keeps look _ _ (validate_purpose-Keeps look r.purpose) (λ _.
          bind-Keeps look _ _ (validate_operation_id-Keeps look r.operation_id)
            (λ _. validate_digest-Keeps look r.digest))))

  module _ (s : Stamps) (v : Verifier) where
    -- The call of assert_finish leaves the passkey grants as they were, unless the proof of the wallet's
    -- device was accepted, a live challenge of the wallet was bound to exactly the call's purpose,
    -- operation and digest, and the WebAuthn library accepted the answer that the call carries, with user
    -- verification, for that challenge, the relying party, the origin and a credential put together from
    -- the wallet's stored columns: the answer names the stored id, the key is decoded from the stored
    -- static state and is a P-256 key, and the counter in the stored dynamic state is the database's.
    pub assert_finish_guarded :
        (r : AssertFinishRequest) (raw : Text) (p : Proof) (t : Reading) (now granted_at : ℕ)
        (db : Db)
        → ((assert_finish h a s v r raw p t now granted_at db).1.passkey_authorizations
            ≡ db.passkey_authorizations)
          ⊎ (((authenticate s v post assert_finish_path r.wallet_id raw p t db).0 ≡ granted)
              × IsApproved s r now db)
    unfolding assert_finish Keeps
    assert_finish_guarded r raw p t now granted_at db =
        admit_keeps grants (authenticate s v post assert_finish_path r.wallet_id raw p t db) _
          (grants db)
          (authenticate_keeps s v grants post assert_finish_path r.wallet_id raw p t db (λ _. refl))
          (λ proven.
            follow_keeps grants (validate_assertion_finish h r _) _ _ (validate-Keeps grants r _)
              (λ _ _. elim (verify_assertion_keeps s r now granted_at _) [
                | inl same ↦ inl (
                    follow-Keeps grants (verify_assertion h a s r now granted_at _) _
                      (λ _. answer-Keeps grants {A = Text × Text} (r.purpose, r.operation_id))
                    ∙ same)
                | inr approved ↦ inr (
                  proven,
                  same_approval s r now db _
                      (validate-Keeps (λ d. d.passkey_challenges) r _
                        ∙ authenticate_keeps s v (λ d. d.passkey_challenges) post assert_finish_path
                            r.wallet_id raw p t db (λ _. refl))
                      (validate-Keeps credentials r _
                        ∙ authenticate_keeps s v credentials post assert_finish_path r.wallet_id raw
                            p t db (λ _. refl))
                      approved,
                )
              ]))
