-- ===== src/Server/Signing/Guarded.antt =====
-- What the handlers of crates/mpc-server/src/api.rs and reshare.rs have checked when they open a session
-- that uses the server's share.
use mpc_ext.Base.{
  ℕ, ◌≡◌, ◌∙◌, ◌==◌, arith, List, [], ◌∷◌, refl, Bool-cases, inl, inr, ◌⊎◌, some, true, count_where,
  update_where, map,
}
use mpc_ext.Core.Upstream.{Codec}
use mpc_ext.Core.Sign.{Signing, SignParty, sign_start}
use mpc_ext.Server.Types.{Text, Blob, Error, Db, AuthorizationRow, sign, recovery}
use mpc_ext.Server.Clock.{Stamps}
use mpc_ext.Server.Auth.{Proof, Verifier, granted, authenticate}
use mpc_ext.Server.Grants.{is_usable, consume_passkey_authorization}
use mpc_ext.Server.Sessions.{key_share, put_sign_session}
use mpc_ext.Server.Handlers.{post}
use mpc_ext.Server.Steps.{Host, to_wire, server_party, session_ttl_seconds}
use mpc_ext.Server.Steps.Keeps.{
  authenticate_keeps, admit_meets, need_meets, parse_meets, Keeps, need-Keeps, answer-Keeps,
  bind-Keeps,
}
use mpc_ext.Server.Steps.Chains.{
  from_core-Keeps, open_sealed-Keeps, seal-Keeps, query-Keeps, write-Keeps,
}
use mpc_ext.Server.Signing.{
  StartSign, SignMoments, purpose_of, open_sign, use_grant, start_sign, sign_session_path,
}

consume-sessions :
    (s : Stamps) (w p op d : Text) (mark now : ℕ) (db : Db)
    → (consume_passkey_authorization s w p op d mark now db).1.sign_sessions ≡ db.sign_sessions
unfolding consume_passkey_authorization
consume-sessions s w p op d mark now db = refl

-- The grant is of the purpose for the counterparty: signing for party 0, recovery for party 1.
unfoldable pub IsFor : ℕ → Text → Type 0
IsFor counterparty purpose =
    ((counterparty ≡ 0) × (purpose ≡ sign)) ⊎ ((counterparty ≡ 1) × (purpose ≡ recovery))

purpose_of-IsFor :
    (counterparty : ℕ) (purpose : Text)
    → purpose_of counterparty ≡ some purpose
    → IsFor counterparty purpose
unfolding purpose_of IsFor
purpose_of-IsFor counterparty purpose h = elim (Bool-cases (counterparty == 0)) [
  | inl zero_party ↦ inl (ground arith, ground arith)
  | inr other ↦ elim (Bool-cases (counterparty == 1)) [
    | inl one_party ↦ inr (ground arith, ground arith)
    | inr neither ↦ absurd (ground arith)
  ]
]

module _ (s : Stamps) where
  -- In `db` there is one usable grant of the purpose for this sign id and digest, and `after` has the
  -- grants of `db` with that one marked as used, so that it has no usable one.
  pub record UsesGrant (request : StartSign) (purpose : Text) (m : SignMoments) (db after : Db)
      : Type 0 where
    pub usable :
        count_where
          (is_usable s request.wallet_id purpose request.sign_id request.digest m.grant)
          db.passkey_authorizations
        ≡ 1
    pub marked :
        after.passkey_authorizations
        ≡ update_where
            (is_usable s request.wallet_id purpose request.sign_id request.digest m.grant)
            (λ r. record r { consumed_at = some m.mark })
            db.passkey_authorizations
    pub none_left :
        count_where
          (is_usable s request.wallet_id purpose request.sign_id request.digest m.grant)
          after.passkey_authorizations
        ≡ 0

  marked-unusable :
      (w p op d : Text) (mark now : ℕ) (rows : List AuthorizationRow)
      → count_where
          (is_usable s w p op d now)
          (update_where (is_usable s w p op d now) (λ r. record r { consumed_at = some mark }) rows)
        ≡ 0
  unfolding count_where update_where
  marked-unusable w p op d mark now [] = refl
  marked-unusable w p op d mark now (r ∷ rows) = elim (Bool-cases (is_usable s w p op d now r)) [
    | inl hit ↦ rw hit (ground (arith, marked-unusable w p op d mark now rows))
    | inr miss ↦ rw miss (ground (arith, miss, marked-unusable w p op d mark now rows))
  ]

  -- What a consumption that succeeds does.
  consumed-UsesGrant :
      (request : StartSign) (purpose : Text) (m : SignMoments) (db after : Db)
      → (consume_passkey_authorization s request.wallet_id purpose request.sign_id request.digest
          m.mark m.grant db).0
        ≡ true
      → after.passkey_authorizations
        ≡ (consume_passkey_authorization s request.wallet_id purpose request.sign_id request.digest
            m.mark m.grant db).1.passkey_authorizations
      → UsesGrant request purpose m db after
  unfolding consume_passkey_authorization
  consumed-UsesGrant request purpose m db after used rows = record {
    usable = ground arith;
    marked = rows;
    none_left = rw rows (
        marked-unusable request.wallet_id purpose request.sign_id request.digest m.mark m.grant
          db.passkey_authorizations);
  }

abbrev grants : Db → List AuthorizationRow
grants db = db.passkey_authorizations

module _ (h : Host) (u : Signing) (codec : Codec (SignParty u)) (s : Stamps) (v : Verifier) where
  open_sign-Keeps :
      (request : StartSign) (sign_id digest nonce : Blob) (written : ℕ)
      → Keeps grants (open_sign h u codec s v request sign_id digest nonce written)
  unfolding open_sign put_sign_session
  open_sign-Keeps request sign_id digest nonce written =
      bind-Keeps grants _ _ (query-Keeps grants (key_share request.wallet_id)) (λ held.
        bind-Keeps grants _ _ (need-Keeps grants Error.unknown_session held) (λ sealed.
          bind-Keeps grants _ _ (open_sealed-Keeps grants h sealed) (λ secret.
            bind-Keeps grants _ _
              (from_core-Keeps grants (
                sign_start u (record { party = server_party; secret = secret }) request.counterparty
                  sign_id digest))
              (λ (party, envelopes).
                bind-Keeps grants _ _ (need-Keeps grants Error.protocol (codec.encode party))
                  (λ state. bind-Keeps grants _ _ (seal-Keeps grants h nonce state) (λ session.
                    bind-Keeps grants _ _
                      (write-Keeps grants
                        (put_sign_session request.sign_id request.wallet_id 1 session
                          session_ttl_seconds written)
                        (λ _. refl))
                      (λ _. answer-Keeps grants (map (to_wire h) envelopes))))))))

  -- The signing sessions of `db`, or a use of a grant.
  IsGuarded : StartSign → SignMoments → Db → Db → Type 0
  IsGuarded request m db after =
      (after.sign_sessions ≡ db.sign_sessions)
      ⊎ ((purpose : Text) × IsFor request.counterparty purpose
          × UsesGrant s request purpose m db after)

  use_grant-IsGuarded :
      (request : StartSign) (m : SignMoments) (nonce : Blob) (db : Db)
      → IsGuarded request m db (use_grant h u codec s v request m nonce db).1
  unfolding use_grant IsGuarded Keeps
  use_grant-IsGuarded request m nonce db =
      let P = IsGuarded request m db in
      parse_meets P h request.sign_id _ db (inl refl) (λ sign_id.
        parse_meets P h request.digest _ db (inl refl) (λ digest.
          need_meets P Error.protocol (purpose_of request.counterparty) _ db (inl refl)
            (λ purpose named.
              elim (Bool-cases
                (consume_passkey_authorization s request.wallet_id purpose request.sign_id
                  request.digest m.mark m.grant db).0) [
                    | inl used ↦ rw used (
                        inr (
                          purpose,
                          purpose_of-IsFor request.counterparty purpose named,
                          consumed-UsesGrant s request purpose m db _ used
                              (open_sign-Keeps request sign_id digest nonce m.written _),
                        ))
                    | inr unused ↦ rw unused (
                        inl (
                          consume-sessions s request.wallet_id purpose request.sign_id
                            request.digest m.mark m.grant db))
                  ])))

  -- The call of start_sign leaves the signing sessions as they were, unless the proof of the wallet's
  -- device was accepted and, after it, there was one usable passkey grant for this sign id and digest:
  -- one for signing where the client drives party 0, and one for recovery where it drives party 1. The
  -- call then leaves the grants with that one marked as used, and no usable one for the operation.
  pub start_sign_guarded :
      (request : StartSign) (raw : Text) (p : Proof) (m : SignMoments) (nonce : Blob) (db : Db)
      → let proven = authenticate s v post sign_session_path request.wallet_id raw p m.proof db in
        let after = (start_sign h u codec s v request raw p m nonce db).1 in
        (after.sign_sessions ≡ db.sign_sessions)
        ⊎ ((proven.0 ≡ granted)
            × ((purpose : Text) × IsFor request.counterparty purpose
                × UsesGrant s request purpose m proven.1 after))
  unfolding start_sign IsGuarded
  start_sign_guarded request raw p m nonce db =
      let proven = authenticate s v post sign_session_path request.wallet_id raw p m.proof db in
      let kept =
        authenticate_keeps s v (λ d. d.sign_sessions) post sign_session_path request.wallet_id raw p
          m.proof db (λ _. refl) in
      admit_meets
        (λ d.
          (d.sign_sessions ≡ db.sign_sessions)
          ⊎ ((proven.0 ≡ granted)
              × ((purpose : Text) × IsFor request.counterparty purpose
                  × UsesGrant s request purpose m proven.1 d)))
        proven (use_grant h u codec s v request m nonce) (inl kept)
        (λ ok_proof. elim (use_grant-IsGuarded request m nonce proven.1) [
          | inl same ↦ inl (same ∙ kept)
          | inr grant ↦ inr (ok_proof, grant)
        ])
