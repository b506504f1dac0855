-- ===== src/Server/Passkeys/Proved.antt =====
-- What stands behind an assertion that crates/mpc-server/src/passkey.rs lets through.
use mpc_ext.Base.{ℕ, length, ◌≡◌, ◌∙◌, ap, subst, some, true, ◌==◌, arith}
use mpc_ext.Server.Types.{Text, Blob, Error, Db}
use mpc_ext.Server.Credentials.{passkey_credential}
use mpc_ext.Server.Handlers.{reply}
use mpc_ext.Server.Steps.{Host}
use mpc_ext.Server.Steps.Keeps.{follow-reply, check-reply, need-reply, need_only-reply, reply_inj}
use mpc_ext.Server.Passkeys.{
  Webauthn, user_handle_len, Verified, StoredCredential, check_assertion, identify, read_handle,
  verify_and_advance,
}

module _ (h : Host) (a : Webauthn) where
  -- The credential is put together from the stored columns: the user handle, the static key, which is
  -- a P-256 key, and the dynamic state, whose counter is the one that the database keeps.
  pub record IsStored (authentication : a.Authentication) (stored : StoredCredential) (count : ℕ)
      (credential : a.Credential) : Type 0 where
    pub handle : a.UserHandle
    pub static : a.Static
    pub dynamic : a.Dynamic
    pub names_stored : a.raw_id authentication ≡ some stored.id
    pub has_handle : a.decode_handle stored.user_id ≡ some handle
    pub has_static : a.decode_static stored.static_state ≡ some static
    pub p256 : a.is_p256 static ≡ true
    pub has_dynamic : a.decode_dynamic stored.dynamic_state ≡ some dynamic
    pub same_count : a.sign_count dynamic ≡ count
    pub assembled : a.assemble authentication handle static dynamic ≡ some credential

  -- The library accepts the answer for the relying party and the origin, with user verification, for
  -- the credential that is stored.
  unfoldable pub IsAccepted :
      a.ServerState → a.Authentication → StoredCredential → ℕ → Verified → Type 0
  IsAccepted state authentication stored count verified =
      (rp_id : Blob) × (origin : Blob) × (credential : a.Credential) × (a.rp_id ≡ some rp_id)
      × (a.origin ≡ some origin)
      × IsStored authentication stored count credential
      × (a.verify rp_id origin state authentication credential ≡ some verified)
      × (verified.user_verified ≡ true)

  read_handle-reply :
      (stored : StoredCredential) (handle : a.UserHandle) (db : Db)
      → (read_handle h a stored db).0 ≡ reply handle
      → a.decode_handle stored.user_id ≡ some handle
  unfolding read_handle
  read_handle-reply stored handle db ok_h =
      let (_, h₁) =
        check-reply Error.authentication (length (h.bytes stored.user_id) == user_handle_len) _
          handle db ok_h in
      need_only-reply Error.authentication (a.decode_handle stored.user_id) handle db h₁

  identify-IsStored :
      (authentication : a.Authentication) (stored : StoredCredential) (count : ℕ)
      (credential : a.Credential) (db : Db)
      → (identify h a authentication stored count db).0 ≡ reply credential
      → IsStored authentication stored count credential
  unfolding identify
  identify-IsStored authentication stored count credential db ok_h =
      let E : Error = Error.authentication in
      let (handle, read, h₁) = follow-reply (read_handle h a stored db) _ credential ok_h in
      let (id, raw, h₂) = need-reply E (a.raw_id authentication) _ credential _ h₁ in
      let (same, h₃) = check-reply E (id == stored.id) _ credential _ h₂ in
      let (static, s, h₄) = need-reply E (a.decode_static stored.static_state) _ credential _ h₃ in
      let (p256, h₅) = check-reply E (a.is_p256 static) _ credential _ h₄ in
      let (dynamic, d, h₆) =
        need-reply E (a.decode_dynamic stored.dynamic_state) _ credential _ h₅ in
      let (counted, h₇) = check-reply E (a.sign_count dynamic == count) _ credential _ h₆ in
      let e : id ≡ stored.id = ground arith in
      record {
        handle = handle;
        static = static;
        dynamic = dynamic;
        names_stored = raw ∙ ap some e;
        has_handle = read_handle-reply stored handle db read;
        has_static = s;
        p256 = p256;
        has_dynamic = d;
        same_count = ground arith;
        assembled =
            need_only-reply E (a.assemble authentication handle static dynamic) credential _ h₇;
      }

  check_assertion-IsAccepted :
      (state : a.ServerState) (authentication : a.Authentication) (stored : StoredCredential)
      (count : ℕ) (verified : Verified) (db : Db)
      → (check_assertion h a state authentication stored count db).0 ≡ reply verified
      → IsAccepted state authentication stored count verified
  unfolding check_assertion IsAccepted
  check_assertion-IsAccepted state authentication stored count verified db ok_h =
      let (rp_id, rp, h₁) = need-reply Error.config a.rp_id _ verified db ok_h in
      let (origin, og, h₂) = need-reply Error.config a.origin _ verified db h₁ in
      let (credential, found, h₃) =
        follow-reply (identify h a authentication stored count db) _ verified h₂ in
      let (got, accepted, h₄) =
        need-reply Error.authentication (a.verify rp_id origin state authentication credential) _
          verified _ h₃ in
      let (uv, h₅) = check-reply Error.authentication got.user_verified _ verified _ h₄ in
      let e : got ≡ verified = reply_inj h₅ in
      (
        rp_id,
        origin,
        credential,
        rp,
        og,
        identify-IsStored authentication stored count credential db found,
        accepted ∙ ap some e,
        subst (λ x. x.user_verified ≡ true) e uv,
      )

  -- What stands behind an assertion that `verify_and_advance` lets through: the ceremony's state and the
  -- answer decode, the wallet has a stored credential, and the answer is accepted for it.
  unfoldable pub IsProved : Text → Blob → Blob → Db → Type 0
  IsProved w server_state json db =
      (state : a.ServerState) × (authentication : a.Authentication) × (bytes : Blob) × (count : ℕ)
      × (stored : StoredCredential) × (verified : Verified) × (a.decode_state server_state
          ≡ some state)
      × (a.parse_authentication json ≡ some authentication)
      × ((passkey_credential w db).0 ≡ reply (some (bytes, count)))
      × (a.stored_from_json bytes ≡ some stored)
      × IsAccepted state authentication stored count verified

  pub verify_and_advance-IsProved :
      (w : Text) (server_state json : Blob) (db : Db)
      → (verify_and_advance h a w server_state json db).0 ≡ reply tt
      → IsProved w server_state json db
  unfolding verify_and_advance IsProved
  verify_and_advance-IsProved w server_state json db ok_h =
      let (state, decoded, h₁) =
        need-reply Error.protocol (a.decode_state server_state) _ tt db ok_h in
      let (authentication, parsed, h₂) =
        need-reply Error.protocol (a.parse_authentication json) _ tt db h₁ in
      let (found, read, h₃) = follow-reply (passkey_credential w db) _ tt h₂ in
      let ((bytes, count), there, h₄) = need-reply Error.authentication found _ tt _ h₃ in
      let (stored, kept, h₅) = need-reply Error.protocol (a.stored_from_json bytes) _ tt _ h₄ in
      let (verified, ok_v, h₆) =
        follow-reply (check_assertion h a state authentication stored count _) _ tt h₅ in
      (
        state,
        authentication,
        bytes,
        count,
        stored,
        verified,
        decoded,
        parsed,
        read ∙ ap reply there,
        kept,
        check_assertion-IsAccepted state authentication stored count verified _ ok_v,
      )
