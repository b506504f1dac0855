-- ===== src/Server/Steps/Chains.antt =====
-- The steps that the handlers in crates/mpc-server/src share leave alone what does not depend on the
-- nonces.
use mpc_ext.Base.{◌≡◌, ◌∙◌, refl, List, [], ◌∷◌, length, ◌==◌}
use mpc_ext.Core.Types.{Result, ok, err}
use mpc_ext.Core.Sign.{hex_pairs}
use mpc_ext.Server.Types.{Text, Blob, Error, Sealed, NonceRow, Db}
use mpc_ext.Server.Clock.{Stamps}
use mpc_ext.Server.Auth.{Access, Proof, Verifier, Reading, granted, denied, authenticate}
use mpc_ext.Server.Steps.{
  to_reply, from_core, admitted, Host, WireEnvelope, from_wire, from_wires, parse_hex32,
  open_sealed, seal, query, query_writing, write,
}
use mpc_ext.Server.Steps.Keeps.{
  Keeps, need-Keeps, check-Keeps, answer-Keeps, bind-Keeps, authenticate_keeps,
}

module _ {X : Type 0} (look : Db → X) where
  to_reply-look : (r : Access × Db) → look (to_reply r).1 ≡ look r.1
  to_reply-look (granted, db) = refl
  to_reply-look (denied e, db) = refl

  pub admitted-Keeps :
      (s : Stamps) (v : Verifier) (method path w raw : Text) (p : Proof) (t : Reading)
      → ((db : Db) (rows : List NonceRow)
          → look (record db { used_device_nonces = rows }) ≡ look db)
      → Keeps look (admitted (authenticate s v method path w raw p t))
  unfolding Keeps
  admitted-Keeps s v method path w raw p t blind db =
      to_reply-look (authenticate s v method path w raw p t db)
      ∙ authenticate_keeps s v look method path w raw p t db (blind db)

  pub from_core-Keeps : {A : Type 0} (r : Result A) → Keeps look (from_core r)
  unfolding Keeps
  from_core-Keeps (ok a) db = refl
  from_core-Keeps (err e) db = refl

  pub query-Keeps : {A : Type 0} (f : Db → A) → Keeps look (query f)
  unfolding Keeps
  query-Keeps f db = refl

  pub query_writing-Keeps :
      {A : Type 0} (f : Db → A × Db)
      → ((db : Db) → look (f db).1 ≡ look db)
      → Keeps look (query_writing f)
  unfolding Keeps
  query_writing-Keeps f h db = h db

  pub write-Keeps : (f : Db → Db) → ((db : Db) → look (f db) ≡ look db) → Keeps look (write f)
  unfolding Keeps
  write-Keeps f h db = h db

  module _ (h : Host) where
    pub parse_hex32-Keeps : (t : Text) → Keeps look (parse_hex32 h t)
    unfolding parse_hex32
    parse_hex32-Keeps t =
        bind-Keeps look _ _ (check-Keeps look Error.protocol (length (h.chars t) == 64)) (λ _.
          bind-Keeps look _ _ (from_core-Keeps (hex_pairs (h.chars t)))
            (λ out. answer-Keeps look (h.blob out)))

    pub open_sealed-Keeps : (sealed : Sealed) → Keeps look (open_sealed h sealed)
    unfolding open_sealed
    open_sealed-Keeps sealed =
        bind-Keeps look _ _ (check-Keeps look Error.crypto (length (h.bytes sealed.nonce) == 12))
          (λ _. need-Keeps look Error.crypto (h.decrypt sealed.nonce sealed.ciphertext))

    pub seal-Keeps : (nonce plaintext : Blob) → Keeps look (seal h nonce plaintext)
    unfolding seal
    seal-Keeps nonce plaintext =
        bind-Keeps look _ _ (need-Keeps look Error.crypto (h.encrypt nonce plaintext))
          (λ c. answer-Keeps look (record { ciphertext = c; nonce = nonce }))

    pub from_wires-Keeps : (ws : List WireEnvelope) → Keeps look (from_wires h ws)
    unfolding from_wires from_wire
    from_wires-Keeps [] = answer-Keeps look []
    from_wires-Keeps (w ∷ ws) =
        bind-Keeps look _ _
          (bind-Keeps look _ _ (need-Keeps look Error.protocol (h.decode_base64 w.payload))
            (λ payload.
              answer-Keeps look
                (record { round = w.round; from = w.from; to = w.to; payload = payload })))
          (λ e. bind-Keeps look _ _ (from_wires-Keeps ws) (λ es. answer-Keeps look (e ∷ es)))
