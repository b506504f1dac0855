-- ===== src/Server/Reshares/Guarded.antt =====
-- What one call of a handler of crates/mpc-server/src/reshare.rs does to the live shares.
use mpc_ext.Base.{
  ℕ, ◌≡◌, ◌⊎◌, refl, inl, inr, Bool-cases, List, Option, none, map, length, true, false, ◌==◌,
  arith,
}
use mpc_ext.Core.Types.{Bytes, Result, ok, err}
use mpc_ext.Core.Field.{Field}
use mpc_ext.Core.Upstream.{Dkls, Codec}
use mpc_ext.Core.Dkg.{DkgParty, Progress, send, finished}
use mpc_ext.Core.Reshare.{SharePoint, survivor, start_reshare}
use mpc_ext.Server.Types.{Text, Blob, Error, Db, KeyShareRow, recovery}
use mpc_ext.Server.Clock.{Stamps}
use mpc_ext.Server.Auth.{Proof, Verifier, Reading, granted, authenticate}
use mpc_ext.Server.Handlers.{post}
use mpc_ext.Core.Dkg.Rounds.{advance}
use mpc_ext.Server.Grants.{consume_passkey_authorization}
use mpc_ext.Server.Recovery.{log_event}
use mpc_ext.Server.Sessions.{
  commit_reshare, swap_share, abort_reshare, put_reshare_session, stage_reshare,
  take_reshare_session, key_share, public_key,
}
use mpc_ext.Core.Sign.Hex.{hex}
use mpc_ext.Server.Steps.{Host, to_wire, first_round, session_ttl_seconds, server_party}
use mpc_ext.Server.Steps.Keeps.{
  authenticate_keeps, admit_keeps, parse_keeps, Keeps, need-Keeps, check-Keeps, answer-Keeps,
  bind-Keeps,
}
use mpc_ext.Server.Steps.Chains.{
  admitted-Keeps, from_core-Keeps, parse_hex32-Keeps, open_sealed-Keeps, seal-Keeps,
  from_wires-Keeps, query-Keeps, query_writing-Keeps, write-Keeps,
}
use mpc_ext.Server.Reshares.{
  StartReshare, AdvanceReshare, ReshareMoments, reshare_commit, reshare_abort, reshare_advance,
  reshare_start, settle_reshare, open_reshare, to_public_key, reshare_commit_path, recovery_party,
  staged_ttl_seconds, in_progress, staged, reshare_abort_path, reshare_round_path,
  reshare_session_path,
}

abbrev pub live : Db → List KeyShareRow
live db = db.key_shares

module _ (h : Host) (s : Stamps) (v : Verifier) where
  unchanged_refused :
      (id w : Text) (now : ℕ) (db : Db)
      → (commit_reshare s id w now db).0 ≡ false
      → live (commit_reshare s id w now db).1 ≡ live db
  unfolding commit_reshare swap_share
  unchanged_refused id w now db refused = ground arith

  -- The device's proof is accepted, and the reshare is committed.
  unfoldable pub Commits : StartReshare → Text → Proof → Reading → ℕ → Db → Type 0
  Commits request raw p t now db =
      let after = authenticate s v post reshare_commit_path request.wallet_id raw p t db in
      (after.0 ≡ granted)
      × ((commit_reshare s request.reshare_id request.wallet_id now after.1).0 ≡ true)

  pub reshare_commit_keeps :
      (request : StartReshare) (raw : Text) (p : Proof) (t : Reading) (now : ℕ) (db : Db)
      → (live (reshare_commit h s v request raw p t now db).1 ≡ live db)
        ⊎ Commits request raw p t now db
  unfolding reshare_commit Commits
  reshare_commit_keeps request raw p t now db =
      let after = authenticate s v post reshare_commit_path request.wallet_id raw p t db in
      admit_keeps live after _ (live db)
        (authenticate_keeps s v live post reshare_commit_path request.wallet_id raw p t db
          (λ _. refl))
        (λ proven. parse_keeps live h request.reshare_id _ after.1 (λ _.
          elim (Bool-cases (commit_reshare s request.reshare_id request.wallet_id now after.1).0) [
            | inl done ↦ inr (proven, done)
            | inr refused ↦
                rw refused
                  (inl (unchanged_refused request.reshare_id request.wallet_id now after.1 refused))
          ]))

module _ (h : Host) (u : Dkls) (codec : Codec (DkgParty u)) (s : Stamps) (v : Verifier) where
  pub reshare_abort-Keeps :
      (request : StartReshare) (raw : Text) (p : Proof) (t : Reading)
      → Keeps live (reshare_abort h s v request raw p t)
  unfolding reshare_abort abort_reshare log_event
  reshare_abort-Keeps request raw p t =
      bind-Keeps live _ _
        (admitted-Keeps live s v post reshare_abort_path request.wallet_id raw p t (λ _ _. refl))
        (λ _.
          bind-Keeps live _ _ (parse_hex32-Keeps live h request.reshare_id) (λ _.
            write-Keeps live (abort_reshare request.reshare_id request.wallet_id) (λ _. refl)))

  settle_reshare-Keeps :
      (request : AdvanceReshare) (nonce : Blob) (written : ℕ)
      (outcome : Result (Progress u) × DkgParty u)
      → Keeps live (settle_reshare h u codec s v request nonce written outcome)
  unfolding settle_reshare abort_reshare put_reshare_session stage_reshare log_event
  settle_reshare-Keeps request nonce written (err _, party) =
      bind-Keeps live _ _
        (write-Keeps live (abort_reshare request.reshare_id request.wallet_id) (λ _. refl))
        (λ _. need-Keeps live Error.protocol none)
  settle_reshare-Keeps request nonce written (ok (send outgoing), party) =
      bind-Keeps live _ _ (need-Keeps live Error.protocol (codec.encode party)) (λ state.
        bind-Keeps live _ _ (seal-Keeps live h nonce state) (λ sealed.
          bind-Keeps live _ _
            (write-Keeps live
              (put_reshare_session request.reshare_id request.wallet_id (first_round outgoing)
                sealed session_ttl_seconds written)
              (λ _. refl))
            (λ _. answer-Keeps live (in_progress (map (to_wire h) outgoing)))))
  settle_reshare-Keeps request nonce written (ok (finished share public_key), party) =
      bind-Keeps live _ _ (seal-Keeps live h nonce share.secret) (λ sealed.
        bind-Keeps live _ _
          (write-Keeps live
            (stage_reshare request.reshare_id request.wallet_id sealed staged_ttl_seconds written)
            (λ _. refl))
          (λ _. answer-Keeps live (staged (hex (h.bytes public_key)))))

  pub reshare_advance-Keeps :
      (request : AdvanceReshare) (raw : Text) (p : Proof) (t : Reading) (nonce : Blob)
      (taken written : ℕ)
      → Keeps live (reshare_advance h u codec s v request raw p t nonce taken written)
  unfolding reshare_advance take_reshare_session
  reshare_advance-Keeps request raw p t nonce taken written =
      bind-Keeps live _ _
        (admitted-Keeps live s v post reshare_round_path request.wallet_id raw p t (λ _ _. refl))
        (λ _.
          bind-Keeps live _ _
            (query_writing-Keeps live
              (take_reshare_session s request.reshare_id request.wallet_id taken) (λ _. refl))
            (λ found. bind-Keeps live _ _ (need-Keeps live Error.unknown_session found) (λ sealed.
              bind-Keeps live _ _ (open_sealed-Keeps live h sealed) (λ state.
                bind-Keeps live _ _ (need-Keeps live Error.protocol (codec.decode state)) (λ party.
                  bind-Keeps live _ _ (from_wires-Keeps live h request.envelopes) (λ inbox.
                    settle_reshare-Keeps request nonce written (advance u party inbox)))))))

  module _ ⦃f : Field u.Scalar⦄ (decode : Bytes → Option (SharePoint u.Scalar))
      (grant_digest : Blob → Blob → Text) where
    open_reshare-Keeps :
        (request : StartReshare) (reshare_id key : Blob) (slope : u.Scalar) (nonce : Blob)
        (written : ℕ)
        → Keeps live (
            open_reshare h u codec s v decode grant_digest request reshare_id key slope nonce
              written)
    unfolding open_reshare to_public_key put_reshare_session
    open_reshare-Keeps request reshare_id key slope nonce written =
        bind-Keeps live _ _ (query-Keeps live (key_share request.wallet_id)) (λ held.
          bind-Keeps live _ _ (need-Keeps live Error.unknown_session held) (λ sealed.
            bind-Keeps live _ _ (open_sealed-Keeps live h sealed) (λ secret.
              bind-Keeps live _ _
                (bind-Keeps live _ _ (check-Keeps live Error.protocol (length (h.bytes key) == 33))
                  (λ _. answer-Keeps live key))
                (λ expected.
                  bind-Keeps live _ _
                    (from_core-Keeps live (
                      start_reshare u decode server_party reshare_id
                        (survivor (record { party = server_party; secret = secret })
                          (recovery_party, server_party))
                        expected slope))
                    (λ (party, envelopes).
                      bind-Keeps live _ _ (need-Keeps live Error.protocol (codec.encode party))
                        (λ state. bind-Keeps live _ _ (seal-Keeps live h nonce state) (λ session.
                          bind-Keeps live _ _
                            (write-Keeps live
                              (put_reshare_session request.reshare_id request.wallet_id 1 session
                                session_ttl_seconds written)
                              (λ _. refl))
                            (λ _. answer-Keeps live (map (to_wire h) envelopes)))))))))

    pub reshare_start-Keeps :
        (request : StartReshare) (raw : Text) (p : Proof) (m : ReshareMoments) (slope : u.Scalar)
        (nonce : Blob)
        → Keeps live (reshare_start h u codec s v decode grant_digest request raw p m slope nonce)
    unfolding reshare_start consume_passkey_authorization
    reshare_start-Keeps request raw p m slope nonce =
        bind-Keeps live _ _
          (admitted-Keeps live s v post reshare_session_path request.wallet_id raw p m.proof
            (λ _ _. refl))
          (λ _. bind-Keeps live _ _ (parse_hex32-Keeps live h request.reshare_id) (λ reshare_id.
            bind-Keeps live _ _ (query-Keeps live (public_key request.wallet_id)) (λ held.
              bind-Keeps live _ _ (need-Keeps live Error.unknown_session held) (λ key.
                bind-Keeps live _ _
                  (query_writing-Keeps live
                    (consume_passkey_authorization s request.wallet_id recovery request.reshare_id
                      (grant_digest key reshare_id) m.mark m.grant)
                    (λ _. refl))
                  (λ consumed.
                    bind-Keeps live _ _ (check-Keeps live Error.authentication consumed)
                      (λ _. open_reshare-Keeps request reshare_id key slope nonce m.written))))))
