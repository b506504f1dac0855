-- ===== src/Server/Keygen/Mirrors.antt =====
-- The round handler of the key generation in crates/mpc-server/src/api.rs against the party's own round
-- in crates/mpc-core/src/protocol.rs.
use mpc_ext.Base.{
  ℕ, ◌≡◌, refl, sym, subst, Option-cases, inl, inr, List, ◌∷◌, Option, none, some, true, false,
  length, map, arith, find_where, delete_where, find_where-deleted,
}
use mpc_ext.Core.Types.{Bytes, Result, ok, err, Envelope, KeyShare}
use mpc_ext.Core.Sign.Hex.{hex}
use mpc_ext.Core.Upstream.{Dkls, Codec}
use mpc_ext.Core.Dkg.{DkgParty, Progress, send, finished}
use mpc_ext.Core.Dkg.Rounds.{advance}
use mpc_ext.Server.Types.{Text, Blob, Error, Sealed, SessionRow, Db, dkg_completed}
use mpc_ext.Server.Clock.{Stamps}
use mpc_ext.Server.Recovery.{log_event}
use mpc_ext.Server.Handlers.{Reply, reply, failed}
use mpc_ext.Server.Sessions.{
  has_id, put_session, take_row, take_session, finish_dkg, key_share, public_key,
}
use mpc_ext.Server.Sessions.Deadlines.{put_row-keeps}
use mpc_ext.Server.Steps.{
  Host, to_wire, from_wires, seal, open_sealed, first_round, session_ttl_seconds,
}
use mpc_ext.Server.Keygen.{AdvanceDkg, AdvancedDkg, in_progress, completed, settle_dkg, advance_dkg}

module _ (h : Host) (s : Stamps) where
  -- The sealed blob opens to the bytes.
  unfoldable pub Opens : Sealed → Blob → Type 0
  Opens sealed plain =
      (length (h.bytes sealed.nonce) ≡ 12) × (h.decrypt sealed.nonce sealed.ciphertext ≡ some plain)

  -- What AES-GCM does with a nonce of 12 bytes that the server draws.
  pub record IsNonce (nonce : Blob) : Type 0 where
    pub size : length (h.bytes nonce) ≡ 12
    pub opens :
        (plain : Blob)
        → (c : Blob) × (h.encrypt nonce plain ≡ some c) × (h.decrypt nonce c ≡ some plain)

  module _ (u : Dkls) (codec : Codec (DkgParty u)) where
    -- bincode encodes this party, and reads it back.
    unfoldable pub IsKept : DkgParty u → Type 0
    IsKept p = (state : Bytes) × (codec.encode p ≡ some state) × (codec.decode state ≡ some p)

    -- The session's row holds the party, until the deadline.
    unfoldable pub Stores : Text → DkgParty u → ℕ → Db → Type 0
    Stores id p expires db =
        (r : SessionRow) × (state : Bytes) × (find_where (has_id id) db.dkg_sessions ≡ some r)
        × (r.expires_at ≡ expires)
        × Opens r.state state
        × (codec.decode state ≡ some p)

    -- What the handler's answer and the database owe to a round that finishes, with the share that the
    -- wallet had before.
    unfoldable pub Closes :
        AdvanceDkg → KeyShare → Bytes → Db → Reply AdvancedDkg × Db → Option Sealed → Type 0
    Closes request share key db a (some _) = a ≡ (failed Error.storage, db)
    Closes request share key db a none =
        (sealed : Sealed) × (a.0 ≡ reply (completed (hex (h.bytes key))))
        × Opens sealed share.secret
        × (key_share request.wallet_id a.1 ≡ some sealed)
        × (public_key request.wallet_id a.1 ≡ some key)
        × (find_where (has_id request.session_id) a.1.dkg_sessions ≡ none)

    -- What they owe to any outcome of the party's round.
    unfoldable pub Mirrors :
        AdvanceDkg → ℕ → Db → Result (Progress u) × DkgParty u → Reply AdvancedDkg × Db → Type 0
    Mirrors request expires db (err x, q) a = a ≡ (failed Error.protocol, db)
    Mirrors request expires db (ok (send outgoing), q) a =
        (a.0 ≡ reply (in_progress (map (to_wire h) outgoing)))
        × Stores request.session_id q expires a.1
    Mirrors request expires db (ok (finished share key), q) a =
        Closes request share key db a (key_share request.wallet_id db)

    take_session-found :
        (id : Text) (taken : ℕ) (r : SessionRow) (db : Db)
        → find_where (has_id id) db.dkg_sessions ≡ some r
        → s.before r.expires_at taken ≡ false
        → take_session s id taken db ≡ (some (r.round, r.state), db)
    unfolding take_session take_row
    take_session-found id taken r db found live = ground (arith, found, live)

    open_sealed-Opens :
        (sealed : Sealed) (plain : Blob) (db : Db)
        → Opens sealed plain
        → open_sealed h sealed db ≡ (reply plain, db)
    unfolding open_sealed Opens
    open_sealed-Opens sealed plain db (size, opened) = ground (arith, size, opened)

    loads :
        (request : AdvanceDkg) (nonce : Blob) (taken written expires : ℕ) (inbox : List Envelope)
        (p : DkgParty u) (db : Db)
        → Stores request.session_id p expires db
        → s.before expires taken ≡ false
        → from_wires h request.envelopes db ≡ (reply inbox, db)
        → advance_dkg h u codec s request nonce taken written db
          ≡ settle_dkg h u codec request nonce written (advance u p inbox) db
    unfolding advance_dkg Stores
    loads request nonce taken written expires inbox p db (r, state, found, same, opened, decoded)
          live read =
        let alive : s.before r.expires_at taken ≡ false = rw same live in
        rw
          (
            take_session-found request.session_id taken r db found alive,
            open_sealed-Opens r.state state db opened,
            decoded,
            read,
          )
          refl

    seal-Opens :
        (nonce plain : Blob) (db : Db)
        → IsNonce nonce
        → (sealed : Sealed) × (seal h nonce plain db ≡ (reply sealed, db)) × Opens sealed plain
    unfolding seal Opens
    seal-Opens nonce plain db fresh =
        let (c, e, d) = fresh.opens plain in
        (record { ciphertext = c; nonce = nonce }, rw e refl, (fresh.size, d))

    sent-Mirrors :
        (request : AdvanceDkg) (nonce : Blob) (written expires : ℕ) (p q : DkgParty u)
        (outgoing : List Envelope) (db : Db)
        → Stores request.session_id p expires db
        → IsNonce nonce
        → IsKept q
        → Mirrors request expires db
            (ok (send outgoing), q)
            (settle_dkg h u codec request nonce written (ok (send outgoing), q) db)
    unfolding Mirrors Stores IsKept settle_dkg put_session
    sent-Mirrors request nonce written expires p q outgoing db (r, _, found, same, _, _) fresh
          (state, encoded, decoded) =
        let (sealed, e, opened) = seal-Opens nonce state db fresh in
        rw (encoded, e)
          (
            refl,
            (
              record r { round = first_round outgoing; state = sealed },
              state,
              put_row-keeps request.session_id request.wallet_id (first_round outgoing) sealed
                  session_ttl_seconds written db.dkg_sessions r found,
              same,
              opened,
              decoded,
            ),
          )

    -- The database once a key generation is finished.
    abbrev finished_db : Text → Text → Sealed → Blob → Db → Db
    finished_db id w sealed key db = log_event w dkg_completed (record db {
      dkg_sessions = delete_where (has_id id) db.dkg_sessions;
      key_shares = record { wallet_id = w; share = sealed; public_key = key } ∷ db.key_shares;
    })

    finish_dkg-new :
        (id w : Text) (sealed : Sealed) (key : Blob) (db : Db)
        → key_share w db ≡ none
        → finish_dkg id w sealed key db ≡ (true, finished_db id w sealed key db)
    unfolding finish_dkg key_share
    finish_dkg-new id w sealed key db h = ground arith

    finish_dkg-taken :
        (id w : Text) (old sealed : Sealed) (key : Blob) (db : Db)
        → key_share w db ≡ some old
        → finish_dkg id w sealed key db ≡ (false, db)
    unfolding finish_dkg key_share
    finish_dkg-taken id w old sealed key db h = ground arith

    finished_share :
        (id w : Text) (sealed : Sealed) (key : Blob) (db : Db)
        → (key_share w (finished_db id w sealed key db) ≡ some sealed)
          × (public_key w (finished_db id w sealed key db) ≡ some key)
          × (find_where (has_id id) (finished_db id w sealed key db).dkg_sessions ≡ none)
    unfolding key_share public_key log_event find_where
    finished_share id w sealed key db = (
      ground arith,
      ground arith,
      find_where-deleted (has_id id) (has_id id) db.dkg_sessions (λ _ h. h),
    )

    finished-Mirrors :
        (request : AdvanceDkg) (nonce : Blob) (written expires : ℕ) (q : DkgParty u)
        (share : KeyShare) (key : Bytes) (db : Db)
        → IsNonce nonce
        → Mirrors request expires db
            (ok (finished share key), q)
            (settle_dkg h u codec request nonce written (ok (finished share key), q) db)
    unfolding Mirrors Closes settle_dkg
    finished-Mirrors request nonce written expires q share key db fresh =
        let (sealed, e, opened) = seal-Opens nonce share.secret db fresh in
        let a : Reply AdvancedDkg × Db =
          settle_dkg h u codec request nonce written (ok (finished share key), q) db in
        elim (Option-cases (key_share request.wallet_id db)) [
          | inl none_there ↦ subst (Closes request share key db a) (sym none_there) (
              rw (e, finish_dkg-new request.session_id request.wallet_id sealed key db none_there)
                (let (live, public, gone) =
                    finished_share request.session_id request.wallet_id sealed key db in
                  (sealed, refl, opened, live, public, gone)))
          | inr (old, there) ↦ subst (Closes request share key db a) (sym there) (
              rw (e, finish_dkg-taken request.session_id request.wallet_id old sealed key db there)
                refl)
        ]

    settle_dkg-Mirrors :
        (request : AdvanceDkg) (nonce : Blob) (written expires : ℕ) (p : DkgParty u) (db : Db)
        (outcome : Result (Progress u) × DkgParty u)
        → Stores request.session_id p expires db
        → IsNonce nonce
        → IsKept outcome.1
        → Mirrors request expires db outcome (settle_dkg h u codec request nonce written outcome db)
    unfolding Mirrors settle_dkg
    settle_dkg-Mirrors request nonce written expires p db (err x, q) held fresh kept = refl
    settle_dkg-Mirrors request nonce written expires p db (ok (send outgoing), q) held fresh kept =
        sent-Mirrors request nonce written expires p q outgoing db held fresh kept
    settle_dkg-Mirrors request nonce written expires p db (ok (finished share key), q) held fresh
          kept =
        finished-Mirrors request nonce written expires q share key db fresh

    -- A call of the round handler on a live session whose row holds a party does what the party's own
    -- round does, when the envelopes decode, the drawn nonce seals and opens, and the party that the round
    -- leaves is encoded and read back. Where the party sends, the answer carries what it sends and the row
    -- holds the new party under the old deadline; where it fails, the database is as it was; where it
    -- finishes, the session is gone and the wallet has the sealed share and the public key, unless it had a
    -- share before, and then the call fails and changes nothing.
    pub advance-Mirrors :
        (request : AdvanceDkg) (nonce : Blob) (taken written expires : ℕ) (inbox : List Envelope)
        (p : DkgParty u) (db : Db)
        → Stores request.session_id p expires db
        → s.before expires taken ≡ false
        → from_wires h request.envelopes db ≡ (reply inbox, db)
        → IsNonce nonce
        → IsKept (advance u p inbox).1
        → Mirrors request expires db
            (advance u p inbox)
            (advance_dkg h u codec s request nonce taken written db)
    advance-Mirrors request nonce taken written expires inbox p db held live read fresh kept =
        subst (Mirrors request expires db (advance u p inbox))
          (sym (loads request nonce taken written expires inbox p db held live read))
          (settle_dkg-Mirrors request nonce written expires p db (advance u p inbox) held fresh
            kept)
