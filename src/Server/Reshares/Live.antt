-- ===== src/Server/Reshares/Live.antt =====
-- The calls of the handlers of crates/mpc-server/src/reshare.rs, one after another.
use mpc_ext.Base.{ℕ, ◌≡◌, ◌⊎◌, ◌∙◌, refl, inl, inr, List, [], ◌∷◌, Option}
use mpc_ext.Core.Types.{Bytes}
use mpc_ext.Core.Field.{Field}
use mpc_ext.Core.Upstream.{Dkls, Codec}
use mpc_ext.Core.Dkg.{DkgParty}
use mpc_ext.Core.Reshare.{SharePoint}
use mpc_ext.Server.Types.{Text, Blob, Db}
use mpc_ext.Server.Clock.{Stamps}
use mpc_ext.Server.Auth.{Proof, Verifier, Reading}
use mpc_ext.Server.Steps.{Host}
use mpc_ext.Server.Steps.Keeps.{Keeps}
use mpc_ext.Server.Reshares.{
  StartReshare, AdvanceReshare, ReshareMoments, reshare_commit, reshare_abort, reshare_advance,
  reshare_start,
}
use mpc_ext.Server.Reshares.Guarded.{
  live, Commits, reshare_commit_keeps, reshare_abort-Keeps, reshare_advance-Keeps,
  reshare_start-Keeps,
}

module _ (h : Host) (u : Dkls) (codec : Codec (DkgParty u)) (s : Stamps) (v : Verifier)
    ⦃f : Field u.Scalar⦄ (decode : Bytes → Option (SharePoint u.Scalar))
    (grant_digest : Blob → Blob → Text) where
  pub data ReshareCall : Type 0 where
    starts : StartReshare → Text → Proof → ReshareMoments → u.Scalar → Blob → ReshareCall
    advances : AdvanceReshare → Text → Proof → Reading → Blob → ℕ → ℕ → ReshareCall
    commits : StartReshare → Text → Proof → Reading → ℕ → ReshareCall
    aborts : StartReshare → Text → Proof → Reading → ReshareCall

  unfoldable pub handle : ReshareCall → Db → Db
  handle (starts request raw p m slope nonce) db =
      (reshare_start h u codec s v decode grant_digest request raw p m slope nonce db).1
  handle (advances request raw p t nonce taken written) db =
      (reshare_advance h u codec s v request raw p t nonce taken written db).1
  handle (commits request raw p t now) db = (reshare_commit h s v request raw p t now db).1
  handle (aborts request raw p t) db = (reshare_abort h s v request raw p t db).1

  unfoldable pub handle_all : List ReshareCall → Db → Db
  handle_all [] db = db
  handle_all (c ∷ cs) db = handle_all cs (handle c db)

  unfoldable pub IsCommit : ReshareCall → Db → Type 0
  IsCommit (starts _ _ _ _ _ _) db = ⊥
  IsCommit (advances _ _ _ _ _ _ _) db = ⊥
  IsCommit (commits request raw p t now) db = Commits h s v request raw p t now db
  IsCommit (aborts _ _ _ _) db = ⊥

  -- One of the calls commits, in the database that the calls before it have left.
  unfoldable pub HasCommit : List ReshareCall → Db → Type 0
  HasCommit [] db = ⊥
  HasCommit (c ∷ cs) db = IsCommit c db ⊎ HasCommit cs (handle c db)

  handle_keeps : (c : ReshareCall) (db : Db) → (live (handle c db) ≡ live db) ⊎ IsCommit c db
  unfolding handle IsCommit Keeps
  handle_keeps (starts request raw p m slope nonce) db =
      inl (reshare_start-Keeps h u codec s v decode grant_digest request raw p m slope nonce db)
  handle_keeps (advances request raw p t nonce taken written) db =
      inl (reshare_advance-Keeps h u codec s v request raw p t nonce taken written db)
  handle_keeps (commits request raw p t now) db = reshare_commit_keeps h s v request raw p t now db
  handle_keeps (aborts request raw p t) db =
      inl (reshare_abort-Keeps h u codec s v request raw p t db)

  -- Calls of start, advance, commit and abort, in any order and with any outcome, leave every live
  -- share as it was, unless one of them is a commit whose device proof is accepted and that finds,
  -- at that moment, a staged share of that wallet and id to commit.
  pub reshare_keeps_live :
      (calls : List ReshareCall) (db : Db)
      → ((handle_all calls db).key_shares ≡ db.key_shares) ⊎ HasCommit calls db
  unfolding handle_all HasCommit
  reshare_keeps_live [] db = inl refl
  reshare_keeps_live (c ∷ cs) db = elim (handle_keeps c db) [
    | inr committed ↦ inr (inl committed)
    | inl same ↦ elim (reshare_keeps_live cs (handle c db)) [
      | inl kept ↦ inl (kept ∙ same)
      | inr later ↦ inr (inr later)
    ]
  ]
