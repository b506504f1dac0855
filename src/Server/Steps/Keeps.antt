-- ===== src/Server/Steps/Keeps.antt =====
-- What a chain of the steps of the handlers in crates/mpc-server/src keeps of the database, and what is
-- known of one that replies.
use mpc_ext.Base.{
  ℕ, ◌≡◌, ◌⊎◌, ◌∙◌, refl, ap, Option-cases, Bool-cases, inl, inr, List, Option, none, some, Bool,
  true, false, ◌==◌, arith, length,
}
use mpc_ext.Core.Types.{Result-cases}
use mpc_ext.Core.Sign.{hex_pairs}
use mpc_ext.Server.Types.{Text, Blob, Error, NonceRow, Db}
use mpc_ext.Server.Clock.{Stamps}
use mpc_ext.Server.Auth.{
  Access, Proof, Verifier, Reading, granted, denied, authenticate, authenticate_with_key,
  read_headers, authenticate_headers, reserve_device_nonce,
}
use mpc_ext.Server.Recovery.{device_key}
use mpc_ext.Server.Handlers.{Reply, reply, failed}
use mpc_ext.Server.Steps.{Action, ◌>>=◌, answer, follow, to_reply, need, check, Host, parse_hex32}

-- Only the nonces may differ.
OnlyNonces : Db → Db → Type 0
OnlyNonces db after = after ≡ record db { used_device_nonces = after.used_device_nonces }

module _ (s : Stamps) (v : Verifier) where
  authenticate_headers-OnlyNonces :
      (method path w raw : Text) (key : Blob) (t : Reading) (timestamp : ℕ) (nonce signature : Text)
      (db : Db)
      → OnlyNonces db
          (authenticate_headers s v method path w raw key t timestamp nonce signature db).1
  unfolding authenticate_headers reserve_device_nonce OnlyNonces
  authenticate_headers-OnlyNonces method path w raw key t timestamp nonce signature db =
      ground arith

  read_headers-OnlyNonces :
      (method path w raw : Text) (key : Blob) (t : Reading) (timestamp : Option ℕ)
      (nonce signature : Option Text) (db : Db)
      → OnlyNonces db (read_headers s v method path w raw key t timestamp nonce signature db).1
  unfolding read_headers OnlyNonces
  read_headers-OnlyNonces method path w raw key t (some timestamp) (some nonce) (some signature)
        db =
      authenticate_headers-OnlyNonces method path w raw key t timestamp nonce signature db
  read_headers-OnlyNonces method path w raw key t none _ signature db = refl
  read_headers-OnlyNonces method path w raw key t (some _) none signature db = refl
  read_headers-OnlyNonces method path w raw key t (some _) (some _) none db = refl

  authenticate-OnlyNonces :
      (method path w raw : Text) (p : Proof) (t : Reading) (db : Db)
      → OnlyNonces db (authenticate s v method path w raw p t db).1
  unfolding authenticate authenticate_with_key OnlyNonces
  authenticate-OnlyNonces method path w raw p t db = elim (Option-cases (device_key w db)) [
    | inl miss ↦ rw (miss, authenticate) refl
    | inr (key, there) ↦
        rw (there, authenticate)
          (read_headers-OnlyNonces method path w raw key t p.timestamp p.nonce p.signature db)
  ]

  -- A check of a device proof keeps what does not depend on the nonces.
  pub authenticate_keeps :
      {X : Type 0} (look : Db → X) (method path w raw : Text) (p : Proof) (t : Reading) (db : Db)
      → ((rows : List NonceRow) → look (record db { used_device_nonces = rows }) ≡ look db)
      → look (authenticate s v method path w raw p t db).1 ≡ look db
  unfolding OnlyNonces
  authenticate_keeps look method path w raw p t db blind =
      ap look (authenticate-OnlyNonces method path w raw p t db) ∙ blind _

-- Steps after which `look` sees what it saw before.
module _ {X : Type 0} (look : Db → X) where
  unfoldable pub Keeps : {A : Type 0} → Action A → Type 0
  Keeps m = (db : Db) → look (m db).1 ≡ look db

  pub need-Keeps : {A : Type 0} (e : Error) (o : Option A) → Keeps (need e o)
  unfolding Keeps
  need-Keeps e none db = refl
  need-Keeps e (some a) db = refl

  pub check-Keeps : (e : Error) (c : Bool) → Keeps (check e c)
  unfolding Keeps
  check-Keeps e true db = refl
  check-Keeps e false db = refl

  pub answer-Keeps : {A : Type 0} (a : A) → Keeps (answer a)
  unfolding Keeps
  answer-Keeps a db = refl

  pub follow-Keeps :
      {A B : Type 0} (r : Reply A × Db) (f : A → Action B)
      → ((a : A) → Keeps (f a))
      → look (follow r f).1 ≡ look r.1
  unfolding Keeps
  follow-Keeps (reply a, db) f h = h a db
  follow-Keeps (failed e, db) f h = refl

  pub bind-Keeps :
      {A B : Type 0} (m : Action A) (f : A → Action B)
      → Keeps m
      → ((a : A) → Keeps (f a))
      → Keeps (m >>= f)
  unfolding Keeps
  bind-Keeps m f hm hf db = follow-Keeps (m db) f hf ∙ hm db

-- Steps that keep what `look` sees of the database, or show `Q`.
module _ {X Q : Type 0} (look : Db → X) where
  pub check_keeps :
      {B : Type 0} (e : Error) (c : Bool) (f : Action B) (db : Db)
      → (c ≡ true → (look (f db).1 ≡ look db) ⊎ Q)
      → (look ((check e c >>= (λ _. f)) db).1 ≡ look db) ⊎ Q
  check_keeps e false f db h = inl refl
  check_keeps e true f db h = h refl

  pub admit_keeps :
      {B : Type 0} (a : Access × Db) (f : Action B) (before : X)
      → look a.1 ≡ before
      → (a.0 ≡ granted → (look (f a.1).1 ≡ look a.1) ⊎ Q)
      → (look (follow (to_reply a) (λ _. f)).1 ≡ before) ⊎ Q
  admit_keeps (granted, db) f before kept h = elim (h refl) [
    | inl same ↦ inl (same ∙ kept)
    | inr q ↦ inr q
  ]
  admit_keeps (denied e, db) f before kept h = inl kept

  pub follow_keeps :
      {A B : Type 0} (r : Reply A × Db) (f : A → Action B) (before : X)
      → look r.1 ≡ before
      → ((a : A) → r.0 ≡ reply a → (look (f a r.1).1 ≡ look r.1) ⊎ Q)
      → (look (follow r f).1 ≡ before) ⊎ Q
  follow_keeps (reply a, db) f before kept h = elim (h a refl) [
    | inl same ↦ inl (same ∙ kept)
    | inr q ↦ inr q
  ]
  follow_keeps (failed e, db) f before kept h = inl kept

  pub parse_keeps :
      {B : Type 0} (host : Host) (t : Text) (f : Blob → Action B) (db : Db)
      → ((v : Blob) → (look (f v db).1 ≡ look db) ⊎ Q)
      → (look ((parse_hex32 host t >>= f) db).1 ≡ look db) ⊎ Q
  unfolding parse_hex32
  parse_keeps host t f db h = elim (Bool-cases (length (host.chars t) == 64)) [
    | inr short ↦ rw short (inl refl)
    | inl long ↦ elim (Result-cases (hex_pairs (host.chars t))) [
      | inl (out, e) ↦ rw (long, e) (h (host.blob out))
      | inr (x, e) ↦ rw (long, e) (inl refl)
    ]
  ]

-- What holds of the database that a chain leaves, if it holds of the one that the chain starts with and
-- the steps after this one bring it about.
module _ (P : Db → Type 0) where
  pub need_meets :
      {A B : Type 0} (e : Error) (o : Option A) (f : A → Action B) (db : Db)
      → P db
      → ((a : A) → o ≡ some a → P (f a db).1)
      → P ((need e o >>= f) db).1
  need_meets e none f db start h = start
  need_meets e (some a) f db start h = h a refl

  pub parse_meets :
      {B : Type 0} (host : Host) (t : Text) (f : Blob → Action B) (db : Db)
      → P db
      → ((v : Blob) → P (f v db).1)
      → P ((parse_hex32 host t >>= f) db).1
  unfolding parse_hex32
  parse_meets host t f db start h = elim (Bool-cases (length (host.chars t) == 64)) [
    | inr short ↦ rw short start
    | inl long ↦ elim (Result-cases (hex_pairs (host.chars t))) [
      | inl (out, e) ↦ rw (long, e) (h (host.blob out))
      | inr (x, e) ↦ rw (long, e) start
    ]
  ]

  pub admit_meets :
      {B : Type 0} (a : Access × Db) (f : Action B)
      → P a.1
      → (a.0 ≡ granted → P (f a.1).1)
      → P (follow (to_reply a) (λ _. f)).1
  admit_meets (granted, db) f start h = h refl
  admit_meets (denied e, db) f start h = start

pub reply_inj : {A : Type 0} {x y : A} → reply x ≡ reply y → x ≡ y
reply_inj {x = x} e = ap (λ r. elim r [ reply z ↦ z | failed _ ↦ x ]) e

-- A chain that replies has got past its steps.
pub follow-reply :
    {A B : Type 0} (r : Reply A × Db) (f : A → Action B) (b : B)
    → (follow r f).0 ≡ reply b
    → (a : A) × (r.0 ≡ reply a) × ((f a r.1).0 ≡ reply b)
follow-reply (reply a, db) f b h = (a, refl, h)
follow-reply (failed e, db) f b h = ground arith

pub check-reply :
    {B : Type 0} (e : Error) (c : Bool) (f : Action B) (b : B) (db : Db)
    → ((check e c >>= (λ _. f)) db).0 ≡ reply b
    → (c ≡ true) × ((f db).0 ≡ reply b)
check-reply e true f b db h = (refl, h)
check-reply e false f b db h = ground arith

pub need-reply :
    {A B : Type 0} (e : Error) (o : Option A) (f : A → Action B) (b : B) (db : Db)
    → ((need e o >>= f) db).0 ≡ reply b
    → (a : A) × (o ≡ some a) × ((f a db).0 ≡ reply b)
need-reply e (some a) f b db h = (a, refl, h)
need-reply e none f b db h = ground arith

pub need_only-reply :
    {A : Type 0} (e : Error) (o : Option A) (a : A) (db : Db)
    → (need e o db).0 ≡ reply a
    → o ≡ some a
need_only-reply e (some b) a db h = ap some (reply_inj h)
need_only-reply e none a db h = ground arith
