-- ===== src/Server/Manage.antt =====
-- crates/mpc-server/src/manage.rs: seeing and cancelling a recovery with the passkey alone. The pages
-- and the headers of the answers are left out; a cookie is the list of its characters, and the SHA-256
-- of a token is a parameter.
pub mod Guarded
use mpc_ext.Base.{
  ℕ, List, [], ◌∷◌, ◌++◌, Option, none, some, Bool, true, false, not, ◌&&◌, ◌||◌, ◌==◌, ltb, leb,
  if◌then◌else◌, length,
}
use mpc_ext.Server.Types.{Text, Blob, Error, Db}
use mpc_ext.Server.Clock.{Stamps}
use mpc_ext.Server.Auth.{Verifier}
use mpc_ext.Server.Recovery.{cancel_recovery, live_recoveries}
use mpc_ext.Server.Handlers.{Formats, PendingRecovery, pending_rows}
use mpc_ext.Server.Credentials.{open_manage_session, manage_session_wallet, live_manage_challenges}
use mpc_ext.Server.Steps.{Action, ◌>>=◌, answer, fail, query, query_writing, need, check, Host}
use mpc_ext.Server.Passkeys.{Webauthn, Begun, Options, manage_options, verify_manage_assertion}
use mpc_ext.Server.Passkeys.Checks.{all_chars}

-- "mpc_manage_session"
abbrev pub session_cookie : List ℕ
session_cookie =
    109 ∷ 112 ∷ 99 ∷ 95 ∷ 109 ∷ 97 ∷ 110 ∷ 97 ∷ 103 ∷ 101 ∷ 95 ∷ 115 ∷ 101 ∷ 115 ∷ 115 ∷ 105 ∷ 111
    ∷ 110 ∷ []

abbrev pub manage_session_ttl_seconds : ℕ
manage_session_ttl_seconds = 300

abbrev pub max_live_challenges : ℕ
max_live_challenges = 200

pub record ManageFinish : Type 0 where
  pub challenge_id : Text
  pub credential : Text

unfoldable pub same_chars : List ℕ → List ℕ → Bool
same_chars [] [] = true
same_chars (c ∷ cs) (d ∷ ds) = (c == d) && same_chars cs ds
same_chars _ _ = false

-- A space or a tab: the white space that a readable header can have.
abbrev pub is_blank : ℕ → Bool
is_blank c = (c == 32) || (c == 9)

unfoldable pub trim_start : List ℕ → List ℕ
trim_start [] = []
trim_start (c ∷ cs) = let rest = trim_start cs in if is_blank c then rest else c ∷ cs

unfoldable pub trim_end : List ℕ → List ℕ
trim_end [] = []
trim_end (c ∷ cs) = elim (trim_end cs) [
  | [] ↦ if is_blank c then [] else c ∷ []
  | d ∷ ds ↦ c ∷ d ∷ ds
]

-- At the first separator, if there is one.
unfoldable pub split_once : ℕ → List ℕ → Option (List ℕ × List ℕ)
split_once sep [] = none
split_once sep (c ∷ cs) =
    let rest = split_once sep cs in
    if c == sep
    then some ([], cs)
    else elim rest [ none ↦ none | some (before, after) ↦ some (c ∷ before, after) ]

-- The value of a part of the cookie that names the session.
unfoldable pub value_of : List ℕ → Option (List ℕ)
unfolding split_once trim_start trim_end same_chars
value_of part = elim (split_once 61 (trim_start (trim_end part))) [
  | none ↦ none
  | some (name, value) ↦ if same_chars name session_cookie then some value else none
]

-- `split(';').find_map`; `part` holds the characters since the last separator.
unfoldable pub find_value : List ℕ → List ℕ → Option (List ℕ)
unfolding value_of
find_value part [] = value_of part
find_value part (c ∷ cs) = elim (c == 59) [
  | false ↦ find_value (part ++ c ∷ []) cs
  | true ↦ elim (value_of part) [ none ↦ find_value [] cs | some value ↦ some value ]
]

abbrev pub is_token : List ℕ → Bool
is_token token =
    not (length token == 0) && leb (length token) 128 && all_chars (λ c. ltb c 128) token

unfoldable pub token_of : Option (List ℕ) → Option (List ℕ)
unfolding find_value
token_of none = none
token_of (some cookie) = elim (find_value [] cookie) [
  | none ↦ none
  | some token ↦ if is_token token then some token else none
]

-- The configured origin, and the hash of a token.
pub record Site : Type 0 where
  pub origin : Text
  pub session_hash : List ℕ → Blob

unfoldable pub require_origin : Site → Option Text → Action (Unit {0})
require_origin site none = fail Error.authentication
require_origin site (some origin) = check Error.authentication (origin == site.origin)

unfoldable pub session_wallet : Site → Option (List ℕ) → ℕ → Action Text
session_wallet site cookie now = do
  token ← need Error.authentication (token_of cookie)
  found ← query (manage_session_wallet (site.session_hash token) now)
  need Error.authentication found

module _ (h : Host) (a : Webauthn) (s : Stamps) (v : Verifier) (f : Formats) (site : Site) where
  unfoldable pub view : Text → ℕ → Action (List PendingRecovery)
  view w now = query (λ db. pending_rows s v f (live_recoveries w now db))

  unfoldable pub challenge : Begun → ℕ → ℕ → Action Options
  challenge drawn now later = do
    live ← query (live_manage_challenges s now)
    _ ← check Error.rate_limited (ltb live max_live_challenges)
    manage_options h a drawn later

  -- The token is drawn at random; the answer sets it as the cookie.
  unfoldable pub open_session :
      ManageFinish → Option Text → List ℕ → ℕ → ℕ → ℕ → Action (List ℕ × List PendingRecovery)
  open_session request origin token now opened seen = do
    _ ← require_origin site origin
    wallet_id ← verify_manage_assertion h a s request.challenge_id request.credential now
    stored ←
        query_writing (
          open_manage_session (site.session_hash token) wallet_id manage_session_ttl_seconds opened)
    _ ← check Error.storage stored
    waiting ← view wallet_id seen
    answer (token, waiting)

  unfoldable pub manage_cancel :
      Text → Option Text → Option (List ℕ) → ℕ → ℕ → Action (List PendingRecovery)
  manage_cancel request_id origin cookie now seen = do
    _ ← require_origin site origin
    wallet_id ← session_wallet site cookie now
    cancelled ← query_writing (cancel_recovery request_id wallet_id)
    _ ← check Error.unknown_session cancelled
    view wallet_id seen
