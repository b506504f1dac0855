-- ===== src/Server/Clock.antt =====
-- Times of day as crates/mpc-server/src/store.rs keeps them: RFC 3339 texts in UTC, which SQLite and
-- the code compare as texts. An instant is its nanoseconds since 1970; its text is not modelled, only
-- the order of the texts, which is the time crate's.
use mpc_ext.Base.{ℕ, ◌*◌, ◌/◌, ◌<◌, ◌≡◌, Bool, true, false}

abbrev pub nanos : ℕ
nanos = 1000000000

-- The year 10000, from which the formatter fails.
abbrev pub horizon : ℕ
horizon = 253402300800 * nanos

-- `before a b`: the text of `a` is less than the text of `b`. Two texts whose whole seconds differ
-- are ordered by them. Nothing is said of two different instants in one second, where the number of
-- fractional digits decides.
pub record Stamps : Type 0 where
  pub before : ℕ → ℕ → Bool
  pub before_irrefl : (a : ℕ) → before a a ≡ false
  pub before_of_seconds : (a b : ℕ) → b < horizon → a / nanos < b / nanos → before a b ≡ true
  pub not_before_of_seconds : (a b : ℕ) → b < horizon → a / nanos < b / nanos → before b a ≡ false
