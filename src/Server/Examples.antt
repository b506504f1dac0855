-- ===== src/Server/Examples.antt =====
-- Concrete instances for the tests: an order of instants by their whole seconds, and a verifier that
-- accepts one signature.
mod RecoveryRuns
mod Access
mod Grants
mod Sessions
mod Protocols
mod Ceremonies
mod Reshares
use mpc_ext.Base.{ℕ, ◌/◌, ◌<◌, ◌≡◌, arith, Bool, true, false, ltb, ◌==◌, Option, some, none, refl}
use mpc_ext.Server.Types.{Text, Blob}
use mpc_ext.Server.Clock.{Stamps, nanos, horizon}
use mpc_ext.Server.Auth.{Verifier}

abbrev pub by_second : Stamps
by_second = record {
  before = λ a b. ltb (a / nanos) (b / nanos);
  before_irrefl = λ a. ground arith;
  before_of_seconds = λ a b h lt. ground arith;
  not_before_of_seconds = λ a b h lt. ground arith;
}

-- The signature 9 of key 5 over the message that stands for its body.
abbrev pub one_key : Verifier
one_key = record {
  len = λ n. n;
  is_key = λ k. k == 5;
  decode_base64 = λ t. some t;
  is_signature = λ b. b == 9;
  message = λ method path timestamp nonce raw. raw;
  verify = λ k m b. b == 9;
}
