-- ===== src/Server.antt =====
-- crates/mpc-server.
pub mod Types
pub mod Clock
pub mod Recovery
pub mod Auth
pub mod Grants
pub mod Sessions
pub mod Ceremonies
pub mod Handlers
pub mod Steps
pub mod Credentials
pub mod Passkeys
pub mod Manage
pub mod Requests
pub mod Keygen
pub mod Signing
pub mod Reshares
mod Examples
