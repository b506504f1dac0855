-- ===== src/Core.antt =====
-- crates/mpc-core.
pub mod Types
pub mod Maps
pub mod Field
pub mod Upstream
pub mod Dkg
pub mod Sign
pub mod Reshare
pub mod Drive
pub mod Examples
pub mod SignExamples
pub mod ReshareExamples
