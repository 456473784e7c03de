-- ===== src/Gateway.antt =====
-- comcmd/gateway: tiers, intents, approvals, enrolled credentials, verifiers and the gate itself.
pub mod Policy
pub mod Intents
pub mod Approvals
pub mod Credentials
pub mod Verifier
pub mod State
pub mod Receipts
pub mod Opening
pub mod Gate
