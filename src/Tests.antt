-- ===== src/Tests.antt =====
-- Tests of the model on concrete inputs.
pub mod Encoding
pub mod Sorting
pub mod Sample
pub mod Authorization
pub mod Ledgers
pub mod Orders
pub mod Declarations
pub mod Tables
pub mod Runs
pub mod Interleavings
pub mod Agents
pub mod Loops
pub mod Evaluations
pub mod Services
pub mod Operators
pub mod Passkeys
