-- ===== src/Workers.antt =====
-- comcmd/workers and comcmd/models: what runs a step behind the worker's interface.
pub mod Texts
pub mod Extract
pub mod CliAgents
pub mod OpenWorker
pub mod Models
pub mod Native
pub mod Loop
