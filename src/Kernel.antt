-- ===== src/Kernel.antt =====
-- comcmd/kernel: records, the event ledger, the executor and the workflow runner.
pub mod Records
pub mod Ledger
pub mod Executor
pub mod Order
pub mod Aggregate
pub mod Runtime
pub mod Replay
pub mod Steps
pub mod Workflow
pub mod Approval
