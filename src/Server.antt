-- ===== src/Server.antt =====
-- comcmd/server: the long-running process that holds every company.
pub mod State
pub mod Service
pub mod App
