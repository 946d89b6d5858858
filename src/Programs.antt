-- ===== src/Programs.antt =====
-- The programs under kv-distributed/cmd: the demonstration of the client, and the start and the stop
-- of the two servers.
pub mod Script
pub mod ClientMain
pub mod Serves
pub mod ServedCalls
pub mod ClientRun
pub mod ServerMain
pub mod Lifecycle
pub mod ServerLife
pub mod HttpLife
