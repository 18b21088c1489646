-- ===== src/Daemon.antt =====
-- src/daemon.rs: a RESP server over the cache engine, the slot registry, the content store and the
-- audit log. The sockets and the threads are left out: a command is one step on the shared state.
pub mod Quota
pub mod Flusher
pub mod World
pub mod Engines
pub mod Bundles
pub mod Verified
pub mod Protocol
pub mod Printing
pub mod Reads
pub mod Writes
pub mod Commands
pub mod Connection
pub mod KeyFiles
pub mod Processes
