-- ===== src/Ipc.antt =====
-- common/ipc-client.ts: the client of the daemon's socket.
pub mod Client
mod Tests
