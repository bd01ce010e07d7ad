-- ===== src/Control/Bun.antt =====
-- control/src/index.ts: the Bun server, the other runtime of the control service.
pub mod State
pub mod Limits
pub mod Rooms
pub mod Relay
pub mod Close
pub mod Register
pub mod Messages
pub mod View
pub mod Agreement
pub mod Reading
pub mod Relaying
pub mod Exchange
mod Tests
