-- ===== src/Control.antt =====
-- control/src/worker.ts and control/src/config.ts: the control service, which lets devices find
-- one another in rooms and relays their frames.
pub mod Config
pub mod Wire
pub mod State
pub mod Limits
pub mod Rooms
pub mod Relay
pub mod Pending
pub mod Close
pub mod Register
pub mod Messages
pub mod Bun
pub mod System
mod Tests
