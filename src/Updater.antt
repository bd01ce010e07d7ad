-- ===== src/Updater.antt =====
-- common/updater.ts: the updates.
pub mod Versions
pub mod Releases
mod Tests
