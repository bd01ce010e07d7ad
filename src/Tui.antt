-- ===== src/Tui.antt =====
-- tui/src: the terminal client, as far as it is pure.
pub mod Mentions
pub mod Tokens
pub mod MentionIds
pub mod Grouping
pub mod Width
pub mod Deliveries
pub mod Peers
pub mod Retention
pub mod TerminalText
pub mod PastedImage
pub mod Dialogs
pub mod Navigation
pub mod Commands
mod Tests
