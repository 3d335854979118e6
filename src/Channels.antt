-- ===== src/Channels.antt =====
-- The channels of `channels/src`.
pub mod Ring
pub mod Mpmc
pub mod Oneshot
pub mod Mailbox
mod Tests
