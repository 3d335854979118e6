-- ===== src/Channels/Tests.antt =====
-- Concrete inputs for the theorems on the channels.
mod Rings
mod Mpmcs
mod Oneshots
mod Mailboxes
