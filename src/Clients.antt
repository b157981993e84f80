-- ===== src/Clients.antt =====
-- The client processes: publisher/pub.c, subscriber/sub.c, manager/manager.c and utils/client.c.
pub mod Connect
pub mod Publisher
pub mod Subscriber
pub mod Manager
pub mod Lines
pub mod Transmission
pub mod Entries
pub mod Listing
mod Witnesses
