-- ===== src/Broker.antt =====
-- The broker's boxes, its sessions and its threads: mbroker/box.c and mbroker/mbroker.c.
pub mod Boxes
pub mod Creation
pub mod Deletion
pub mod Sessions
pub mod Init
pub mod Access
pub mod Publishing
pub mod Subscribing
pub mod Steps
pub mod Writing
pub mod Reading
pub mod Sending
pub mod Receiving
pub mod Pending
pub mod Delivery
pub mod Admission
pub mod Conversation
pub mod PublisherSteps
pub mod PublisherLaws
pub mod Server
pub mod Registration
mod Witnesses
pub mod SessionWitnesses
