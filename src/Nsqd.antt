-- ===== src/Nsqd.antt =====
-- The daemon that receives, queues and delivers messages.
pub mod Guid
pub mod Message
pub mod InFlight
pub mod Client
pub mod Channel
pub mod Deferred
pub mod Commands
pub mod Publish
pub mod Topic
pub mod Daemon
pub mod Http
pub mod Lookup
pub mod Pump
