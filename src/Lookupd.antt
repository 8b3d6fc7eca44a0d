-- ===== src/Lookupd.antt =====
-- The daemon that knows which nsqd has which topics and channels.
pub mod Db
pub mod Session
pub mod Http
