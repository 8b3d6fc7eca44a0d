-- ===== src/Tests.antt =====
-- The theorems on concrete inputs, and runs of the code's definitions.
mod Queue
mod Guid
mod Codec
mod InFlight
mod System
mod Producer
mod Names
mod Registry
mod Settings
mod Topics
mod Subscribe
mod Cluster
mod Access
mod Connections
mod Flow
