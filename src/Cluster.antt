-- ===== src/Cluster.antt =====
-- internal/clusterinfo: what nsqadmin, and an nsqd with a new topic, learn of a cluster from its
-- nsqlookupds and nsqds over HTTP, and the changes that nsqadmin makes to all of them.
pub mod Sort
pub mod Gather
pub mod Names
pub mod AnyOrder
pub mod Producers
pub mod Tally
pub mod Merged
pub mod Union
pub mod Nsqds
pub mod Uris
pub mod Actions
pub mod Stats
