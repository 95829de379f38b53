-- ===== src/ApiServer.antt =====
-- The API server, server/apiserver: its options, and the aggregator's registration and health check.
mod Errors
mod Sets
pub mod Ints
pub mod WatchCache
pub mod Texts
pub mod Authorization
pub mod Authentication
pub mod Aggregator
pub mod Etcd
pub mod Server
pub mod Options
pub mod Generic
pub mod Chain
mod Tests
