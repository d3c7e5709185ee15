-- ===== src/Cache/Delivery.antt =====
-- What the synchronous flush of `close` leaves in a shard and in the source of truth.
mod Tries
mod Jobs
pub mod Lists
pub mod Shards
