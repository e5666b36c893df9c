-- ===== src/Matchmaking.antt =====
-- src/modules/matchmaking: the queue in Redis, the scripts on it, and the service that calls them.
pub mod Redis
pub mod Queue
pub mod Matching
pub mod Settling
pub mod Tickets
pub mod Conservation
pub mod Pairs
pub mod Sweeping
pub mod Service
pub mod Draining
pub mod Attempts
pub mod Exclusive
pub mod Placements
pub mod Returning
pub mod Reserving
pub mod Histories
