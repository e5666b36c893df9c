-- ===== src/Server.antt =====
-- All operations on the tables of prisma-game-lifecycle.repository.ts and
-- prisma-gameplay.repository.ts together.
pub mod Progress
pub mod Moves
pub mod Endings
pub mod Commands
pub mod Connections
pub mod Histories
pub mod Openings
