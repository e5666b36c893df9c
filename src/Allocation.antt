-- ===== src/Allocation.antt =====
-- How a game comes to be: prisma-game.repository.ts of src/modules/game/infrastructure.
pub mod Records
pub mod Allocate
pub mod Ready
pub mod Start
pub mod Queries
pub mod Admission
pub mod Creation
pub mod Joining
pub mod Seating
pub mod Answer
pub mod Rooms
pub mod Readiness
pub mod Starting
pub mod Kickoff
