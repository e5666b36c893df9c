-- ===== src/Gameplay.antt =====
-- The component of prisma-gameplay.repository.ts.
pub mod History
pub mod Effect
pub mod Submit
pub mod Acceptance
pub mod Written
pub mod Replay
pub mod Refusal
pub mod Plies
pub mod Invariant
pub mod Soundness
pub mod Requests
