-- ===== src/Lifecycle.antt =====
-- src/modules/game/infrastructure/prisma-game-lifecycle.repository.ts. `now` is the database's
-- `clock_timestamp()` at the statement that locks the game.
pub mod Finalize
pub mod Ending
pub mod Connection
pub mod Resign
pub mod Settlement
pub mod Adjudication
pub mod Verdicts
pub mod Replay
pub mod Reconnection
pub mod Absences
