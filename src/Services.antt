-- ===== src/Services.antt =====
-- The services of src/modules/game that join the repositories.
pub mod Room
pub mod Presenter
pub mod Opening
pub mod Adjudication
pub mod Absentees
pub mod Effect
pub mod Presentation
pub mod Moves
pub mod Deadlines
pub mod Armed
pub mod Announcement
pub mod Timers
