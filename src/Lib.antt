-- ===== src/Lib.antt =====
-- Clu-Chess: the authoritative chess server of this repository.
--
-- A game is a row in PostgreSQL with two players, an assignment for each guest who plays, moves and
-- stored commands. Every operation is one transaction that locks the game's row, so the operations
-- on a game happen one after the other; here each is a function on the tables, which also takes the
-- time that PostgreSQL observes under the lock, in milliseconds. A transaction that throws leaves
-- the tables as they were.
--
-- The parts, and the code that they model:
--   Base, with its children: numbers, lists, results, and names shared by all modules.
--   Game: src/modules/game/domain/game.types.ts, game.errors.ts, game-service.errors.ts.
--   Game/Terminal: src/modules/game/domain/terminal-result.ts (deriveTerminalOutcome and its helpers).
--     Terminal/Presence: absence and no-show. Terminal/Outcomes: which events have which outcomes.
--   Game/StateMachine: src/modules/game/domain/game-state-machine.ts (TRANSITION_RULES,
--     transitionGame). StateMachine/Runs, Histories: accepted transitions and sequences of them.
--     StateMachine/Adjudication: the outcomes of terminal events against the table.
--   Game/Clock: src/modules/game/domain/game-clock.ts. Clock/WellFormed, Admission, Deadline: its
--     predicates, admitMoveOnClock, and the deadline, the pause and the view.
--   Chess: src/modules/chess/application/ports/chess-engine.ts. The engine is an argument of the
--     operations that ask it.
--   Store: prisma/schema.prisma and src/modules/persistence. Store/Rows has the tables, Store/Tables
--     the queries on them, Store/Tx the transactions (run), Store/LockedClock and Store/Loading what
--     is read under the lock (lockGameClock, findGame), Store/Codec the text columns, and
--     Store/Soundness and Store/Seats the constraints of the migration as
--     invariants.
--   Lifecycle: src/modules/game/infrastructure/prisma-game-lifecycle.repository.ts.
--     Lifecycle/Finalize: finalizeTerminal. Lifecycle/Ending: terminateForReset, adjudicateTimeout,
--     adjudicateNoShow, adjudicateAbandonment, findDeadline. Lifecycle/Connection: markDisconnected,
--     markReconnected. Lifecycle/Resign: resign. Lifecycle/Settlement, Adjudication, Verdicts,
--     Replay, Reconnection, Absences: what they do.
--   Gameplay: src/modules/game/infrastructure/prisma-gameplay.repository.ts (submitMove).
--     Gameplay/History: the moves of a game. Gameplay/Effect: what a move computes.
--     Gameplay/Submit: the transaction. Gameplay/Acceptance, Written, Replay, Refusal, Plies,
--     Invariant, Soundness, Requests: what it does.
--   Allocation: src/modules/game/infrastructure/prisma-game.repository.ts. Allocation/Records: the
--     types of its port and the mappings. Allocation/Allocate: allocate. Allocation/Ready: markReady.
--     Allocation/Start: startIfReady. Allocation/Queries: findById, findByMatchId, findSnapshot,
--     getGuestMatchEligibility. Allocation/Admission, Creation, Seating, Answer, Joining, Rooms,
--     Readiness, Starting, Kickoff: what they do.
--   Matchmaking: src/modules/matchmaking, and allocate of src/modules/game/game-allocation.service.ts.
--     Matchmaking/Redis: the keys. Matchmaking/Queue: enqueue.lua, leave.lua. Matchmaking/Matching:
--     try-match.lua. Matchmaking/Settling: finalize.lua, rollback.lua, repair-committed.lua.
--     Matchmaking/Sweeping: sweep.lua. Matchmaking/Service: matchmaking.service.ts.
--     Matchmaking/Tickets, Conservation, Pairs, Attempts, Draining: what an attempt does.
--     Matchmaking/Exclusive, Placements, Returning, Reserving, Histories: sequences of the scripts.
--   Services: src/modules/game. Services/Room: game-room.service.ts. Services/Presenter:
--     game-snapshot.presenter.ts. Services/Adjudication: adjudicateGame of game-lifecycle.service.ts.
--     Services/Moves: game-move.service.ts. Services/Deadlines: game-deadline.service.ts.
--     Services/Opening, Absentees, Effect, Presentation, Armed, Timers, Announcement: what they do.
--   Server: the operations of the three repositories together. Server/Progress: how rows follow one
--     another. Server/Moves, Endings, Commands, Connections, Openings: what each operation leaves.
--     Server/Histories: sequences of them.
--   Examples, with its children: the operations on concrete tables.
--
-- How the code is modelled. A `Date` is its time value, or nothing for an invalid date. A number
-- that the code requires to be a safe integer is an integer with that test; NaN and fractions do not
-- occur. Versions and plies are natural numbers, without the bound of a column. Identifiers are
-- natural numbers. A color, a status and a slot column hold one of their values, so the code's tests
-- of these always pass. A table is a list of rows, in the order of insertion; a query by a unique
-- key meets the first row that has it. Recursion is on lists, and on the numbers that bound the loops
-- of try-match.lua (maxScan) and drain (pairBudget) in the code. The keys in Redis are maps from
-- ids, and a script runs alone. The timers of the deadline service are a state that changes with
-- each turn of the event loop.
--
-- Not modelled: the texts of errors; the columns createdAt and updatedAt; the format checks of
-- identifiers, positions and stored acknowledgements; isolation anomalies between transactions that
-- do not lock the same row; the chess rules, which the engine decides; the state of games in Redis;
-- sockets, sessions, and the expiry of keys in Redis and its failures. Failures of the database that
-- the operations here do not have: lockGameClock casts the milliseconds since the turn began to a
-- 32-bit INTEGER, which raises 24.8 days into a turn of a live game; and the CHECK constraints refuse
-- the end of a game before its start (games_ended_after_started_check) and a grace that ends before
-- it begins (game_players_disconnect_state_check). There the code throws and changes
-- nothing, and the model goes on; the theorems that say when an ending or a disconnection is made
-- assume the limits (is_timely) and a grace that is not negative.
pub mod Base
pub mod Game
pub mod Store
pub mod Lifecycle
pub mod Chess
pub mod Gameplay
pub mod Allocation
pub mod Matchmaking
pub mod Services
pub mod Server
mod Examples
