-- ===== src/Allocation/Joining.antt =====
-- What `markReady` of prisma-game.repository.ts leaves.
use clu_chess.Base.{
  ◌+◌, ◌≡◌, refl, ◌⊎◌, ◌==◌, Bool, true, false, ◌&&◌, ◌||◌, none, some, arith, Option-cases,
  if◌then◌else◌, sym, inl, inr,
}
use clu_chess.Game.{waiting_for_players, eq_status}
use clu_chess.Store.Rows.{GameRow, Database}
use clu_chess.Store.Tables.{find, find_game, update_game, update_game_hit, find_game-id}
use clu_chess.Store.Tx.{next, thrown, unknown}
use clu_chess.Lifecycle.Connection.{update_player}
use clu_chess.Lifecycle.Ending.{is_set}
use clu_chess.Lifecycle.Settlement.{update_game_row_lem}
use clu_chess.Allocation.Admission.{find_allocation-none, find_allocation_cases}
use clu_chess.Allocation.Allocate.{mapped}
use clu_chess.Allocation.Ready.{
  ReadyResult, mark_ready, ready_in_transaction, update_game_at_version, is_joined_status, joining,
  count_joined, ready_row,
}
use clu_chess.Allocation.Records.{
  map_allocation, MarkGameReady, SeatedPlayer, PersistedAllocation, find_allocation,
}

-- The update of a row that has been read.
abbrev pub bump : (GameRow → GameRow) → GameRow → GameRow
bump f g = record (f g) { version = g.version + 1 }

pub update_game_at_version_lem :
    {R : Type 0} (g : GameRow) (f : GameRow → GameRow) (db : Database)
    → find_game g.id db.games ≡ some g
    → (f g).id ≡ g.id
    → update_game_at_version {R = R} g.id g.version f db
      ≡ next
          (some (g.version + 1))
          (record db { games = (update_game g.id g.version (bump f) db.games).1 })
unfolding update_game_at_version
update_game_at_version_lem {R = R} g f db h k = rw (update_game_row_lem {R = R} g (bump f) db h k)

-- The tables once the player has joined, and whether the game is then complete.
unfoldable pub joined_tables : MarkGameReady → SeatedPlayer → Database → Database
joined_tables input s db = update_player s.player.id (joining input.observed_at s.player) db

unfoldable pub completes : MarkGameReady → GameRow → SeatedPlayer → Database → Bool
completes input g s db =
    eq_status g.status waiting_for_players
    && (count_joined input.game_id (joined_tables input s db) == 2)

unfoldable pub readied_tables : Bool → MarkGameReady → GameRow → SeatedPlayer → Database → Database
readied_tables false input g s db = joined_tables input s db
readied_tables true input g s db = record (joined_tables input s db) {
  games = (update_game g.id g.version (bump ready_row) (joined_tables input s db).games).1;
}

abbrev pub is_idempotent : GameRow → SeatedPlayer → Bool
is_idempotent g s = is_set s.player.joined_at && is_joined_status g.status

-- Where a player may be set ready.
pub record IsJoinable (input : MarkGameReady) (db : Database) (a : PersistedAllocation)
    (s : SeatedPlayer) : Type 0 where
  pub found : find_game input.game_id db.games ≡ some a.game
  pub member : find (λ x. x.player.guest_session_id == input.guest_session_id) a.players ≡ some s
  pub current : (input.expected_version == a.game.version) || is_idempotent a.game s ≡ true
  pub status : eq_status a.game.status waiting_for_players || is_joined_status a.game.status ≡ true

module _ (input : MarkGameReady) (db : Database) where
  unknown_game : find_game input.game_id db.games ≡ none → (mark_ready input db).1 ≡ db
  unfolding mark_ready ready_in_transaction
  unknown_game h = ground (arith, find_allocation-none {R = ReadyResult} input.game_id db h)

  unreadable_game :
      find_allocation {R = ReadyResult} input.game_id db ≡ thrown unknown
      → (mark_ready input db).1 ≡ db
  unfolding mark_ready ready_in_transaction
  unreadable_game h = ground arith

  stranger :
      (a : PersistedAllocation)
      → find_allocation {R = ReadyResult} input.game_id db ≡ next (some a) db
      → find (λ x. x.player.guest_session_id == input.guest_session_id) a.players ≡ none
      → (mark_ready input db).1 ≡ db
  unfolding mark_ready ready_in_transaction
  stranger a h m = ground arith

  joined_games : (s : SeatedPlayer) → (joined_tables input s db).games ≡ db.games
  unfolding joined_tables update_player
  joined_games s = refl

  module _ (a : PersistedAllocation) (s : SeatedPlayer)
      (found : find_game input.game_id db.games ≡ some a.game)
      (reads : find_allocation {R = ReadyResult} input.game_id db ≡ next (some a) db)
      (member : find (λ x. x.player.guest_session_id == input.guest_session_id) a.players
        ≡ some s) where
    updates :
        update_game_at_version {R = ReadyResult} a.game.id a.game.version ready_row
          (joined_tables input s db)
        ≡ next (some (a.game.version + 1)) (readied_tables true input a.game s db)
    unfolding readied_tables
    updates =
        update_game_at_version_lem {R = ReadyResult} a.game ready_row (joined_tables input s db)
          (ground (arith, joined_games s, found, find_game-id input.game_id db.games a.game)) refl

    -- The second reading gives the game.
    joins :
        (c : Bool) (a' : PersistedAllocation)
        → completes input a.game s db ≡ c
        → let after = readied_tables c input a.game s db in
          find_allocation {R = ReadyResult} input.game_id after ≡ next (some a') after
          → let after' = (mark_ready input db).1 in
            (after' ≡ db)
            ⊎ (IsJoinable input db a s × (after' ≡ readied_tables c input a.game s db))
    unfolding mark_ready ready_in_transaction completes joined_tables readied_tables
    joins true a' c again = ground (arith, updates)
    joins false a' c again = ground arith

    -- A player of a joinable game, which can be read again, is set ready.
    pub joins_lem :
        (c : Bool) (a' : PersistedAllocation)
        → IsJoinable input db a s
        → completes input a.game s db ≡ c
        → let after = readied_tables c input a.game s db in
          find_allocation {R = ReadyResult} input.game_id after ≡ next (some a') after
          → mark_ready input db ≡ (mapped (map_allocation a'), after)
    unfolding mark_ready ready_in_transaction completes joined_tables readied_tables
    joins_lem true a' h c again = ground (arith, updates, h.current, h.status)
    joins_lem false a' h c again = ground (arith, h.current, h.status)

    unreadable_after :
        (c : Bool)
        → completes input a.game s db ≡ c
        → find_allocation {R = ReadyResult} input.game_id (readied_tables c input a.game s db)
          ≡ thrown unknown
        → (mark_ready input db).1 ≡ db
    unfolding mark_ready ready_in_transaction completes joined_tables readied_tables
    unreadable_after true c again = ground (arith, updates)
    unreadable_after false c again = ground arith

    same_id : input.game_id ≡ a.game.id
    same_id = sym (find_game-id input.game_id db.games a.game found)

    found_after :
        (c : Bool)
        → let row = if c then bump ready_row a.game else a.game in
          find_game input.game_id (readied_tables c input a.game s db).games ≡ some row
    unfolding joined_tables readied_tables update_player
    found_after true = ground (
      arith,
      same_id,
      update_game_hit a.game.id (bump ready_row) a.game db.games (rw same_id at found) refl,
    )
    found_after false = found

    joins_cases :
        (c : Bool)
        → completes input a.game s db ≡ c
        → let after = (mark_ready input db).1 in
          (after ≡ db) ⊎ (IsJoinable input db a s × (after ≡ readied_tables c input a.game s db))
    joins_cases c e =
        elim (find_allocation_cases {R = ReadyResult} input.game_id _ _ (found_after c)) [
          | inl fails ↦ inl (unreadable_after c e fails)
          | inr (a', again, _) ↦ joins c a' e again
        ]

  -- A request to be ready leaves the tables, or a player of a joinable game joins, and the game is
  -- set ready if both players have.
  pub mark_ready_cases :
      let after = (mark_ready input db).1 in
      (after ≡ db)
      ⊎ ((a : PersistedAllocation) × (s : SeatedPlayer) × IsJoinable input db a s
          × (after ≡ readied_tables (completes input a.game s db) input a.game s db))
  mark_ready_cases = elim (Option-cases (find_game input.game_id db.games)) [
    | inl absent ↦ inl (unknown_game absent)
    | inr (g, found) ↦ elim (find_allocation_cases {R = ReadyResult} input.game_id db g found) [
      | inl fails ↦ inl (unreadable_game fails)
      | inr (a, reads, same) ↦
          elim (Option-cases
            (find (λ x. x.player.guest_session_id == input.guest_session_id) a.players)) [
              | inl outside ↦ inl (stranger a reads outside)
              | inr (s, member) ↦ elim (joins_cases a s (rw same found) reads member _ refl) [
                | inl kept ↦ inl kept
                | inr (joinable, joined) ↦ inr (a, s, joinable, joined)
              ]
            ]
    ]
  ]
