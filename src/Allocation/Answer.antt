-- ===== src/Allocation/Answer.antt =====
-- What `allocate` of prisma-game.repository.ts answers.
use clu_chess.Base.{
  ◌≡◌, refl, inl, inr, ◌==◌, Bool, true, false, ◌&&◌, none, some, List, [], ◌∷◌, ok, arith,
  Bool-cases,
}
use clu_chess.Store.Loading.{players_of, is_first, is_second}
use clu_chess.Store.Rows.{Uuid, GuestRow, PlayerRow, Database}
use clu_chess.Store.Seats.{is_seated, IsAllocated}
use clu_chess.Store.Tables.{filter-++, find, filter, find_game, find-append_new}
use clu_chess.Store.Tx.{next}
use clu_chess.Allocation.Admission.{IsAdmissible, no_match}
use clu_chess.Allocation.Allocate.{
  AllocationResult, allocate, allocate_in_transaction, create_game, allocated_tables, new_game,
  new_players, matches_reservation, guest_ids, new_black, new_white,
}
use clu_chess.Allocation.Creation.{found_new}
use clu_chess.Allocation.Records.{
  AllocateGame, PersistedAllocation, GameAllocation, SeatedPlayer, include_players, find_allocation,
  find_match, with_guests, map_game, map_player, map_allocation,
}

-- No rows are found where nobody is seated.
pub none_seated :
    (id : Uuid) (test : PlayerRow → Bool) (ps : List PlayerRow)
    → ((guest : Uuid) → is_seated id guest ps ≡ false)
    → filter (λ p. (p.game_id == id) && test p) ps ≡ []
none_seated id test [] h = refl
none_seated id test (p ∷ ps) h =
    let away : (p.game_id == id) ≡ false = ground (arith, h p.guest_session_id) in
    ground (arith, away, none_seated id test ps (λ guest. ground (arith, h guest)))

pub unseated :
    (db : Database) (id guest : Uuid)
    → IsAllocated db
    → find_game id db.games ≡ none
    → is_seated id guest db.players ≡ false
unseated db id guest v h = elim (Bool-cases (is_seated id guest db.players)) [
  | inl s ↦ cc (v.stored id guest s, h)
  | inr s ↦ s
]

module _ (fresh : Uuid × Uuid) (input : AllocateGame) (db : Database) where
  pub new_players_lem :
      IsAllocated db
      → find_game input.game_id db.games ≡ none
      → players_of input.game_id (allocated_tables fresh input db).players ≡ new_players fresh input
  unfolding players_of allocated_tables new_players
  new_players_lem v h =
      let away : (guest : Uuid) → is_seated input.game_id guest db.players ≡ false =
        λ guest. unseated db input.game_id guest v h in
      ground (
        arith,
        filter-++ (λ p. (p.game_id == input.game_id) && is_first p.slot) db.players
            (new_players fresh input),
        filter-++ (λ p. (p.game_id == input.game_id) && is_second p.slot) db.players
            (new_players fresh input),
        none_seated input.game_id (λ p. is_first p.slot) db.players away,
        none_seated input.game_id (λ p. is_second p.slot) db.players away,
      )

  abbrev pub white_seat : GuestRow → SeatedPlayer
  white_seat guest = record { player = new_white fresh input; guest = guest }

  abbrev pub black_seat : GuestRow → SeatedPlayer
  black_seat guest = record { player = new_black fresh input; guest = guest }

  -- The new game with its players.
  unfoldable pub new_allocation : GuestRow → GuestRow → PersistedAllocation
  new_allocation white_guest black_guest = record {
    game = new_game input;
    players = white_seat white_guest ∷ black_seat black_guest ∷ [];
  }

  -- The answer to the allocation.
  abbrev pub new_record : GuestRow → GuestRow → GameAllocation
  new_record white_guest black_guest = record {
    game = map_game (new_game input);
    players = (map_player (white_seat white_guest), map_player (black_seat black_guest));
  }

  module _ (white_guest black_guest : GuestRow) (admitted : IsAdmissible input db)
      (v : IsAllocated db)
      (white_stored : find (λ g. g.id == input.white_guest_session_id) db.guests ≡ some white_guest)
      (black_stored : find (λ g. g.id == input.black_guest_session_id) db.guests
        ≡ some black_guest) where
    guests_read :
        with_guests (allocated_tables fresh input db).guests (new_players fresh input)
        ≡ some (white_seat white_guest ∷ black_seat black_guest ∷ [])
    unfolding with_guests new_players allocated_tables
    guests_read = ground (arith, white_stored, black_stored)

    reads_new :
        {R : Type 0}
        → include_players {R = R} (some (new_game input)) (allocated_tables fresh input db)
          ≡ next (some (new_allocation white_guest black_guest)) (allocated_tables fresh input db)
    unfolding include_players new_allocation new_game
    reads_new = rw (new_players_lem v admitted.new_id) (rw guests_read refl)

    reads_created :
        {R : Type 0}
        → find_allocation {R = R} input.game_id (allocated_tables fresh input db)
          ≡ next (some (new_allocation white_guest black_guest)) (allocated_tables fresh input db)
    unfolding find_allocation
    reads_created = rw (found_new fresh input db admitted.new_id) reads_new

    found_match :
        find_match input.match_id (allocated_tables fresh input db).games ≡ some (new_game input)
    unfolding find_match allocated_tables
    found_match =
        find-append_new (λ g. g.match_id == input.match_id) db.games (new_game input)
          (unfold find_match in admitted.new_match) (unfold new_game in ground arith)

    matches_new : matches_reservation (new_allocation white_guest black_guest) input ≡ true
    unfolding matches_reservation new_allocation new_game guest_ids
    matches_new = ground arith

    -- An admissible allocation.
    pub allocate_lem :
        allocate fresh input db
        ≡ (ok (new_record white_guest black_guest), allocated_tables fresh input db)
    unfolding allocate allocate_in_transaction create_game new_allocation map_allocation
    allocate_lem = ground (
      arith,
      no_match {R = AllocationResult} db,
      admitted.distinct,
      admitted.new_match,
      admitted.eligible,
      admitted.unassigned,
      admitted.checked,
      admitted.new_id,
      reads_created {R = AllocationResult},
    )

    repeated :
        (again : Uuid × Uuid)
        → allocate again input (allocated_tables fresh input db)
          ≡ (ok (new_record white_guest black_guest), allocated_tables fresh input db)
    unfolding allocate allocate_in_transaction map_allocation new_allocation
    repeated again =
        ground
          (arith, admitted.distinct, found_match, reads_new {R = AllocationResult}, matches_new)

    -- An admissible allocation, for two guests that are stored, to tables where every player's
    -- game is stored and the players of open games are assigned to them, that is repeated with
    -- any other ids for the players' rows gives the same answer as the first time and leaves
    -- the tables as the first one left them.
    pub allocate-allocate :
        (again : Uuid × Uuid)
        → allocate again input (allocate fresh input db).1 ≡ allocate fresh input db
    allocate-allocate again = rw allocate_lem (repeated again)
