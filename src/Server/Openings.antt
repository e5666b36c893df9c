-- ===== src/Server/Openings.antt =====
-- What the operations of prisma-game.repository.ts leave: `allocate`, `markReady` and
-- `startIfReady`.
use clu_chess.Base.{◌<◌, ◌≡◌, refl, sym, inl, inr, ◌==◌, Bool, true, false, some, arith}
use clu_chess.Base.Number.{ℤ}
use clu_chess.Game.{ready, waiting_for_players, eq_status}
use clu_chess.Game.StateMachine.Runs.{is_terminal}
use clu_chess.Store.LockedClock.{is_live}
use clu_chess.Store.Rows.{Uuid, GameRow, Database}
use clu_chess.Store.Seats.{is_seated, IsAllocated-same, update-IsAllocated, seats-update_where}
use clu_chess.Store.Soundness.{IsSound, IsConsistent-same, update-IsConsistent}
use clu_chess.Store.Tables.{find_game, update_game, find_game-id}
use clu_chess.Lifecycle.Connection.{update_player}
use clu_chess.Allocation.Admission.{IsAdmissible, allocate_cases}
use clu_chess.Allocation.Allocate.{allocate, allocated_tables, new_game}
use clu_chess.Allocation.Creation.{allocated-IsConsistent}
use clu_chess.Allocation.Joining.{
  IsJoinable, bump, completes, joined_tables, readied_tables, mark_ready_cases,
}
use clu_chess.Allocation.Ready.{mark_ready, joining, ready_row}
use clu_chess.Allocation.Records.{AllocateGame, MarkGameReady, PersistedAllocation, SeatedPlayer}
use clu_chess.Allocation.Seating.{allocated-IsAllocated}
use clu_chess.Allocation.Start.{start_if_ready, started_row}
use clu_chess.Allocation.Starting.{started_tables, start_if_ready_cases}
use clu_chess.Server.Progress.{Proceeds, same_rows, updates, adds, stays}

-- An update of an open game that keeps it open and sound.
opened-Proceeds :
    (db after : Database) (g : GameRow) (f : GameRow → GameRow)
    → find_game g.id db.games ≡ some g
    → is_terminal g.status ≡ false
    → ((x : GameRow) → (f x).id ≡ x.id)
    → is_terminal (f g).status ≡ false
    → (IsSound g → IsSound (f g))
    → g.version < (f g).version
    → after.games ≡ (update_game g.id g.version f db.games).1
    → after.assignments ≡ db.assignments
    → ((i guest : Uuid) → is_seated i guest after.players ≡ is_seated i guest db.players)
    → Proceeds db after
opened-Proceeds db after g f found open_end same still sound later games kept seats = record {
  consistent = λ v.
      IsConsistent-same _
        (update-IsConsistent db g.id g.version f same
          (λ x here. let e : g ≡ x = ground (arith, found, here) in rw (sym e) still)
          (λ x here s.
            let e : g ≡ x = ground (arith, found, here) in rw (sym e) (sound (rw (sym e) at s)))
          v)
        games kept;
  allocated = λ v. update-IsAllocated db after g f found open_end same games seats kept v;
  rows = updates (record {
    row = g;
    change = f;
    found = found;
    open_end = open_end;
    same_id = same;
    later = later;
    games = games;
  });
}

allocated-Proceeds :
    (fresh : Uuid × Uuid) (input : AllocateGame) (db : Database)
    → IsAdmissible input db
    → Proceeds db (allocated_tables fresh input db)
allocated-Proceeds fresh input db h = record {
  consistent = λ v. allocated-IsConsistent fresh input db h v;
  allocated = λ v. allocated-IsAllocated fresh input db h v;
  rows = adds (record {
    row = new_game input;
    new_id = unfold new_game in h.new_id;
    games = unfold allocated_tables in refl;
  });
}

pub Proceeds-allocate :
    (fresh : Uuid × Uuid) (input : AllocateGame) (db : Database)
    → Proceeds db (allocate fresh input db).1
Proceeds-allocate fresh input db = elim (allocate_cases fresh input db) [
  | inl same ↦ rw same (stays db)
  | inr (h, made) ↦ rw made (allocated-Proceeds fresh input db h)
]

joined_seats :
    (input : MarkGameReady) (s : SeatedPlayer) (db : Database) (i guest : Uuid)
    → is_seated i guest (joined_tables input s db).players ≡ is_seated i guest db.players
unfolding joined_tables update_player joining
joined_seats input s db i guest =
    seats-update_where (λ p. p.id == s.player.id) (joining input.observed_at s.player) db.players i
      guest (λ p. refl) (λ p. refl)

ready_row-IsSound :
    (g : GameRow)
    → eq_status g.status waiting_for_players ≡ true
    → IsSound g
    → IsSound (bump ready_row g)
unfolding eq_status is_live
ready_row-IsSound g h s = record {
  result = ground (arith, s.result);
  termination = ground (arith, s.termination);
  ended = ground (arith, s.ended);
  turn = ground (arith, s.turn);
  started = ground arith;
  white = s.white;
  black = s.black;
  increment = s.increment;
}

readied-Proceeds :
    (c : Bool) (input : MarkGameReady) (db : Database) (a : PersistedAllocation) (s : SeatedPlayer)
    → IsJoinable input db a s
    → completes input a.game s db ≡ c
    → Proceeds db (readied_tables c input a.game s db)
unfolding readied_tables
readied-Proceeds false input db a s h c = record {
  consistent = λ v.
      IsConsistent-same _ v (unfold joined_tables update_player in refl)
        (unfold joined_tables update_player in refl);
  allocated = λ v.
      IsAllocated-same db _ (unfold joined_tables update_player in refl) (joined_seats input s db)
        (unfold joined_tables update_player in refl) v;
  rows = same_rows (unfold joined_tables update_player in refl);
}
readied-Proceeds true input db a s h c =
    let waiting : eq_status a.game.status waiting_for_players ≡ true =
      unfold completes in ground (arith, c) in
    opened-Proceeds db _ a.game (bump ready_row)
      (rw (sym (find_game-id input.game_id db.games a.game h.found)) at h.found)
      (unfold eq_status in ground (arith, waiting)) (λ x. refl) refl
      (ready_row-IsSound a.game waiting) (ground arith) (unfold joined_tables update_player in refl)
      (unfold joined_tables update_player in refl) (joined_seats input s db)

pub Proceeds-mark_ready :
    (input : MarkGameReady) (db : Database) → Proceeds db (mark_ready input db).1
Proceeds-mark_ready input db = elim (mark_ready_cases input db) [
  | inl same ↦ rw same (stays db)
  | inr (a, s, h, joined) ↦
      rw joined (readied-Proceeds (completes input a.game s db) input db a s h refl)
]

started_row-IsSound :
    (now : ℤ) (g : GameRow)
    → eq_status g.status ready ≡ true
    → IsSound g
    → IsSound (bump (started_row now) g)
unfolding eq_status is_live
started_row-IsSound now g h s = record {
  result = ground (arith, s.result);
  termination = ground (arith, s.termination);
  ended = ground (arith, s.ended);
  turn = refl;
  started = λ _. refl;
  white = s.white;
  black = s.black;
  increment = s.increment;
}

pub Proceeds-start_if_ready :
    (now : ℤ) (id : Uuid) (db : Database) → Proceeds db (start_if_ready now id db).1
Proceeds-start_if_ready now id db = elim (start_if_ready_cases now id db) [
  | inl same ↦ rw same (stays db)
  | inr (g, found, is_ready, started) ↦ rw started (
      opened-Proceeds db (started_tables now g db) g (bump (started_row now))
        (rw (sym (find_game-id id db.games g found)) at found)
        (unfold eq_status in ground (arith, is_ready)) (λ x. refl) refl
        (started_row-IsSound now g is_ready) (ground arith) (unfold started_tables in refl)
        (unfold started_tables in refl) (λ i guest. unfold started_tables in refl))
]
