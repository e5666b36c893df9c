-- ===== src/Store/LockedClock.antt =====
-- `lockGameClock` of src/modules/persistence/transaction.service.ts: the row and the times that
-- PostgreSQL computes at `clock_timestamp()`, which is an argument here.
use clu_chess.Base.{ℕ, Bool, true, false, ◌&&◌, Option, none, some, if◌then◌else◌}
use clu_chess.Base.Number.{ℤ, pos, ◌-ℤ◌, max_ℤ}
use clu_chess.Game.{GameStatus, in_progress, reconnecting, PlayerColor, b, w, eq_color}
use clu_chess.Store.Rows.{GameRow}

pub record LockedGameClock : Type 0 where
  pub black_clock_ms : ℤ
  pub observed_at : ℤ
  pub status : GameStatus
  pub turn_color : PlayerColor
  pub turn_started_at : Option ℤ
  pub version : ℕ
  pub white_clock_ms : ℤ

-- `status IN ('IN_PROGRESS', 'RECONNECTING')`.
unfoldable pub is_live : GameStatus → Bool
is_live in_progress = true
is_live reconnecting = true
is_live _ = false

-- The `CASE` for one color's column.
locked_ms : GameRow → ℤ → PlayerColor → ℤ → ℤ
unfolding is_live eq_color
locked_ms game observed color stored = elim game.turn_started_at [
  | none ↦ stored
  | some started ↦
      if is_live game.status && eq_color game.turn_color color
      then max_ℤ (pos 0) (stored -ℤ (observed -ℤ started))
      else stored
]

unfoldable pub locked_clock : GameRow → ℤ → LockedGameClock
unfolding locked_ms
locked_clock game observed = record {
  black_clock_ms = locked_ms game observed b game.black_clock_ms;
  observed_at = observed;
  status = game.status;
  turn_color = game.turn_color;
  turn_started_at = game.turn_started_at;
  version = game.version;
  white_clock_ms = locked_ms game observed w game.white_clock_ms;
}
