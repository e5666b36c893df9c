-- ===== src/Matchmaking/Redis.antt =====
-- What the scripts in src/modules/matchmaking/infrastructure/lua keep in Redis. There is one mode,
-- so there is one queue, and a guard is set or not. Keys of different shapes never meet, so each
-- shape is a map of its own. A script runs alone. The times to live are left out: no key expires
-- while the operations here run.
use clu_chess.Base.{
  ℕ, suc, ◌==◌, ltb, Bool, true, false, not, ◌&&◌, ◌||◌, Option, none, some, List, [], ◌∷◌,
  if◌then◌else◌,
}
use clu_chess.Base.Number.{ℤ, ltb_ℤ, eqb_ℤ}
use clu_chess.Store.Rows.{Uuid}
use clu_chess.Store.Tables.{find, filter}

-- A member of the sorted set `mm:queue:blitz`.
pub record Ticket : Type 0 where
  pub guest : Uuid
  pub score : ℤ

pub data UserState : Type 0 where
  idle in_game queued reserved : UserState

-- `MatchReservation`, less the mode.
pub record MatchReservation : Type 0 where
  pub a : Uuid
  pub a_score : ℤ
  pub b : Uuid
  pub b_score : ℤ
  pub created_at : ℤ
  pub game_id : Uuid
  pub match_id : Uuid

pub record Redis : Type 0 where
  pub queue : List Ticket
  pub guards : Uuid → Bool
  pub states : Uuid → Option UserState
  pub active : Uuid → Option Uuid
  pub presence : Uuid → List ℤ
  pub reservations : Uuid → Option MatchReservation

abbrev pub is_state : UserState → Option UserState → Bool
is_state idle (some idle) = true
is_state in_game (some in_game) = true
is_state queued (some queued) = true
is_state reserved (some reserved) = true
is_state _ _ = false

-- `SET` of one key, and `DEL` where the value is the absent one.
unfoldable pub put {ℓ} : {A : Type ℓ} → Uuid → A → (Uuid → A) → Uuid → A
put key value f i = if i == key then value else f i

-- The order of a sorted set: by score, then by member.
abbrev pub comes_before : Ticket → Ticket → Bool
comes_before x y = ltb_ℤ x.score y.score || (eqb_ℤ x.score y.score && ltb x.guest y.guest)

abbrev pub insert : Ticket → List Ticket → List Ticket
insert t [] = t ∷ []
insert t (x ∷ xs) = let rest = insert t xs in if comes_before x t then x ∷ rest else t ∷ x ∷ xs

-- `ZREM`.
unfoldable pub zrem : Uuid → List Ticket → List Ticket
zrem guest = filter (λ t. not (t.guest == guest))

-- `ZADD`, which moves a member that is there.
unfoldable pub zadd : Ticket → List Ticket → List Ticket
zadd t q = insert t (zrem t.guest q)

abbrev pub score_of : Option Ticket → Option ℤ
score_of none = none
score_of (some t) = some t.score

-- `ZSCORE`.
unfoldable pub zscore : Uuid → List Ticket → Option ℤ
zscore guest q = score_of (find (λ t. t.guest == guest) q)

-- `ZRANK` of a member that is there, plus 1.
unfoldable pub position : Uuid → List Ticket → ℕ
position guest [] = 1
position guest (t ∷ q) = let rest = position guest q in if t.guest == guest then 1 else suc rest

abbrev pub some_left : List ℤ → Bool
some_left [] = false
some_left (_ ∷ _) = true

-- `is_present`: the connections that have lapsed are removed, and one is left.
unfoldable pub live_connections : ℤ → List ℤ → List ℤ
live_connections now = filter (λ t. ltb_ℤ now t)

unfoldable pub prune_presence : ℤ → Uuid → Redis → Redis
prune_presence now guest r = record r {
  presence = put guest (live_connections now (r.presence guest)) r.presence;
}

unfoldable pub is_present : ℤ → Uuid → Redis → Bool
is_present now guest r = some_left (live_connections now (r.presence guest))
