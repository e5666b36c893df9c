-- ===== src/Matchmaking/Sweeping.antt =====
-- Removing those who do not wait any more: sweep.lua, and `sweep` of
-- matchmaking-script.service.ts.
use clu_chess.Base.{ℕ, zero, suc, Bool, true, false, Option, some, List, [], ◌∷◌, ◌++◌}
use clu_chess.Base.Number.{ℤ}
use clu_chess.Store.Rows.{Uuid}
use clu_chess.Store.Soundness.{present}
use clu_chess.Matchmaking.Matching.{QueueExitReason, RemovedQueueGuest, reason_of, asked}
use clu_chess.Matchmaking.Queue.{if_queued}
use clu_chess.Matchmaking.Redis.{Ticket, idle, Redis, put, zrem, zscore}

unfoldable pub take : ℕ → List Ticket → List Ticket
take zero q = []
take (suc n) [] = []
take (suc n) (t ∷ q) = t ∷ take n q

unfoldable pub expel : Uuid → Redis → Redis
expel guest r = record r {
  queue = zrem guest r.queue;
  guards = put guest false r.guards;
  states = put guest (if_queued (r.states guest) (some idle)) r.states;
}

abbrev pub Swept : Type 0
Swept = List RemovedQueueGuest × Redis

-- `if reason and ZREM(...) == 1`.
abbrev pub expel_if : Option QueueExitReason → Ticket → Bool → Swept → Swept
expel_if (some reason) t true (removed, r) =
    (removed ++ record { guest = t.guest; reason = reason } ∷ [], expel t.guest r)
expel_if _ t _ swept = swept

unfoldable pub sweep_ticket : ℤ → ℤ → Ticket → Swept → Swept
sweep_ticket now max_wait t (removed, r) =
    expel_if (reason_of now max_wait t r) t (present (zscore t.guest r.queue))
      (removed, asked now max_wait t r)

unfoldable pub sweep_tickets : ℤ → ℤ → List Ticket → Swept → Swept
sweep_tickets now max_wait [] swept = swept
sweep_tickets now max_wait (t ∷ ts) swept =
    sweep_tickets now max_wait ts (sweep_ticket now max_wait t swept)

unfoldable pub sweep : ℤ → ℤ → ℕ → Redis → Swept
sweep now max_wait batch r = sweep_tickets now max_wait (take batch r.queue) ([], r)
