-- ===== src/Matchmaking/Tickets.antt =====
-- How often a guest stands in a queue.
use clu_chess.Base.{
  none, some, ℕ, ◌+◌, ◌≤◌, ◌≡◌, refl, ◌==◌, Bool, false, List, [], ◌∷◌, ◌++◌, arith, if◌then◌else◌,
}
use clu_chess.Store.Rows.{Uuid}
use clu_chess.Matchmaking.Matching.{RemovedQueueGuest, put_back}
use clu_chess.Matchmaking.Redis.{Ticket, insert, zrem, zadd, zscore}

abbrev pub one : Bool → ℕ
one b = if b then 1 else 0

abbrev pub count : Uuid → List Ticket → ℕ
count g [] = 0
count g (t ∷ ts) = one (t.guest == g) + count g ts

abbrev pub count_removed : Uuid → List RemovedQueueGuest → ℕ
count_removed g [] = 0
count_removed g (x ∷ xs) = one (x.guest == g) + count_removed g xs

pub count-++ : (g : Uuid) (xs ys : List Ticket) → count g (xs ++ ys) ≡ count g xs + count g ys
count-++ g [] ys = ground arith
count-++ g (x ∷ xs) ys = ground (arith, count-++ g xs ys)

pub count_removed-++ :
    (g : Uuid) (xs ys : List RemovedQueueGuest)
    → count_removed g (xs ++ ys) ≡ count_removed g xs + count_removed g ys
count_removed-++ g [] ys = ground arith
count_removed-++ g (x ∷ xs) ys = ground (arith, count_removed-++ g xs ys)

pub count-insert :
    (g : Uuid) (t : Ticket) (q : List Ticket)
    → count g (insert t q) ≡ one (t.guest == g) + count g q
count-insert g t [] = refl
count-insert g t (x ∷ q) = ground (arith, count-insert g t q)

pub count-zrem_self : (g : Uuid) (q : List Ticket) → count g (zrem g q) ≡ 0
unfolding zrem
count-zrem_self g [] = refl
count-zrem_self g (x ∷ q) = ground (arith, count-zrem_self g q)

pub count-zrem_other :
    (g h : Uuid) (q : List Ticket) → (h == g) ≡ false → count g (zrem h q) ≡ count g q
unfolding zrem
count-zrem_other g h [] e = refl
count-zrem_other g h (x ∷ q) e = ground (arith, count-zrem_other g h q)

-- A ticket of a guest who is not in the queue.
pub count-zadd :
    (g : Uuid) (t : Ticket) (q : List Ticket)
    → count t.guest q ≡ 0
    → count g (zadd t q) ≡ one (t.guest == g) + count g q
unfolding zadd
count-zadd g t q h = ground (
  arith,
  count-insert g t (zrem t.guest q),
  count-zrem_self t.guest q,
  count-zrem_other g t.guest q,
)

-- Everybody stands in the queue at most once.
abbrev pub IsUnique : List Ticket → Type 0
IsUnique q = (g : Uuid) → count g q ≤ 1

pub zadd-IsUnique : (t : Ticket) (q : List Ticket) → IsUnique q → IsUnique (zadd t q)
unfolding zadd
zadd-IsUnique t q h g = ground (
  arith,
  h g,
  count-insert g t (zrem t.guest q),
  count-zrem_self t.guest q,
  count-zrem_other g t.guest q,
)

pub zrem-IsUnique : (g : Uuid) (q : List Ticket) → IsUnique q → IsUnique (zrem g q)
zrem-IsUnique g q h other = ground (arith, h other, count-zrem_self g q, count-zrem_other other g q)

pub count-put_back :
    (g : Uuid) (ts q : List Ticket)
    → ((x : Uuid) → count x ts + count x q ≤ 1)
    → count g (put_back ts q) ≡ count g ts + count g q
unfolding put_back
count-put_back g [] q h = ground arith
count-put_back g (t ∷ ts) q h =
    let absent : count t.guest q ≡ 0 = ground (arith, h t.guest) in
    ground (
      arith,
      count-put_back g ts (zadd t q) (λ x. ground (arith, h x, count-zadd x t q absent)),
      count-zadd g t q absent,
    )

pub zscore-absent : (g : Uuid) (q : List Ticket) → count g q ≡ 0 → zscore g q ≡ none
unfolding zscore
zscore-absent g [] h = refl
zscore-absent g (x ∷ q) h = ground (arith, zscore-absent g q)

zscore-insert_self :
    (t : Ticket) (q : List Ticket)
    → count t.guest q ≡ 0
    → zscore t.guest (insert t q) ≡ some t.score
unfolding zscore
zscore-insert_self t [] h = ground arith
zscore-insert_self t (x ∷ q) h = ground (arith, zscore-insert_self t q)

zscore-insert_other :
    (g : Uuid) (t : Ticket) (q : List Ticket)
    → (t.guest == g) ≡ false
    → zscore g (insert t q) ≡ zscore g q
unfolding zscore
zscore-insert_other g t [] h = ground arith
zscore-insert_other g t (x ∷ q) h = ground (arith, zscore-insert_other g t q)

zscore-zrem_other :
    (g h : Uuid) (q : List Ticket) → (h == g) ≡ false → zscore g (zrem h q) ≡ zscore g q
unfolding zscore zrem
zscore-zrem_other g h [] e = refl
zscore-zrem_other g h (x ∷ q) e = ground (arith, zscore-zrem_other g h q)

pub zscore-zadd_self : (t : Ticket) (q : List Ticket) → zscore t.guest (zadd t q) ≡ some t.score
unfolding zadd
zscore-zadd_self t q =
    zscore-insert_self t (zrem t.guest q) (ground (arith, count-zrem_self t.guest q))

pub zscore-zadd_other :
    (g : Uuid) (t : Ticket) (q : List Ticket)
    → (t.guest == g) ≡ false
    → zscore g (zadd t q) ≡ zscore g q
unfolding zadd
zscore-zadd_other g t q h =
    ground (arith, zscore-insert_other g t (zrem t.guest q), zscore-zrem_other g t.guest q)
