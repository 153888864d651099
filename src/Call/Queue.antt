-- ===== src/Call/Queue.antt =====
-- The queue of calls of a worker in src/ida/pool.rs, as an interleaving of the atomic operations on its
-- counter. Beside the counter stand the calls that hold a place and those that are on their way out.
use ida_mcp_rs.Base.{ℕ, suc, ◌+◌, ◌-◌, ◌≤◌, ◌<◌, ◌^◌, ◌≡◌, refl, arith, leb, if◌then◌else◌}
use ida_mcp_rs.Call.Whole.{child_queue_capacity}
use ida_mcp_rs.Workspace.{fetch_add, fetch_sub}

pub record Queue : Type 0 where
  pub queued : ℕ
  pub admitted : ℕ
  pub refusing : ℕ

pub data Move : Type 0 where
  enters : Move
  backs_out : Move
  leaves : Move

-- `enters` is the `fetch_add` of a call with its test, `backs_out` the `fetch_sub` of one that is
-- refused, `leaves` the drop of a `QueuedCall`.
unfoldable pub move : Move → Queue → Queue
move enters q =
    if leb child_queue_capacity q.queued
    then record q { queued = fetch_add q.queued; refusing = q.refusing + 1 }
    else record q { queued = fetch_add q.queued; admitted = q.admitted + 1 }
move backs_out q = record q { queued = fetch_sub q.queued; refusing = q.refusing - 1 }
move leaves q = record q { queued = fetch_sub q.queued; admitted = q.admitted - 1 }

-- Only a call that is there backs out or leaves.
abbrev pub CanMove : Move → Queue → Type 0
CanMove enters q = Unit
CanMove backs_out q = 0 < q.refusing
CanMove leaves q = 0 < q.admitted

pub data Moves : ℕ → Queue → Type 0 where
  none_yet : Moves 0 (record { queued = 0; admitted = 0; refusing = 0 })
  then_moves : {n : ℕ} {q : Queue} → Moves n q → (m : Move) → CanMove m q → Moves (suc n) (move m q)

record IsCounted (n : ℕ) (q : Queue) : Type 0 where
  counted : q.queued ≡ q.admitted + q.refusing
  few : q.queued ≤ n
  within : q.admitted ≤ child_queue_capacity

move-IsCounted :
    (n : ℕ) (m : Move) (q : Queue)
    → n + 1 < 2 ^ 64
    → CanMove m q
    → IsCounted n q
    → IsCounted (suc n) (move m q)
unfolding move
move-IsCounted n enters q small can v = ground (arith, v)
move-IsCounted n backs_out q small can v = ground (arith, v)
move-IsCounted n leaves q small can v = ground (arith, v)

Moves-IsCounted : (n : ℕ) (q : Queue) → n < 2 ^ 64 → Moves n q → IsCounted n q
Moves-IsCounted _ _ small none_yet = record {
  counted = refl;
  few = omega arith;
  within = omega arith;
}
Moves-IsCounted _ _ small (then_moves {n} {q} moves m can) =
    move-IsCounted n m q (omega arith) can (Moves-IsCounted n q (omega arith) moves)

-- In fewer than 2^64 atomic operations of any interleaving, at most 64 calls hold a place in the
-- queue of a worker, and its counter is the number of these and of the calls that are being refused.
pub Moves-capacity :
    (n : ℕ) (q : Queue)
    → n < 2 ^ 64
    → Moves n q
    → (q.admitted ≤ 64) × (q.queued ≡ q.admitted + q.refusing)
Moves-capacity n q small moves = let v = Moves-IsCounted n q small moves in (v.within, v.counted)
