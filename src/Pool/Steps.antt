-- ===== src/Pool/Steps.antt =====
-- The pool as an interleaving of its locked sections: any task may take the next step. A start that the
-- pool's shutdown discards, or whose task is dropped, is `marks_dead`, `forgets` and `drops_reservation`; the
-- shutdown is `begins_shutdown`, and `marks_dead` and `forgets` for each slot.
use ida_mcp_rs.Base.{ℕ, String, Bool, true, false, ◌||◌, ◌==◌, Option, none, some, ◌≡◌}
use ida_mcp_rs.Error.{ToolError}
use ida_mcp_rs.Pool.Data.{
  Pool, ChildState, idle, leased, closing, dead, is_dead, contains, Result, ok, err,
  WorkerPoolConfig,
}
use ida_mcp_rs.Pool.Spawn
use ida_mcp_rs.Pool.Retire
use ida_mcp_rs.Pool.Lease
use ida_mcp_rs.Pool.Release

pub data Action : Type 0 where
  takes_lease_id : Action
  attempts_lease : String → ℕ → ℕ → Action
  settles_spawn : ℕ → ChildState → ℕ → Option ToolError → Action
  drops_reservation : ℕ → Action
  replenishes : Action
  marks_dead_for_lease : ℕ → ℕ → Action
  marks_dead : ℕ → Action
  reaps : ℕ → ℕ → Action
  forgets : ℕ → Action
  begins_release : ℕ → ℕ → Action
  finishes_release : ℕ → ℕ → ℕ → Option ToolError → Action
  begins_shutdown : Action

abbrev pub after_lease_id : Pool → Result (ℕ × Pool) → Pool
after_lease_id p (ok (id, q)) = q
after_lease_id p (err e) = p

abbrev pub or_unchanged : Pool → Option Pool → Pool
or_unchanged p none = p
or_unchanged p (some q) = q

unfoldable pub step : WorkerPoolConfig → Action → Pool → Pool
step cfg takes_lease_id p = after_lease_id p (Lease.next_lease p)
step cfg (attempts_lease session lease now) p = (Lease.lease_attempt cfg session lease now p).0
step cfg (settles_spawn id state now none) p =
    (Spawn.settle_reservation id true (Spawn.spawn_slot id state now p)).0
step cfg (settles_spawn id state now (some failure)) p = (Spawn.settle_reservation id false p).0
step cfg (drops_reservation id) p = Spawn.drop_reservation id p
step cfg replenishes p = (Spawn.schedule_replenishment cfg p).0
step cfg (marks_dead_for_lease id lease) p = (Retire.take_worker_of_lease id lease p).0
step cfg (marks_dead id) p = (Spawn.take_dead_worker id p).0
step cfg (reaps id sleep_started) p =
    (Retire.take_stale_idle_worker_if_above_min cfg id sleep_started p).0
step cfg (forgets id) p = Spawn.forget_slot id p
step cfg (begins_release id lease) p = or_unchanged p (Release.begin_release id lease p)
step cfg (finishes_release id lease now close_error) p =
    (Release.finish_release id lease now close_error p).0
step cfg begins_shutdown p = Retire.begin_shutdown p

abbrev pub is_closing : ChildState → ℕ → Bool
is_closing idle lease = false
is_closing (leased session m) lease = false
is_closing (closing m) lease = m == lease
is_closing dead lease = false

-- Only the holder of a reservation settles it, and a slot starts alive. A settled reservation is dropped
-- on its own only where the pool shuts down. A slot is forgotten after its child was marked dead. A
-- release ends as it began: the slot's call lock is held between its two parts.
abbrev pub Enabled : Action → Pool → Type 0
Enabled (settles_spawn id state now failure) p =
    (contains id p.spawning ≡ true) × (is_dead state ≡ false)
Enabled (drops_reservation id) p = p.shutting_down ≡ true
Enabled (forgets id) p = is_dead (p.heap id).state ≡ true
Enabled (finishes_release id lease now close_error) p =
    (is_closing (p.heap id).state lease || is_dead (p.heap id).state) ≡ true
Enabled _ p = Unit

pub data Reach (cfg : WorkerPoolConfig) (p : Pool) : Pool → Type 0 where
  here : Reach cfg p p
  next : {q : Pool} → Reach cfg p q → (a : Action) → Enabled a q → Reach cfg p (step cfg a q)
