-- ===== src/Pool/Possession.antt =====
-- Who may change a leased slot: the possession of a worker by its lease.
use ida_mcp_rs.Base.{
  ℕ, zero, suc, min, ◌+◌, ◌≤◌, String, ◌≡◌, inl, inr, Bool, true, false, not, ◌&&◌, ◌||◌, Option,
  none, some, [], arith, length, ◌==◌,
}
use ida_mcp_rs.Error.{ToolError, pool_exhausted}
use ida_mcp_rs.Pool.Data.{
  Pool, ChildState, idle, leased, is_dead, is_idle, insert, contains, WorkerPoolConfig,
}
use ida_mcp_rs.Pool.Spawn.{
  reserve_spawn_slot_locked, spawn_slot, settle_reservation, drop_reservation, take_dead_worker,
  forget_slot, replenish, schedule_replenishment,
}
use ida_mcp_rs.Pool.Retire.{
  take_worker_of_lease, take_stale_idle_worker_if_above_min, begin_shutdown,
}
use ida_mcp_rs.Pool.Lease.{next_lease, lease_attempt, scan, Scan-cases, granted, refused}
use ida_mcp_rs.Pool.Release.{begin_release, finish_release, reset_idle}
use ida_mcp_rs.Pool.Counting.{
  scan-found, scan-idle, scan-dead, scan-none_idle, contains-retain_kept, contains-snoc_old,
}
use ida_mcp_rs.Pool.Invariant.{Inv, load}
use ida_mcp_rs.Pool.Steps.{
  Action, takes_lease_id, attempts_lease, settles_spawn, drops_reservation, replenishes,
  marks_dead_for_lease, marks_dead, reaps, forgets, begins_release, finishes_release,
  begins_shutdown, step, Enabled, is_closing, after_lease_id, or_unchanged,
}

-- The steps that may take the slot `id` from the lease `lease`: its own handle's, and those that
-- retire the slot whoever holds it.
abbrev pub may_end : ℕ → ℕ → Action → Bool
may_end id lease (marks_dead_for_lease i m) = (id == i) && (lease == m)
may_end id lease (marks_dead i) = id == i
may_end id lease (begins_release i m) = (id == i) && (lease == m)
may_end id lease _ = false

module _ (cfg : WorkerPoolConfig) (id lease : ℕ) (session : String) (p : Pool) where
  abbrev Holds : Pool → Type 0
  Holds q = ((q.heap id).state ≡ leased session lease) × (contains id q.children ≡ true)

  attempt-Holds : (s : String) (m now : ℕ) → Holds p → Holds (lease_attempt cfg s m now p).0
  unfolding lease_attempt reserve_spawn_slot_locked
  attempt-Holds s m now (held, here) =
      elim (Scan-cases (scan p.heap (length p.spawning) [] p.children)) [
        | inl (i, hit) ↦ ground (arith, scan-found p.heap (length p.spawning) i [] p.children hit)
        | inr (n, ids, none_free) ↦ ground (
          arith,
          contains-retain_kept id (λ i. not (contains i ids)) p.children here,
          scan-dead p.heap (length p.spawning) id n [] ids p.children none_free,
        )
      ]

  settle-Holds :
      (i now : ℕ) (s : ChildState)
      → contains i p.children ≡ false
      → Holds p
      → Holds (settle_reservation i true (spawn_slot i s now p)).0
  unfolding settle_reservation spawn_slot
  settle-Holds i now s apart (held, here) =
      ground (arith, apart, contains-snoc_old id i p.children here)

  retire-Holds : (i : ℕ) → (id == i) ≡ false → Holds p → Holds (take_dead_worker i p).0
  unfolding take_dead_worker
  retire-Holds i other (held, here) = ground arith

  retire_lease-Holds :
      (i m : ℕ)
      → ((id == i) && (lease == m)) ≡ false
      → Holds p
      → Holds (take_worker_of_lease i m p).0
  unfolding take_worker_of_lease
  retire_lease-Holds i m other (held, here) = ground arith

  reap-Holds : (i t : ℕ) → Holds p → Holds (take_stale_idle_worker_if_above_min cfg i t p).0
  unfolding take_stale_idle_worker_if_above_min
  reap-Holds i t (held, here) = ground arith

  forget-Holds : (i : ℕ) → is_dead (p.heap i).state ≡ true → Holds p → Holds (forget_slot i p)
  unfolding forget_slot
  forget-Holds i gone (held, here) =
      ground (arith, contains-retain_kept id (λ j. not (i == j)) p.children here)

  begin_release-Holds :
      (i m : ℕ)
      → ((id == i) && (lease == m)) ≡ false
      → Holds p
      → Holds (or_unchanged p (begin_release i m p))
  unfolding begin_release
  begin_release-Holds i m other (held, here) = ground arith

  finish_release-Holds :
      (i m now : ℕ) (e : Option ToolError)
      → (is_closing (p.heap i).state m || is_dead (p.heap i).state) ≡ true
      → Holds p
      → Holds (finish_release i m now e p).0
  unfolding finish_release reset_idle take_worker_of_lease
  finish_release-Holds i m now none en (held, here) = ground arith
  finish_release-Holds i m now (some e) en (held, here) = ground arith

  replenish-Holds : (fuel target : ℕ) (q : Pool) → Holds q → Holds (replenish fuel target q).0
  unfolding replenish reserve_spawn_slot_locked
  replenish-Holds zero target q h = h
  replenish-Holds (suc fuel) target q h = ground (
    arith,
    replenish-Holds fuel target
        (record q { next_id = q.next_id + 1; spawning = insert q.next_id q.spawning }) h,
  )

  next_lease-Holds : Holds p → Holds (after_lease_id p (next_lease p))
  unfolding next_lease
  next_lease-Holds h = ground arith

  -- A leased, installed worker stays leased to the same session under the same lease, and installed,
  -- through every step but those of its own handle and those that retire it whoever holds it: no
  -- other lease, stale handle, start, reap or replenishment takes it.
  pub step-possession :
      (a : Action) (bound : ℕ)
      → Inv bound p
      → Enabled a p
      → may_end id lease a ≡ false
      → (p.heap id).state ≡ leased session lease
      → contains id p.children ≡ true
      → (((step cfg a p).heap id).state ≡ leased session lease)
        × (contains id (step cfg a p).children ≡ true)
  unfolding step
  step-possession takes_lease_id bound v en other held here = next_lease-Holds (held, here)
  step-possession (attempts_lease s m now) bound v en other held here =
      attempt-Holds s m now (held, here)
  step-possession (settles_spawn i s now none) bound v en other held here =
      settle-Holds i now s (v.apart i en.0) (held, here)
  step-possession (settles_spawn i s now (some failure)) bound v en other held here =
      unfold settle_reservation in ground (arith, held, here)
  step-possession (drops_reservation i) bound v en other held here =
      unfold drop_reservation in (held, here)
  step-possession replenishes bound v en other held here =
      unfold schedule_replenishment in
      replenish-Holds (min cfg.min_workers cfg.max_workers) (min cfg.min_workers cfg.max_workers) p
        (held, here)
  step-possession (marks_dead_for_lease i m) bound v en other held here =
      retire_lease-Holds i m other (held, here)
  step-possession (marks_dead i) bound v en other held here = retire-Holds i other (held, here)
  step-possession (reaps i t) bound v en other held here = reap-Holds i t (held, here)
  step-possession (forgets i) bound v en other held here = forget-Holds i en (held, here)
  step-possession (begins_release i m) bound v en other held here =
      begin_release-Holds i m other (held, here)
  step-possession (finishes_release i m now e) bound v en other held here =
      finish_release-Holds i m now e en (held, here)
  step-possession begins_shutdown bound v en other held here = unfold begin_shutdown in (held, here)

module _ (cfg : WorkerPoolConfig) (session : String) (lease now : ℕ) (p : Pool) where
  -- While the pool runs, an attempt takes a worker if any installed one is idle.
  pub lease_attempt-idle :
      (i : ℕ)
      → p.shutting_down ≡ false
      → contains i p.children ≡ true
      → (p.heap i).state ≡ idle
      → (j : ℕ) × ((lease_attempt cfg session lease now p).1 ≡ granted j)
  unfolding lease_attempt
  lease_attempt-idle i up c f = elim (Scan-cases (scan p.heap (length p.spawning) [] p.children)) [
    | inl (k, hit) ↦ (k, ground arith)
    | inr (k, ids, none_free) ↦
        absurd
          (ground (arith, scan-idle p.heap (length p.spawning) i k [] ids p.children none_free c))
  ]

  -- The pool is called exhausted only when nothing is starting and the live installed workers, whose
  -- number the error gives, reach `max_workers`, which it gives too, and none of them is idle.
  pub lease_attempt-exhausted :
      (i n m : ℕ)
      → (lease_attempt cfg session lease now p).1 ≡ refused (pool_exhausted n m)
      → contains i p.children ≡ true
      → (p.spawning ≡ [])
        × (n ≡ load p)
        × (m ≡ cfg.max_workers)
        × (m ≤ n)
        × (is_idle (p.heap i).state ≡ false)
  unfolding lease_attempt reserve_spawn_slot_locked
  lease_attempt-exhausted i n m h c =
      elim (Scan-cases (scan p.heap (length p.spawning) [] p.children)) [
        | inl (k, hit) ↦ ground arith
        | inr (k, ids, none_free) ↦ ground (
          arith,
          scan-none_idle p.heap (length p.spawning) k [] ids p.children none_free,
          scan-idle p.heap (length p.spawning) i k [] ids p.children none_free c,
        )
      ]
