-- ===== src/Pool/Capacity.antt =====
-- The capacity of the pool: whatever the interleaving, live and reserved workers stay within
-- `max_workers`, and worker ids are never used twice.
use ida_mcp_rs.Base.{
  ℕ, zero, suc, ◌+◌, ◌≤◌, min, String, ◌≡◌, refl, inl, inr, true, false, not, ◌&&◌, Option, none,
  some, List, [], ◌∷◌, arith, length, count-le-length, retain, ltb, leb, Bool-cases,
}
use ida_mcp_rs.Error.{ToolError}
use ida_mcp_rs.Pool.Data.{
  Pool, new, ChildState, idle, leased, is_dead, is_idle, is_live, contains, ok, Result-cases,
  WorkerPoolConfig,
}
use ida_mcp_rs.Pool.Spawn.{
  reserve_spawn_slot_locked, spawn_slot, drop_reservation, spawn_reserved_slot, replenish,
  schedule_replenishment, warm,
}
use ida_mcp_rs.Pool.Lease.{lease_attempt, scan, Scan-cases}
use ida_mcp_rs.Pool.Counting.{length-insert_le, scan-none_idle, scan-found}
use ida_mcp_rs.Pool.Quiet.{
  write-IsQuiet, retain-IsQuiet, take_dead_worker-IsQuiet, take_worker_of_lease-IsQuiet,
  forget_slot-IsQuiet, take_stale-IsQuiet, begin_shutdown-IsQuiet, next_lease-IsQuiet,
  begin_release-IsQuiet, finish_release-IsQuiet,
}
use ida_mcp_rs.Pool.Steps.{
  Action, takes_lease_id, attempts_lease, settles_spawn, drops_reservation, replenishes,
  marks_dead_for_lease, marks_dead, reaps, forgets, begins_release, finishes_release,
  begins_shutdown, step, Enabled, Reach, here, next,
}
use ida_mcp_rs.Pool.Invariant.{
  Inv, IsQuiet-Inv, reserve-Inv, spawn_reserved_slot-Inv, settle-Inv, spawn_slot-Inv,
  spawning-spawn_slot, drop_reservation-Inv,
}

module _ (bound : ℕ) where
  reserve-load :
      (p q : Pool) (id : ℕ)
      → reserve_spawn_slot_locked p ≡ ok (id, q)
      → (q.children ≡ p.children) × (length q.spawning ≤ suc (length p.spawning))
  unfolding reserve_spawn_slot_locked
  reserve-load p q id h = ground (arith, length-insert_le p.next_id p.spawning)

  replenish-Inv :
      (fuel target : ℕ) (p : Pool)
      → target ≤ bound
      → Inv bound p
      → Inv bound (replenish fuel target p).0
  unfolding replenish
  replenish-Inv zero target p fits v = v
  replenish-Inv (suc fuel) target p fits v =
      elim (Bool-cases
        (not p.shutting_down && ltb (length p.spawning + length p.children) target)) [
          | inr e ↦ rw (e, replenish) v
          | inl e ↦ elim (Result-cases (reserve_spawn_slot_locked p)) [
            | inl (_, f) ↦ rw (e, f, replenish) v
            | inr ((id, q), g) ↦
                rw (e, g, replenish)
                  (replenish-Inv fuel target q fits (
                    reserve-Inv bound p q id v
                      (ground (arith, count-le-length (is_live p.heap) p.children)) g))
          ]
        ]

  idle-live : (s : ChildState) → is_idle s ≡ true → is_dead s ≡ false
  idle-live s h = ground arith

  pub lease_attempt-Inv :
      (cfg : WorkerPoolConfig) (session : String) (lease now : ℕ) (p : Pool)
      → cfg.max_workers ≤ bound
      → Inv bound p
      → Inv bound (lease_attempt cfg session lease now p).0
  unfolding lease_attempt
  lease_attempt-Inv cfg session lease now p fits v = elim (Bool-cases p.shutting_down) [
    | inl down ↦ ground arith
    | inr up ↦ elim (Scan-cases (scan p.heap (length p.spawning) [] p.children)) [
      | inl (id, hit) ↦ ground (
        arith,
        IsQuiet-Inv bound p _
            (write-IsQuiet p id
              (record (p.heap id) { state = leased session lease; last_used = now })
              (inr (idle-live _ (scan-found p.heap (length p.spawning) id [] p.children hit).0)))
            v,
      )
      | inr (active, ids, none_free) ↦
          let q = record p { children = retain (λ id. not (contains id ids)) p.children } in
          let quiet = retain-IsQuiet p (λ id. not (contains id ids)) in
          let vq : Inv bound q = IsQuiet-Inv bound p q quiet v in
          elim (Bool-cases (leb cfg.max_workers active)) [
            | inl full ↦ ground (arith, vq)
            | inr room ↦ elim (Result-cases (reserve_spawn_slot_locked q)) [
              | inl (e, failed) ↦ ground (arith, vq)
              | inr ((id, r), done) ↦ ground (
                arith,
                reserve-Inv bound q r id vq
                    (ground (
                      arith,
                      quiet.fewer,
                      scan-none_idle p.heap (length p.spawning) active [] ids p.children none_free,
                    ))
                    done,
              )
            ]
          ]
    ]
  ]

-- Each step keeps the invariant at the configured capacity.
pub step-Inv :
    (cfg : WorkerPoolConfig) (a : Action) (p : Pool)
    → Enabled a p
    → Inv cfg.max_workers p
    → Inv cfg.max_workers (step cfg a p)
unfolding step
step-Inv cfg takes_lease_id p h v = IsQuiet-Inv cfg.max_workers p _ (next_lease-IsQuiet p) v
step-Inv cfg (attempts_lease session lease now) p h v =
    lease_attempt-Inv cfg.max_workers cfg session lease now p (omega arith) v
step-Inv cfg (settles_spawn id state now none) p h v =
    settle-Inv cfg.max_workers (spawn_slot id state now p) id true
      (spawn_slot-Inv cfg.max_workers p id now state v h.0)
      (rw (spawning-spawn_slot cfg.max_workers p id now state) h.0)
step-Inv cfg (settles_spawn id state now (some failure)) p h v =
    settle-Inv cfg.max_workers p id false v h.0
step-Inv cfg (drops_reservation id) p h v =
    unfold drop_reservation in drop_reservation-Inv cfg.max_workers p id v
step-Inv cfg replenishes p h v =
    unfold schedule_replenishment in
    replenish-Inv cfg.max_workers (min cfg.min_workers cfg.max_workers)
      (min cfg.min_workers cfg.max_workers) p (omega arith) v
step-Inv cfg (marks_dead_for_lease id lease) p h v =
    IsQuiet-Inv cfg.max_workers p _ (take_worker_of_lease-IsQuiet p id lease) v
step-Inv cfg (marks_dead id) p h v =
    IsQuiet-Inv cfg.max_workers p _ (take_dead_worker-IsQuiet p id) v
step-Inv cfg (reaps id t) p h v = IsQuiet-Inv cfg.max_workers p _ (take_stale-IsQuiet cfg p id t) v
step-Inv cfg (forgets id) p h v = IsQuiet-Inv cfg.max_workers p _ (forget_slot-IsQuiet p id) v
step-Inv cfg (begins_release id lease) p h v =
    IsQuiet-Inv cfg.max_workers p _ (begin_release-IsQuiet p id lease) v
step-Inv cfg (finishes_release id lease now e) p h v =
    IsQuiet-Inv cfg.max_workers p _ (finish_release-IsQuiet p id lease now e) v
step-Inv cfg begins_shutdown p h v = IsQuiet-Inv cfg.max_workers p _ (begin_shutdown-IsQuiet p) v

mono-Inv : (m n : ℕ) (p : Pool) → m ≤ n → Inv m p → Inv n p
mono-Inv m n p h v = record {
  within = omega (arith, v.within);
  children_below = v.children_below;
  spawning_below = v.spawning_below;
  distinct = v.distinct;
  apart = v.apart;
}

reserve-contains :
    (p q : Pool) (id : ℕ) → reserve_spawn_slot_locked p ≡ ok (id, q) → contains id q.spawning ≡ true
unfolding reserve_spawn_slot_locked
reserve-contains p q id h = ground arith

-- Each start adds at most one worker, whatever it comes to.
warm-Inv_from :
    (bound n : ℕ) (starts : List (Option ToolError)) (now : ℕ) (p : Pool)
    → n + length starts ≤ bound
    → Inv n p
    → Inv bound (warm starts now p).0
unfolding warm
warm-Inv_from bound n [] now p h v = mono-Inv n bound p (omega arith) v
warm-Inv_from bound n (failure ∷ more) now p h v =
    elim (Result-cases (reserve_spawn_slot_locked p)) [
      | inl (_, e) ↦ rw (e, warm) (mono-Inv n bound p (omega arith) v)
      | inr ((id, q), g) ↦
          let vq =
            reserve-Inv (suc n) p q id (mono-Inv n (suc n) p (omega arith) v)
              (omega (arith, v.within)) g in
          let vr =
            spawn_reserved_slot-Inv (suc n) q id now idle failure vq (reserve-contains p q id g) in
          rw (g, warm)
            (elim (Result-cases (spawn_reserved_slot id idle now failure q).1) [
              | inl (_, f) ↦ rw f (mono-Inv (suc n) bound _ (omega arith) vr)
              | inr (_, f) ↦ rw f (warm-Inv_from bound (suc n) more now _ (omega arith) vr)
            ])
    ]

-- The pool that `warm_min` leaves, from a new one, meets the invariant.
pub warm-Inv :
    (cfg : WorkerPoolConfig) (starts : List (Option ToolError)) (now : ℕ)
    → length starts ≡ min cfg.min_workers cfg.max_workers
    → Inv cfg.max_workers (warm starts now new).0
warm-Inv cfg starts now h = warm-Inv_from cfg.max_workers 0 starts now new (omega arith) (record {
  within = omega arith;
  children_below = tt;
  spawning_below = tt;
  distinct = tt;
  apart = λ i g. refl;
})

Reach-Inv :
    (cfg : WorkerPoolConfig) (p q : Pool)
    → Inv cfg.max_workers p
    → Reach cfg p q
    → Inv cfg.max_workers q
Reach-Inv cfg p q v here = v
Reach-Inv cfg p q v (next {q = o} r a en) = step-Inv cfg a o en (Reach-Inv cfg p o v r)

-- After `warm_min` on a new pool, whatever its starts come to, no interleaving of leases, starts,
-- failures, retirements, releases, reaps, replenishments and shutdowns brings the reserved and the
-- live installed workers above `max_workers`, installs a slot twice, reserves an id that is
-- installed, or reserves or installs an id that is yet to be handed out.
pub Reach-capacity :
    (cfg : WorkerPoolConfig) (starts : List (Option ToolError)) (now : ℕ) (q : Pool)
    → length starts ≡ min cfg.min_workers cfg.max_workers
    → Reach cfg (warm starts now new).0 q
    → Inv cfg.max_workers q
Reach-capacity cfg starts now q h r = Reach-Inv cfg _ q (warm-Inv cfg starts now h) r
