-- ===== src/Pool/Lease.antt =====
-- The acquisition of a worker in src/ida/pool.rs: `lease_inner`, one pass of its loop at a time.
use ida_mcp_rs.Base.{
  ℕ, ◌≡◌, refl, ◌⊎◌, inl, inr, ◌+◌, String, not, List, [], ◌∷◌, length, retain, leb, ltb,
  if◌then◌else◌,
}
use ida_mcp_rs.Pool.Data.{
  Pool, Heap, leased, is_dead, is_idle, set_cell, contains, word_values, Result, ok, err,
  WorkerPoolConfig,
}
use ida_mcp_rs.Error.{ToolError, worker_closed, remote_protocol, pool_exhausted}
use ida_mcp_rs.Pool.Spawn.{reserve_spawn_slot_locked}

-- The lease id of a new `lease_inner`.
unfoldable pub next_lease : Pool → Result (ℕ × Pool)
next_lease p =
    if ltb (p.next_lease_id + 1) word_values
    then ok (p.next_lease_id + 1, record p { next_lease_id = p.next_lease_id + 1 })
    else err (remote_protocol "worker lease identifier space exhausted")

-- What the loop over `children` comes to: a leased slot, or the active count and the dead ids.
pub data Scan : Type 0 where
  found : ℕ → Scan
  none_idle : ℕ → List ℕ → Scan

pub Scan-cases :
    (s : Scan) → ((id : ℕ) × (s ≡ found id)) ⊎ ((n : ℕ) × (ids : List ℕ) × (s ≡ none_idle n ids))
Scan-cases (found id) = inl (id, refl)
Scan-cases (none_idle n ids) = inr (n, ids, refl)

unfoldable pub scan : Heap → ℕ → List ℕ → List ℕ → Scan
scan heap active dead_ids [] = none_idle active dead_ids
scan heap active dead_ids (id ∷ ids) =
    let next_dead = scan heap active (id ∷ dead_ids) ids in
    let next_live = scan heap (active + 1) dead_ids ids in
    if is_dead (heap id).state
    then next_dead
    else if is_idle (heap id).state
    then found id
    else next_live

pub data Attempt : Type 0 where
  granted : ℕ → Attempt
  refused : ToolError → Attempt
  wait : Attempt
  reserved : ℕ → Attempt

-- One pass under the pool's lock. What other tasks do meanwhile to a child that has been looked at counts
-- as done after the pass.
unfoldable pub lease_attempt : WorkerPoolConfig → String → ℕ → ℕ → Pool → Pool × Attempt
unfolding scan reserve_spawn_slot_locked
lease_attempt cfg session lease now p =
    if p.shutting_down
    then (p, refused worker_closed)
    else (elim (scan p.heap (length p.spawning) [] p.children) [
      | found id ↦ (
        record p {
          heap =
              set_cell id (record (p.heap id) { state = leased session lease; last_used = now })
                p.heap;
        },
        granted id,
      )
      | none_idle active dead_ids ↦
          let q = record p { children = retain (λ id. not (contains id dead_ids)) p.children } in
          if leb cfg.max_workers active
          then (elim p.spawning [
            | [] ↦ (q, refused (pool_exhausted active cfg.max_workers))
            | _ ∷ _ ↦ (q, wait)
          ])
          else (elim (reserve_spawn_slot_locked q) [
            | err e ↦ (q, refused e)
            | ok (id, r) ↦ (r, reserved id)
          ])
    ])
