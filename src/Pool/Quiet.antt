-- ===== src/Pool/Quiet.antt =====
-- Steps of the pool that reserve nothing and install nothing: they only retire, lease and return.
use ida_mcp_rs.Base.{
  ℕ, ◌+◌, ◌≤◌, ◌<◌, ◌≡◌, refl, ◌∙◌, ◌⊎◌, inl, inr, Bool, true, false, not, Option, none, some,
  arith, All, count, retain, ◌==◌, ltb, Bool-cases,
}
use ida_mcp_rs.Error.{ToolError, release_error_retires_worker}
use ida_mcp_rs.Pool.Data.{
  Pool, PooledChild, ChildState, belongs_to_lease, word_values, is_dead, is_live, set_cell,
  contains, WorkerPoolConfig,
}
use ida_mcp_rs.Pool.Spawn.{
  take_dead_worker_locked, take_dead_worker, forget_slot, discard_uninstalled_slot,
}
use ida_mcp_rs.Pool.Retire.{
  take_worker_of_lease, take_stale_idle_worker_if_above_min, begin_shutdown,
}
use ida_mcp_rs.Pool.Lease.{next_lease}
use ida_mcp_rs.Pool.Release.{begin_release, finish_release, reset_idle}
use ida_mcp_rs.Pool.Counting.{
  count-set_cell_le, count-retain_le, contains-retain, All-retain_below, IsDistinct,
  retain-IsDistinct,
}
use ida_mcp_rs.Pool.Steps.{or_unchanged, after_lease_id}

pub record IsQuiet (p q : Pool) : Type 0 where
  pub spawning : q.spawning ≡ p.spawning
  pub next_id : q.next_id ≡ p.next_id
  pub fewer : count (is_live q.heap) q.children ≤ count (is_live p.heap) p.children
  pub below : (n : ℕ) → All (λ j. j < n) p.children → All (λ j. j < n) q.children
  pub distinct : IsDistinct p.children → IsDistinct q.children
  pub absent : (i : ℕ) → contains i p.children ≡ false → contains i q.children ≡ false

pub IsQuiet-refl : (p : Pool) → IsQuiet p p
IsQuiet-refl p = record {
  spawning = refl;
  next_id = refl;
  fewer = omega arith;
  below = λ n a. a;
  distinct = λ d. d;
  absent = λ i h. h;
}

pub IsQuiet-trans : (p q r : Pool) → IsQuiet p q → IsQuiet q r → IsQuiet p r
IsQuiet-trans p q r s t = record {
  spawning = t.spawning ∙ s.spawning;
  next_id = t.next_id ∙ s.next_id;
  fewer = omega (arith, s.fewer, t.fewer);
  below = λ n a. t.below n (s.below n a);
  distinct = λ d. t.distinct (s.distinct d);
  absent = λ i h. t.absent i (s.absent i h);
}

-- A write to one slot that revives nothing.
pub write-IsQuiet :
    (p : Pool) (i : ℕ) (c : PooledChild)
    → (is_dead c.state ≡ true) ⊎ (is_dead (p.heap i).state ≡ false)
    → IsQuiet p (record p { heap = set_cell i c p.heap })
write-IsQuiet p i c h = record {
  spawning = refl;
  next_id = refl;
  fewer = count-set_cell_le p.heap i c p.children h;
  below = λ n a. a;
  distinct = λ d. d;
  absent = λ j g. g;
}

pub retain-IsQuiet :
    (p : Pool) (keep : ℕ → Bool) → IsQuiet p (record p { children = retain keep p.children })
retain-IsQuiet p keep = record {
  spawning = refl;
  next_id = refl;
  fewer = count-retain_le (is_live p.heap) keep p.children;
  below = λ n a. All-retain_below n keep p.children a;
  distinct = λ d. retain-IsDistinct keep p.children d;
  absent = λ i h. contains-retain i keep p.children h;
}

pub forget_slot-IsQuiet : (p : Pool) (i : ℕ) → IsQuiet p (forget_slot i p)
unfolding forget_slot
forget_slot-IsQuiet p i = retain-IsQuiet p (λ j. not (i == j))

pub take_dead_worker-IsQuiet : (p : Pool) (i : ℕ) → IsQuiet p (take_dead_worker i p).0
unfolding take_dead_worker
take_dead_worker-IsQuiet p i = elim (Bool-cases (is_dead (p.heap i).state)) [
  | inl e ↦ rw e (IsQuiet-refl p)
  | inr e ↦ rw e (write-IsQuiet p i _ (inl refl))
]

pub discard_uninstalled_slot-IsQuiet : (p : Pool) (i : ℕ) → IsQuiet p (discard_uninstalled_slot i p)
unfolding discard_uninstalled_slot
discard_uninstalled_slot-IsQuiet p i =
    IsQuiet-trans p _ _ (take_dead_worker-IsQuiet p i) (forget_slot-IsQuiet _ i)

pub take_worker_of_lease-IsQuiet :
    (p : Pool) (i lease : ℕ) → IsQuiet p (take_worker_of_lease i lease p).0
unfolding take_worker_of_lease
take_worker_of_lease-IsQuiet p i lease =
    elim (Bool-cases (not (belongs_to_lease (p.heap i).state lease))) [
      | inl e ↦ rw e (IsQuiet-refl p)
      | inr e ↦ rw e (write-IsQuiet p i _ (inl refl))
    ]

pub take_stale-IsQuiet :
    (cfg : WorkerPoolConfig) (p : Pool) (i t : ℕ)
    → IsQuiet p (take_stale_idle_worker_if_above_min cfg i t p).0
unfolding take_stale_idle_worker_if_above_min
take_stale-IsQuiet cfg p i t =
    ground
      (arith, IsQuiet-refl p, write-IsQuiet p i (take_dead_worker_locked (p.heap i)).0 (inl refl))

pub begin_shutdown-IsQuiet : (p : Pool) → IsQuiet p (begin_shutdown p)
unfolding begin_shutdown
begin_shutdown-IsQuiet p = record {
  spawning = refl;
  next_id = refl;
  fewer = omega arith;
  below = λ n a. a;
  distinct = λ d. d;
  absent = λ i h. h;
}

pub next_lease-IsQuiet : (p : Pool) → IsQuiet p (after_lease_id p (next_lease p))
unfolding next_lease
next_lease-IsQuiet p = elim (Bool-cases (ltb (p.next_lease_id + 1) word_values)) [
  | inl e ↦
      rw (e, after_lease_id)
        (record {
          spawning = refl;
          next_id = refl;
          fewer = omega arith;
          below = λ n a. a;
          distinct = λ d. d;
          absent = λ i h. h;
        })
  | inr e ↦ rw (e, after_lease_id) (IsQuiet-refl p)
]

belongs-live : (s : ChildState) (lease : ℕ) → belongs_to_lease s lease ≡ true → is_dead s ≡ false
belongs-live s lease h = ground arith

pub begin_release-IsQuiet :
    (p : Pool) (i lease : ℕ) → IsQuiet p (or_unchanged p (begin_release i lease p))
unfolding begin_release
begin_release-IsQuiet p i lease = elim (Bool-cases (belongs_to_lease (p.heap i).state lease)) [
  | inl e ↦ rw (e, or_unchanged) (write-IsQuiet p i _ (inr (belongs-live _ lease e)))
  | inr e ↦ rw (e, or_unchanged) (IsQuiet-refl p)
]

reset_idle-IsQuiet :
    (p : Pool) (i now : ℕ) (e : Option ToolError) → IsQuiet p (reset_idle i now e p).0
unfolding reset_idle
reset_idle-IsQuiet p i now e = elim (Bool-cases (is_dead (p.heap i).state)) [
  | inl d ↦ rw d (IsQuiet-refl p)
  | inr d ↦ rw d (write-IsQuiet p i _ (inr d))
]

pub finish_release-IsQuiet :
    (p : Pool) (i lease now : ℕ) (e : Option ToolError)
    → IsQuiet p (finish_release i lease now e p).0
unfolding finish_release
finish_release-IsQuiet p i lease now none = reset_idle-IsQuiet p i now none
finish_release-IsQuiet p i lease now (some e) = elim (Bool-cases (release_error_retires_worker e)) [
  | inl r ↦ rw r (take_worker_of_lease-IsQuiet p i lease)
  | inr r ↦ rw r (reset_idle-IsQuiet p i now (some e))
]
