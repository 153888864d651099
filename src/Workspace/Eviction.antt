-- ===== src/Workspace/Eviction.antt =====
-- That the reaper of src/ida/pool.rs evicts no entry that is in use or was in use a moment ago.
use ida_mcp_rs.Base.{
  ℕ, suc, ◌+◌, ◌≤◌, ◌<◌, ◌^◌, String, Bool, true, false, some, ◌≡◌, inl, inr, arith, Option-cases,
  Bool-cases, str_eq, eq_iff,
}
use ida_mcp_rs.Base.Assoc.{
  Assoc, lookup, remove, lookup-insert, lookup-remove_ne, lookup-remove_self, HasDistinctKeys,
  insert-HasDistinctKeys, remove-HasDistinctKeys,
}
use ida_mcp_rs.Database.{lease_is_absent, is_none}
use ida_mcp_rs.Workspace.{
  idle_for, add_entry, allocate_database, bind_legacy, touch, acquire, pin, release_call,
  release_pin, remove_database,
}
use ida_mcp_rs.Workspace.Reaper.{
  WorkspaceReapReason, idle, terminal, take_expired, still_reapable, is_expired,
}
use ida_mcp_rs.Workspace.Guards.{
  System, Action, ticks, allocates, binds_legacy, acquires, takes_pin, touches, begins_lease_drop,
  ends_lease_drop, begins_pin_drop, ends_pin_drop, removes, uses_database, expires, step, Enabled,
  Reach, here, next,
}

-- What holds at one place: the counters count the guards, a place that is not in use yet has none,
-- and the time of the last use is not before the last drop of a guard and not after now.
record Place (n i : ℕ) (s : System) : Type 0 where
  counted : (s.registry.heap i).active_calls ≡ s.leases.held i + s.leases.dropping i
  pinned : (s.registry.heap i).pins ≡ s.pins.held i + s.pins.dropping i
  few : s.leases.held i + s.leases.dropping i ≤ n
  few_pins : s.pins.held i + s.pins.dropping i ≤ n
  fresh : s.registry.next_place ≤ i → s.leases.held i + s.leases.dropping i ≡ 0
  fresh_pins : s.registry.next_place ≤ i → s.pins.held i + s.pins.dropping i ≡ 0
  published : s.last_drop i ≤ (s.registry.heap i).last_used
  clock : (s.registry.heap i).last_used ≤ s.now

record Inv (n : ℕ) (s : System) : Type 0 where
  place : (i : ℕ) → Place n i s
  below : (id : String) (i : ℕ) → lookup id s.registry.entries ≡ some i → i < s.registry.next_place
  distinct : HasDistinctKeys s.registry.entries

step-Place :
    (n : ℕ) (a : Action) (s : System) (i : ℕ)
    → n + 1 < 2 ^ 64
    → Enabled a s
    → Inv n s
    → Place (suc n) i (step a s)
unfolding step touch release_call release_pin allocate_database bind_legacy add_entry acquire pin
    remove_database take_expired
step-Place n (ticks d) s i small en v = ground (arith, v.place i)
step-Place n (allocates id) s i small en v = ground (arith, v.place i)
step-Place n (binds_legacy id) s i small en v = ground (arith, v.place i)
step-Place n (acquires id) s i small en v = elim (Option-cases (lookup id s.registry.entries)) [
  | inl e ↦ ground (arith, e, v.place i)
  | inr (j, e) ↦ ground (arith, e, v.place i, v.below id j e)
]
step-Place n (takes_pin id) s i small en v = elim (Option-cases (lookup id s.registry.entries)) [
  | inl e ↦ ground (arith, e, v.place i)
  | inr (j, e) ↦ ground (arith, e, v.place i, v.below id j e)
]
step-Place n (touches j) s i small en v = ground (arith, v.place i)
step-Place n (begins_lease_drop j) s i small en v = ground (arith, v.place i)
step-Place n (ends_lease_drop j) s i small en v = ground (arith, v.place i)
step-Place n (begins_pin_drop j) s i small en v = ground (arith, v.place i)
step-Place n (ends_pin_drop j) s i small en v = ground (arith, v.place i)
step-Place n (removes id) s i small en v = ground (arith, v.place i)
step-Place n (uses_database j database) s i small en v = ground (arith, v.place i)
step-Place n (expires handle_locked id reason) s i small en v = ground (arith, v.place i)

pub lookup-remove :
    (key asked : String) (entries : Assoc ℕ) (i : ℕ)
    → HasDistinctKeys entries
    → lookup asked (remove key entries) ≡ some i
    → lookup asked entries ≡ some i
lookup-remove key asked entries i d h = elim (Bool-cases (str_eq key asked)) [
  | inl same ↦ ground (arith, lookup-remove_self key entries d, (eq_iff key asked).0 same, h)
  | inr ne ↦ ground (arith, lookup-remove_ne key asked entries ne, h)
]

step-distinct :
    (a : Action) (s : System)
    → HasDistinctKeys s.registry.entries
    → HasDistinctKeys (step a s).registry.entries
unfolding step touch release_call release_pin allocate_database bind_legacy add_entry acquire pin
    remove_database take_expired
step-distinct (allocates id) s d =
    insert-HasDistinctKeys id s.registry.next_place s.registry.entries d
step-distinct (binds_legacy id) s d =
    insert-HasDistinctKeys id s.registry.next_place s.registry.entries d
step-distinct (removes id) s d = remove-HasDistinctKeys id s.registry.entries d
step-distinct (expires handle_locked id reason) s d =
    ground (arith, remove-HasDistinctKeys id s.registry.entries d)
step-distinct (acquires id) s d = ground arith
step-distinct (takes_pin id) s d = ground arith
step-distinct _ s d = d

step-below :
    (n : ℕ) (a : Action) (s : System) (id : String) (i : ℕ)
    → Inv n s
    → lookup id (step a s).registry.entries ≡ some i
    → i < (step a s).registry.next_place
unfolding step touch release_call release_pin allocate_database bind_legacy add_entry acquire pin
    remove_database take_expired
step-below n (allocates new_id) s id i v h =
    ground
      (arith, h, v.below id i, lookup-insert new_id id s.registry.next_place s.registry.entries)
step-below n (binds_legacy new_id) s id i v h =
    ground
      (arith, h, v.below id i, lookup-insert new_id id s.registry.next_place s.registry.entries)
step-below n (removes old) s id i v h =
    v.below id i (lookup-remove old id s.registry.entries i v.distinct h)
step-below n (expires handle_locked old reason) s id i v h =
    ground (arith, h, v.below id i, lookup-remove old id s.registry.entries i v.distinct)
step-below n (acquires old) s id i v h = ground (arith, h, v.below id i)
step-below n (takes_pin old) s id i v h = ground (arith, h, v.below id i)
step-below n (ticks d) s id i v h = v.below id i h
step-below n (touches j) s id i v h = v.below id i h
step-below n (begins_lease_drop j) s id i v h = v.below id i h
step-below n (ends_lease_drop j) s id i v h = v.below id i h
step-below n (begins_pin_drop j) s id i v h = v.below id i h
step-below n (ends_pin_drop j) s id i v h = v.below id i h
step-below n (uses_database j database) s id i v h = v.below id i h

Reach-Inv : (idle_timeout n : ℕ) (s : System) → n < 2 ^ 64 → Reach idle_timeout n s → Inv n s
unfolding lookup
Reach-Inv idle_timeout _ _ small here = record {
  place = λ i. omega arith;
  below = λ id i h. ground (arith, h);
  distinct = tt;
}
Reach-Inv idle_timeout _ _ small (next {n} {s} r a en) =
    let v = Reach-Inv idle_timeout n s (omega arith) r in
    record {
      place = λ i. step-Place n a s i (omega arith) en v;
      below = λ id i h. step-below n a s id i v h;
      distinct = step-distinct a s v.distinct;
    }

-- What makes an entry due, by the reason for which it is removed.
abbrev pub IsDue : WorkspaceReapReason → System → ℕ → Type 0
IsDue idle s i = (0 < s.registry.idle_timeout) × (s.last_drop i + s.registry.idle_timeout ≤ s.now)
IsDue terminal s i = is_none (s.registry.heap i).database.handle ≡ true

-- In fewer than 2^64 steps of any interleaving, an entry that the reaper removes has no call and no
-- pin, held or half dropped, and is no legacy binding. One that it removes as idle was last given
-- up at least the idle timeout ago, and only where there is such a timeout; one that it removes as
-- terminal has no worker.
pub take_expired-unused :
    (idle_timeout n : ℕ) (s : System) (handle_locked : Bool) (id : String)
    (reason : WorkspaceReapReason) (i : ℕ)
    → n < 2 ^ 64
    → Reach idle_timeout n s
    → (take_expired s.now handle_locked id reason s.registry).1 ≡ some i
    → (s.leases.held i + s.leases.dropping i ≡ 0)
      × (s.pins.held i + s.pins.dropping i ≡ 0)
      × ((s.registry.heap i).legacy ≡ false)
      × IsDue reason s i
unfolding take_expired still_reapable is_expired idle_for lease_is_absent
take_expired-unused idle_timeout n s handle_locked id idle i small r h =
    let v = Reach-Inv idle_timeout n s small r in
    elim (Option-cases (lookup id s.registry.entries)) [
      | inl e ↦ ground (arith, e, h)
      | inr (j, e) ↦ ground (arith, e, h, v.place j)
    ]
take_expired-unused idle_timeout n s handle_locked id terminal i small r h =
    let v = Reach-Inv idle_timeout n s small r in
    elim (Option-cases (lookup id s.registry.entries)) [
      | inl e ↦ ground (arith, e, h)
      | inr (j, e) ↦ ground (arith, e, h, v.place j)
    ]
