-- ===== src/Pool/Invariant.antt =====
-- The invariant of the pool of src/ida/pool.rs, and the steps of a reservation that keep it.
use ida_mcp_rs.Base.{
  ℕ, ◌+◌, ◌≤◌, ◌<◌, ◌≡◌, refl, subst, inl, inr, Bool, true, false, not, Option, none, some, List,
  [], ◌∷◌, ◌++◌, arith, All, length, count, ◌==◌, ==→eq, Bool-cases, if◌then◌else◌,
}
use ida_mcp_rs.Error.{ToolError}
use ida_mcp_rs.Pool.Data.{Pool, ChildState, is_live, contains, insert, without, ok}
use ida_mcp_rs.Pool.Spawn.{
  reserve_spawn_slot_locked, spawn_slot, settle_reservation, drop_reservation,
  finish_spawn_reservation, spawn_reserved_slot, discard_uninstalled_slot,
}
use ida_mcp_rs.Pool.Counting.{
  count-set_cell_absent, count-snoc_le, length-without_le, length-without_present, length-insert_le,
  contains-snoc, contains-above, contains-without_self, contains-retain, All-suc, All-retain_below,
  All-snoc, IsDistinct, snoc-IsDistinct, below_of_contains,
}
use ida_mcp_rs.Pool.Quiet.{IsQuiet, discard_uninstalled_slot-IsQuiet}

-- The number that the pool counts against its capacity.
abbrev pub load : Pool → ℕ
load p = length p.spawning + count (is_live p.heap) p.children

-- Ids are handed out in order, no slot is installed twice, a reserved id is not installed, and the
-- load is within a bound.
pub record Inv (bound : ℕ) (p : Pool) : Type 0 where
  pub within : load p ≤ bound
  pub children_below : All (λ j. j < p.next_id) p.children
  pub spawning_below : All (λ j. j < p.next_id) p.spawning
  pub distinct : IsDistinct p.children
  pub apart : (i : ℕ) → contains i p.spawning ≡ true → contains i p.children ≡ false

module _ (bound : ℕ) where
  pub IsQuiet-Inv : (p q : Pool) → IsQuiet p q → Inv bound p → Inv bound q
  IsQuiet-Inv p q s v = record {
    within = ground (arith, s.fewer, s.spawning, v.within);
    children_below = rw s.next_id (s.below p.next_id v.children_below);
    spawning_below = rw (s.next_id, s.spawning) v.spawning_below;
    distinct = s.distinct v.distinct;
    apart = λ i h. s.absent i (v.apart i (subst (λ xs. contains i xs ≡ true) s.spawning h));
  }

  -- A reservation below the bound.
  pub reserve-Inv :
      (p q : Pool) (id : ℕ)
      → Inv bound p
      → load p < bound
      → reserve_spawn_slot_locked p ≡ ok (id, q)
      → Inv bound q
  unfolding reserve_spawn_slot_locked
  reserve-Inv p q id v room h =
      let new_id = contains-above p.next_id p.children v.children_below in
      let e : q ≡ record p { next_id = p.next_id + 1; spawning = insert p.next_id p.spawning } =
        ground arith in
      rw e (record {
        within = omega (arith, room, length-insert_le p.next_id p.spawning);
        children_below = All-suc p.next_id p.children v.children_below;
        spawning_below = ground (
          arith,
          contains-above p.next_id p.spawning v.spawning_below,
          All-suc p.next_id p.spawning v.spawning_below,
        );
        distinct = v.distinct;
        apart = λ i g. elim (Bool-cases (i == p.next_id)) [
          | inl same ↦ rw (==→eq i p.next_id same) new_id
          | inr other ↦
              v.apart i (ground (arith, contains-above p.next_id p.spawning v.spawning_below))
        ];
      })

  pub contains_of_without :
      (i id : ℕ) (xs : List ℕ) → contains i (without id xs) ≡ true → contains i xs ≡ true
  contains_of_without i id xs h = elim (Bool-cases (contains i xs)) [
    | inl e ↦ e
    | inr e ↦ ground (arith, contains-retain i (λ j. not (id == j)) xs e)
  ]

  ne_of_without : (i id : ℕ) (xs : List ℕ) → contains i (without id xs) ≡ true → (i == id) ≡ false
  ne_of_without i id xs h = elim (Bool-cases (i == id)) [
    | inr e ↦ e
    | inl e ↦
        let same = ==→eq i id e in
        let g : contains id (without id xs) ≡ true =
          subst (λ k. contains k (without id xs) ≡ true) same h in
        ground (arith, contains-without_self id xs, g)
  ]

  pub drop_reservation-Inv :
      (p : Pool) (id : ℕ) → Inv bound p → Inv bound (record p { spawning = without id p.spawning })
  drop_reservation-Inv p id v = record {
    within = omega (arith, length-without_le id p.spawning, v.within);
    children_below = v.children_below;
    spawning_below = All-retain_below p.next_id (λ j. not (id == j)) p.spawning v.spawning_below;
    distinct = v.distinct;
    apart = λ i h. v.apart i (contains_of_without i id p.spawning h);
  }

  pub install-Inv :
      (p : Pool) (id : ℕ)
      → Inv bound p
      → contains id p.spawning ≡ true
      → Inv bound (record p { children = p.children ++ id ∷ []; spawning = without id p.spawning })
  install-Inv p id v held = record {
    within = omega (
      arith,
      length-without_present id p.spawning held,
      count-snoc_le (is_live p.heap) p.children id,
      v.within,
    );
    children_below =
        All-snoc p.next_id id p.children v.children_below
          (below_of_contains p.next_id id p.spawning v.spawning_below held);
    spawning_below = All-retain_below p.next_id (λ j. not (id == j)) p.spawning v.spawning_below;
    distinct = snoc-IsDistinct id p.children v.distinct (v.apart id held);
    apart = λ i h.
        contains-snoc i id p.children (v.apart i (contains_of_without i id p.spawning h))
          (ne_of_without i id p.spawning h);
  }

  if-Inv {ℓ} :
      {R : Type ℓ} (b : Bool) (x y : Pool × R)
      → Inv bound x.0
      → Inv bound y.0
      → Inv bound (if b then x else y).0
  if-Inv true x y v w = v
  if-Inv false x y v w = w

  -- Settling a reservation, with or without a slot.
  pub finish-Inv :
      (p : Pool) (id : ℕ) (has_slot : Bool)
      → Inv bound p
      → contains id p.spawning ≡ true
      → Inv bound (finish_spawn_reservation id has_slot p).0
  unfolding finish_spawn_reservation settle_reservation drop_reservation
  finish-Inv p id true v held = elim (Bool-cases p.shutting_down) [
    | inl down ↦ ground (
      arith,
      down,
      drop_reservation-Inv (discard_uninstalled_slot id p) id
          (IsQuiet-Inv p _ (discard_uninstalled_slot-IsQuiet p id) v),
    )
    | inr up ↦ ground (arith, up, install-Inv p id v held)
  ]
  finish-Inv p id false v held = ground (arith, drop_reservation-Inv p id v)

  -- The first section alone.
  pub settle-Inv :
      (p : Pool) (id : ℕ) (has_slot : Bool)
      → Inv bound p
      → contains id p.spawning ≡ true
      → Inv bound (settle_reservation id has_slot p).0
  unfolding settle_reservation
  settle-Inv p id true v held = if-Inv p.shutting_down _ _ v (install-Inv p id v held)
  settle-Inv p id false v held = if-Inv p.shutting_down _ _ v (drop_reservation-Inv p id v)

  pub spawn_slot-Inv :
      (p : Pool) (id now : ℕ) (state : ChildState)
      → Inv bound p
      → contains id p.spawning ≡ true
      → Inv bound (spawn_slot id state now p)
  unfolding spawn_slot
  spawn_slot-Inv p id now state v held = record {
    within = omega (
      arith,
      count-set_cell_absent p.heap id
          (record {
            state = state;
            has_service = true;
            last_used = now;
            idb_path = none;
            pending_open_artifacts = none;
          })
          p.children (v.apart id held),
      v.within,
    );
    children_below = v.children_below;
    spawning_below = v.spawning_below;
    distinct = v.distinct;
    apart = v.apart;
  }

  pub spawning-spawn_slot :
      (p : Pool) (id now : ℕ) (state : ChildState)
      → (spawn_slot id state now p).spawning ≡ p.spawning
  unfolding spawn_slot
  spawning-spawn_slot p id now state = refl

  pub spawn_reserved_slot-Inv :
      (p : Pool) (id now : ℕ) (state : ChildState) (failure : Option ToolError)
      → Inv bound p
      → contains id p.spawning ≡ true
      → Inv bound (spawn_reserved_slot id state now failure p).0
  unfolding spawn_reserved_slot
  spawn_reserved_slot-Inv p id now state none v held =
      finish-Inv (spawn_slot id state now p) id true (spawn_slot-Inv p id now state v held)
        (rw (spawning-spawn_slot p id now state) held)
  spawn_reserved_slot-Inv p id now state (some e) v held = finish-Inv p id false v held
