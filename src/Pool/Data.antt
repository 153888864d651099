-- ===== src/Pool/Data.antt =====
-- The state of src/ida/pool.rs. A slot (`Arc<ChildSlot>`) is shared by the pool and by the handles,
-- so the slots lie in a heap under their worker ids; `children` lists the ids of the installed ones.
-- Instants are numbers. What a child process is (service, peer, pid) is outside the model, but for
-- whether its service is still held.
use ida_mcp_rs.Base.{
  ℕ, ◌≡◌, refl, ◌⊎◌, inl, inr, ◌^◌, String, Bool, true, false, not, Option, none, List, [], ◌∷◌,
  retain, any, ◌==◌, if◌then◌else◌,
}
use ida_mcp_rs.Error.{ToolError}

-- The number of values of a `usize` and of a `u64`.
abbrev pub word_values : ℕ
word_values = 2 ^ 64

pub data Result {ℓ} (A : Type ℓ) : Type ℓ where
  ok : A → Result A
  err : ToolError → Result A

pub Result-cases {ℓ} :
    {A : Type ℓ} (r : Result A) → ((e : ToolError) × (r ≡ err e)) ⊎ ((a : A) × (r ≡ ok a))
Result-cases (err e) = inl (e, refl)
Result-cases (ok a) = inr (a, refl)

pub record WorkerPoolConfig : Type 0 where
  pub max_workers : ℕ
  pub min_workers : ℕ

pub data ChildState : Type 0 where
  idle : ChildState
  leased : String → ℕ → ChildState
  closing : ℕ → ChildState
  dead : ChildState

abbrev pub is_dead : ChildState → Bool
is_dead idle = false
is_dead (leased session lease) = false
is_dead (closing lease) = false
is_dead dead = true

abbrev pub is_idle : ChildState → Bool
is_idle idle = true
is_idle (leased session lease) = false
is_idle (closing lease) = false
is_idle dead = false

-- ChildState::belongs_to_lease
abbrev pub belongs_to_lease : ChildState → ℕ → Bool
belongs_to_lease idle expected = false
belongs_to_lease (leased session lease) expected = lease == expected
belongs_to_lease (closing lease) expected = lease == expected
belongs_to_lease dead expected = false

-- `pending_open_artifacts` is named by a number.
pub record PooledChild : Type 0 where
  pub state : ChildState
  pub has_service : Bool
  pub last_used : ℕ
  pub idb_path : Option String
  pub pending_open_artifacts : Option ℕ

-- What stands in the heap where no slot has been made yet.
abbrev pub blank : PooledChild
blank = record {
  state = dead;
  has_service = false;
  last_used = 0;
  idb_path = none;
  pending_open_artifacts = none;
}

abbrev pub Heap : Type 0
Heap = ℕ → PooledChild

pub record Pool : Type 0 where
  pub heap : Heap
  pub children : List ℕ
  pub spawning : List ℕ
  pub next_id : ℕ
  pub next_lease_id : ℕ
  pub shutting_down : Bool

-- WorkerPool::new
abbrev pub new : Pool
new = record {
  heap = λ _. blank;
  children = [];
  spawning = [];
  next_id = 0;
  next_lease_id = 0;
  shutting_down = false;
}

-- A write to a slot.
abbrev pub set_cell : ℕ → PooledChild → Heap → Heap
set_cell i c heap j = if i == j then c else heap j

abbrev pub is_live : Heap → ℕ → Bool
is_live heap i = not (is_dead (heap i).state)

abbrev pub contains : ℕ → List ℕ → Bool
contains i xs = any (λ j. i == j) xs

-- `HashSet::insert`, `HashSet::remove` and the removal of a slot from `children`.
abbrev pub insert : ℕ → List ℕ → List ℕ
insert i xs = if contains i xs then xs else i ∷ xs

abbrev pub without : ℕ → List ℕ → List ℕ
without i xs = retain (λ j. not (i == j)) xs
