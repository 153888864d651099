-- ===== src/Lock.antt =====
-- src/ida/lock.rs: the lock file that keeps two processes from one database, on a POSIX system. A file
-- is an inode, which the lock path may name or not; a lock on it belongs to a process and ends when the
-- process closes the file or dies. A process runs one of these functions at a time; the system calls
-- of the processes interleave.
pub mod Owned
mod Tests
use ida_mcp_rs.Base.{
  ℕ, ◌+◌, ◌≡◌, Bool, true, false, not, ◌&&◌, ◌||◌, Option, none, some, if◌then◌else◌, ◌==◌,
}

pub record LockFiles : Type 0 where
  pub path : Option ℕ
  pub recorded_pid : ℕ → Option ℕ
  pub holder : ℕ → Option ℕ
  pub next_file : ℕ

abbrev pub is_number : ℕ → Option ℕ → Bool
is_number n none = false
is_number n (some m) = n == m

abbrev pub set_at {ℓ} : {A : Type ℓ} → ℕ → A → (ℕ → A) → ℕ → A
set_at i a f j = if i == j then a else f j

abbrev pub option_eq : Option ℕ → Option ℕ → Bool
option_eq none none = true
option_eq none (some m) = false
option_eq (some n) none = false
option_eq (some n) (some m) = n == m

-- `OpenOptions` with `create(true)`.
unfoldable pub open_lock_file : LockFiles → LockFiles × ℕ
open_lock_file s = elim s.path [
  | some file ↦ (s, file)
  | none ↦ (
    record s {
      path = some s.next_file;
      recorded_pid = set_at s.next_file none s.recorded_pid;
      holder = set_at s.next_file none s.holder;
      next_file = s.next_file + 1;
    },
    s.next_file,
  )
]

abbrev pub is_free_for : ℕ → Option ℕ → Bool
is_free_for process none = true
is_free_for process (some other) = process == other

-- Whether the lock was taken.
unfoldable pub try_lock_file : ℕ → ℕ → LockFiles → LockFiles × Bool
try_lock_file process file s =
    if is_free_for process (s.holder file)
    then (record s { holder = set_at file (some process) s.holder }, true)
    else (s, false)

unfoldable pub lock_path_names_file : ℕ → LockFiles → Bool
lock_path_names_file file s = is_number file s.path

abbrev pub remove_file : LockFiles → LockFiles
remove_file s = record s { path = none }

abbrev pub close_file : ℕ → ℕ → LockFiles → LockFiles
close_file process file s =
    if is_number process (s.holder file) then record s { holder = set_at file none s.holder } else s

-- Where a process stands: in `acquire_mcp_lock` after its open, in `reclaim_mcp_lock_path` after its open
-- and after its lock, with an `McpLock`, and in the removal of one after the test of the path and
-- after the unlink.
pub data Progress : Type 0 where
  outside : Progress
  acquiring : ℕ → Progress
  reclaiming : Option ℕ → ℕ → Progress
  reclaim_locked : Option ℕ → ℕ → Progress
  locked : ℕ → Progress
  path_owned : ℕ → Progress
  path_lost : ℕ → Progress
  removed : ℕ → Progress

unfoldable pub acquire_mcp_lock : ℕ → ℕ → LockFiles → LockFiles × Progress
unfolding try_lock_file
acquire_mcp_lock process file s =
    let (t, taken) = try_lock_file process file s in
    if taken
    then (record t { recorded_pid = set_at file (some process) t.recorded_pid }, locked file)
    else (close_file process file t, outside)

unfoldable pub reclaim_try : ℕ → Option ℕ → ℕ → LockFiles → LockFiles × Progress
unfolding try_lock_file
reclaim_try process expected_pid file s =
    let (t, taken) = try_lock_file process file s in
    if taken then (t, reclaim_locked expected_pid file) else (close_file process file t, outside)

unfoldable pub reclaim_check : ℕ → Option ℕ → ℕ → LockFiles → LockFiles × Progress
unfolding lock_path_names_file
reclaim_check process expected_pid file s =
    if not (option_eq (s.recorded_pid file) expected_pid) || not (lock_path_names_file file s)
    then (close_file process file s, outside)
    else (s, locked file)

-- The first test of `remove_mcp_lock_file`, of `release_mcp_lock` and of the drop of an `McpLock`.
unfoldable pub test_path : ℕ → LockFiles → Progress
unfolding lock_path_names_file
test_path file s = if lock_path_names_file file s then path_owned file else path_lost file

-- The next system call of a process that is inside.
unfoldable pub proceed : ℕ → Progress → LockFiles → LockFiles × Progress
unfolding acquire_mcp_lock reclaim_try reclaim_check test_path
proceed process outside s = (s, outside)
proceed process (acquiring file) s = acquire_mcp_lock process file s
proceed process (reclaiming expected_pid file) s = reclaim_try process expected_pid file s
proceed process (reclaim_locked expected_pid file) s = reclaim_check process expected_pid file s
proceed process (locked file) s = (s, test_path file s)
proceed process (path_owned file) s = (remove_file s, removed file)
proceed process (path_lost file) s = (close_file process file s, outside)
proceed process (removed file) s = (close_file process file s, outside)

pub record Host : Type 0 where
  pub files : LockFiles
  pub progress : ℕ → Progress

pub data Event : Type 0 where
  acquires : ℕ → Event
  reclaims : ℕ → Option ℕ → Event
  proceeds : ℕ → Event
  dies : ℕ → Event

abbrev pub start_reclaim : Option ℕ → Option ℕ → Progress
start_reclaim expected_pid none = outside
start_reclaim expected_pid (some file) = reclaiming expected_pid file

abbrev pub release_all : ℕ → (ℕ → Option ℕ) → ℕ → Option ℕ
release_all process holder file = if is_number process (holder file) then none else holder file

unfoldable pub step : Event → Host → Host
unfolding open_lock_file proceed
step (acquires process) h =
    let (s, file) = open_lock_file h.files in
    record { files = s; progress = set_at process (acquiring file) h.progress }
step (reclaims process expected_pid) h = record h {
  progress = set_at process (start_reclaim expected_pid h.files.path) h.progress;
}
step (proceeds process) h =
    let (s, next) = proceed process (h.progress process) h.files in
    record { files = s; progress = set_at process next h.progress }
step (dies process) h = record {
  files = record h.files { holder = release_all process h.files.holder };
  progress = set_at process outside h.progress;
}

-- A process begins only outside; it dies anywhere.
abbrev pub MayStep : Event → Host → Type 0
MayStep (acquires process) h = h.progress process ≡ outside
MayStep (reclaims process expected_pid) h = h.progress process ≡ outside
MayStep (proceeds process) h = Unit
MayStep (dies process) h = Unit

abbrev pub initial : Host
initial = record {
  files = record { path = none; recorded_pid = λ _. none; holder = λ _. none; next_file = 0 };
  progress = λ _. outside;
}

pub data Reach : Host → Type 0 where
  here : Reach initial
  next : {h : Host} → Reach h → (e : Event) → MayStep e h → Reach (step e h)
