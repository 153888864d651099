-- ===== src/Lib.antt =====
-- ida-mcp, a server that offers the functions of IDA to MCP clients: its state and its protocols.
--
-- The server keeps a pool of worker processes, one IDA each, and leases them to client sessions. Long
-- calls run as background tasks, which a client polls and may cancel. Short calls are recorded in a
-- history of operations. Over HTTP a session whose client goes away is closed after a grace, and its
-- lease is returned. An input that is a universal Mach-O is parsed before IDA opens it. The parts meet
-- in few places: a lease that is lost or a worker that dies shows as an error, whose classification
-- decides whether the pool retires the worker; an open that ran as a task settles the task.
--
-- Base holds the names and lemmas that all parts share: tests on native numbers, lists measured by
-- them, and `HashMap<String, V>` as an association list (Base.Assoc).
--
-- Task is src/server/task.rs. Task.Data has its types, Task.Clock the time stamps, Task.Entry the
-- methods of TaskEntry, Task.Retention prune_terminal_tasks and reclaim_capacity_for_admission,
-- Task.Registry the methods of TaskRegistry. Task.Steps puts them together as one step function, and
-- its children hold the theorems over sequences of calls. The mutex makes each method one step. Clock
-- readings, generated ids and cancellation tokens are arguments; what a token shows may change
-- between any two calls.
--
-- Pool is the WorkerPool of src/ida/pool.rs. A slot (`Arc<ChildSlot>`) is shared by the pool and the
-- handles, so the slots lie in a heap under their worker ids. Pool.Spawn has the reservations and
-- starts, Pool.Lease one pass of lease_inner, Pool.Release and Pool.Retire the two ways a lease ends,
-- and Pool.Steps the steps that interleave: each section of the code under a lock is one, so that a
-- retirement and the forgetting of its slot are two. A scan that locks one slot after another under the
-- pool's lock is read as one. Functions such as mark_stale_idle_dead, which run several sections in a
-- row, are what comes of them undisturbed. Whether a process starts, resets or closes is an argument of the step. The counters stop with an
-- error at 2^64, as checked_add does.
--
-- Database is the WorkspaceDatabase of src/ida/pool.rs: the lease of a worker that a session or a
-- workspace has, its generation, its close token (Database.CloseToken is the CloseTokenState of
-- src/ida/worker.rs) and its debugger pin. Database.Dispatch has what stands before and after the call of
-- a worker's tool, Database.Steps all calls on a database as one step function. The mutex on the handle
-- makes each method one step.
--
-- Remote is what src/ida/remote.rs reads from the reply of a worker. Call is PooledWorkerHandle::call_tool of
-- src/ida/pool.rs on the slot of one worker, Call.Whole the same with its queue and its database around
-- it, from dispatch_result_observed and from open_observed_with_generation. The sections of a call that
-- hold the child's mutex are its steps: what other tasks do in between is a function that is an
-- argument. A call whose future is dropped leaves its worker to its guard, drop_retire_guard. Call.Loss has the errors with which a worker is lost. Call.Queue is the queue's counter as an interleaving, Call.Deadline the deadlines.
--
-- Workspace is the WorkspaceRegistry of src/ida/pool.rs. Workspace.Reaper has the phases of its reaper,
-- Workspace.Guards the guards of calls and tasks as steps that interleave; there the two halves of a
-- guard's drop are steps of their own. The reaper's check of one entry under the registry's lock is one
-- step, and the relaxed atomics are read as sequentially consistent.
--
-- Error is src/error.rs and the classifications of its errors in src/ida/pool.rs.
--
-- Operation is src/server/operation.rs: Operation.History the ring of events, Operation.Registry the
-- calls.
--
-- Disconnect is the SessionDisconnectRegistry of src/server/http_config.rs with its stream guards. Each
-- section under the lock is a step. A cleanup checks at any time after it was spawned, and other steps
-- may come while it awaits the close of its session, before it forgets the session.
--
-- Access is src/server/http_access.rs. Its string functions, the parser of addresses and the parser of
-- authorities are arguments.
--
-- Lock is src/ida/lock.rs on a POSIX system: the system calls of any processes on one lock path, as steps
-- that interleave. What a file is and whose lock is on it is in the state.
--
-- ToolFilter is src/server/tool_filter.rs with the queries of src/tool_registry.rs that it makes. The
-- table of tools is an argument, and so is what to_lowercase makes of a text.
--
-- MachO is the header parser of src/macho_fat.rs. Error messages are data with what they say.
--
-- Recursion is on the structure of lists or on a count. Where there is fuel it is for the digits of a
-- number: 20 decimal digits for what a u64 holds, 8 hexadecimal ones for 32 bits.
--
-- Not modelled: the IDA library and the handlers that call it (src/ida/handlers), the request loop
-- and the processes (src/ida/loop_impl.rs, src/ida/worker.rs), the command line (src/main.rs), the
-- tool router (src/server/mod.rs) and the file operations of src/macho_fat.rs. A poisoned lock
-- is outside the model.

pub mod Access
pub mod Base
pub mod Call
pub mod Database
pub mod Disconnect
pub mod Error
pub mod Lock
pub mod MachO
pub mod Operation
pub mod Pool
pub mod Remote
pub mod Task
pub mod ToolFilter
pub mod Workspace
