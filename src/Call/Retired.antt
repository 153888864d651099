-- ===== src/Call/Retired.antt =====
-- That a database gives up the lease of a worker that its own call has retired, in src/ida/pool.rs.
use ida_mcp_rs.Base.{
  leb, ℕ, String, ◌≡◌, subst, inl, inr, arith, Bool, true, false, Option, none, some, Option-cases,
  Bool-cases,
}
use ida_mcp_rs.Error.{ToolError, open_error_releases_lease}
use ida_mcp_rs.Pool.Data.{Result, ok, err, belongs_to_lease, PooledChild}
use ida_mcp_rs.Remote.{Reply}
use ida_mcp_rs.Database.{
  PooledDatabaseLease, WorkspaceDatabase, OpenHandle, lease_for_open, is_lease, has_generation,
  clear_handle_if_lease, take_handle,
}
use ida_mcp_rs.Database.Closing.{close_if_generation}
use ida_mcp_rs.Database.Dispatch.{begin_call, settle_call, lose_worker}
use ida_mcp_rs.Call.{OpenDispatch, Sent, served, retire, drop_retire_guard, admit}
use ida_mcp_rs.Call.Whole.{
  Course, child_queue_capacity, gate_taken, call_tool_admitted, after_admission, after_call,
  after_open, call_tool, handle_of, dispatch_result_observed, open_observed_with_generation,
}
use ida_mcp_rs.Call.Loss.{
  IsLost, loses_lease-is_never_dispatched, loses_lease-is_remote_call, call_tool-IsLost,
  retire-belongs_to_lease, lease_refusal-loses_lease,
}

-- Whether the lease of a worker and a generation is installed.
abbrev pub holds : ℕ → ℕ → Option PooledDatabaseLease → Bool
holds worker_id generation none = false
holds worker_id generation (some lease) = is_lease worker_id generation lease

module _ (describe : ToolError → String) (say : ℕ → String)
    (to_ascii_lowercase : String → String) where
  after_call-holds :
      (tool : String) (lease : PooledDatabaseLease) (r : PooledChild × Result Reply)
      (db : WorkspaceDatabase)
      → (belongs_to_lease r.0.state lease.lease_id ≡ false → IsLost r.1)
      → belongs_to_lease
          (after_call describe say to_ascii_lowercase tool lease r db).1.0.state
          lease.lease_id
        ≡ false
      → holds lease.worker_id lease.generation
          (after_call describe say to_ascii_lowercase tool lease r db).0.handle
        ≡ false
  unfolding after_call settle_call lose_worker clear_handle_if_lease
  after_call-holds tool lease (d, err e) db lost gone =
      let taken : belongs_to_lease d.state lease.lease_id ≡ false = ground (arith, gone) in
      let (f, same, loses) = lost taken in
      ground (
        arith,
        same,
        loses,
        loses_lease-is_never_dispatched f loses,
        loses_lease-is_remote_call f loses,
      )
  after_call-holds tool lease (d, ok reply) db lost gone =
      elim (Bool-cases (belongs_to_lease d.state lease.lease_id)) [
        | inr taken ↦ (let (f, same, loses) = lost taken in absurd (ground (arith, same)))
        | inl here ↦ elim (Option-cases reply.reported) [
          | inl e ↦ absurd (ground (arith, e, here, gone))
          | inr (f, e) ↦ ground (arith, e, here, gone)
        ]
      ]

  -- A call that runs to its end and has retired its worker leaves no lease of it: if the slot belongs
  -- to the lease when the call begins, if no other task takes it away meanwhile, and if it does not
  -- belong to the lease when the call has ended, then the lease of that worker and generation is no
  -- longer installed, whatever other tasks have done to the database. A call whose future is dropped is
  -- not meant.
  pub dispatch-retired :
      (expected_generation : Option ℕ) (args_error : Option ToolError) (session_id tool : String)
      (k : Course) (others : WorkspaceDatabase → WorkspaceDatabase) (db : WorkspaceDatabase)
      (c : PooledChild) (lease : PooledDatabaseLease)
      → begin_call expected_generation args_error db ≡ ok lease
      → ((d : PooledChild)
          → belongs_to_lease d.state lease.lease_id ≡ true
          → belongs_to_lease (k.between d).state lease.lease_id ≡ true)
      → belongs_to_lease c.state lease.lease_id ≡ true
      → belongs_to_lease
          (dispatch_result_observed describe say to_ascii_lowercase expected_generation args_error
            session_id tool k others db c).1.0.state
          lease.lease_id
        ≡ false
      → holds lease.worker_id lease.generation
          (dispatch_result_observed describe say to_ascii_lowercase expected_generation args_error
            session_id tool k others db c).0.handle
        ≡ false
  unfolding dispatch_result_observed
  dispatch-retired expected_generation args_error session_id tool k others db c lease begins keeps
        here =
      let h = handle_of session_id db lease.worker_id lease.lease_id in
      rw (begins, dispatch_result_observed)
        (after_call-holds tool lease (call_tool describe say to_ascii_lowercase h tool none k c)
          (others db) (call_tool-IsLost describe say to_ascii_lowercase h tool none k c keeps here))

  -- A dropped call retires its worker and leaves the lease with the database until the next call: when
  -- the guard of a dropped call, inside the runtime, has been at the slot, the next call through the
  -- lease that reaches the slot, with room in the queue, through the gate before a shutdown and
  -- admitted before any cancellation, ends with the lease of that worker and generation no longer
  -- installed, whatever other tasks have done to the database, and leaves the slot as it is.
  pub dispatch-drop_retire_guard :
      (expected_generation : Option ℕ) (args_error : Option ToolError) (session_id tool : String)
      (k : Course) (others : WorkspaceDatabase → WorkspaceDatabase) (db : WorkspaceDatabase)
      (slot : PooledChild) (lease : PooledDatabaseLease) (sent : Sent)
      → begin_call expected_generation args_error db ≡ ok lease
      → leb child_queue_capacity k.queued ≡ false
      → k.gate ≡ gate_taken
      → k.shutting_down ≡ false
      → k.wait ≡ served sent
      → let c = (drop_retire_guard true true lease.lease_id slot).0 in
        let q =
          dispatch_result_observed describe say to_ascii_lowercase expected_generation args_error
            session_id tool k others db c in
        (holds lease.worker_id lease.generation q.0.handle ≡ false) × (q.1.0 ≡ c)
  unfolding dispatch_result_observed call_tool call_tool_admitted after_admission admit after_call
      settle_call lose_worker clear_handle_if_lease drop_retire_guard
  dispatch-drop_retire_guard expected_generation args_error session_id tool k others db slot lease
        sent begins room gate up reached =
      let h = handle_of session_id db lease.worker_id lease.lease_id in
      let c = (retire lease.lease_id slot).0 in
      let (e, refused, loses) =
        lease_refusal-loses_lease tool h c.state (retire-belongs_to_lease lease.lease_id slot) in
      ground (
        arith,
        begins,
        room,
        gate,
        up,
        reached,
        refused,
        loses,
        loses_lease-is_never_dispatched e loses,
        loses_lease-is_remote_call e loses,
      )

  after_open-closed :
      (released : Option ToolError) (unparsed : String) (opening : OpenHandle)
      (r : PooledChild × Result Reply) (db : WorkspaceDatabase)
      → IsLost r.1
      → has_generation opening.generation
          (after_open describe say to_ascii_lowercase released unparsed opening r db).0.handle
        ≡ false
  unfolding after_open open_error_releases_lease close_if_generation take_handle
  after_open-closed released unparsed opening (d, result) db (f, same, loses) =
      ground (arith, same, loses, loses_lease-is_never_dispatched f loses)

  after_open-slot :
      (released : Option ToolError) (unparsed : String) (opening : OpenHandle)
      (r : PooledChild × Result Reply) (db : WorkspaceDatabase)
      → (after_open describe say to_ascii_lowercase released unparsed opening r db).1.0 ≡ r.0
  unfolding after_open
  after_open-slot released unparsed opening (d, err e) db = ground arith
  after_open-slot released unparsed opening (d, ok reply) db = ground arith

  -- The same for an open: if it loses the worker, whether the lease is fresh or was there before, then
  -- the generation that it opened is closed when it returns, whatever other tasks have done to the
  -- database.
  pub open-retired :
      (serves : Bool) (leased : Result (ℕ × ℕ)) (released : Option ToolError)
      (session_id unparsed : String) (dispatch : OpenDispatch) (k : Course)
      (others : WorkspaceDatabase → WorkspaceDatabase) (db : WorkspaceDatabase) (c : PooledChild)
      (opening : OpenHandle)
      → (lease_for_open serves leased db).1.0 ≡ ok opening
      → ((d : PooledChild)
          → belongs_to_lease d.state opening.lease_id ≡ true
          → belongs_to_lease (k.between d).state opening.lease_id ≡ true)
      → belongs_to_lease c.state opening.lease_id ≡ true
      → belongs_to_lease
          (open_observed_with_generation describe say to_ascii_lowercase serves leased released
            session_id unparsed dispatch k others db c).1.0.state
          opening.lease_id
        ≡ false
      → has_generation opening.generation
          (open_observed_with_generation describe say to_ascii_lowercase serves leased released
            session_id unparsed dispatch k others db c).0.handle
        ≡ false
  unfolding open_observed_with_generation
  open-retired serves leased released session_id unparsed dispatch k others db c opening opens keeps
        here =
      let h = handle_of session_id db opening.worker_id opening.lease_id in
      let r = call_tool describe say to_ascii_lowercase h "open_idb" (some dispatch) k c in
      let q = others (lease_for_open serves leased db).0 in
      let closed : belongs_to_lease
              (after_open describe say to_ascii_lowercase released unparsed opening r q).1.0.state
              opening.lease_id
            ≡ false
          → has_generation opening.generation
              (after_open describe say to_ascii_lowercase released unparsed opening r q).0.handle
            ≡ false =
        λ gone. after_open-closed released unparsed opening r q (
          call_tool-IsLost describe say to_ascii_lowercase h "open_idb" (some dispatch) k c keeps
            here
            (subst (λ d. belongs_to_lease d.state opening.lease_id ≡ false)
              (after_open-slot released unparsed opening r q) gone)) in
      rw (opens, open_observed_with_generation) closed
