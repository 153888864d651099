-- ===== src/Call/Loss.antt =====
-- The errors with which a call of src/ida/pool.rs takes the slot of its worker from the lease.
use Prim.Native.String.{◌++◌}
use ida_mcp_rs.Base.{
  ℕ, String, ◌≡◌, ◌⊎◌, refl, sym, subst, inl, inr, arith, Bool, true, false, ◌&&◌, ◌||◌, Option,
  none, some, leb, Option-cases, Bool-cases,
}
use ida_mcp_rs.Error.{
  ToolError, busy, never_dispatched, no_database_open, is_never_dispatched,
  child_tool_error_retires_worker, loses_worker, is_timeout, unsettled_open_error_retires_worker,
  loses_lease, worker_crashed, database_replaced,
}
use ida_mcp_rs.Pool.Data.{
  Result, ok, err, ChildState, idle, leased, closing, dead, is_dead, belongs_to_lease, PooledChild,
}
use ida_mcp_rs.Pool.Spawn.{take_dead_worker_locked}
use ida_mcp_rs.Remote.{
  Reply, CallToolResult, classify_child_error, result_error, result_error_message, sdk_crash,
  read_reply,
}
use ida_mcp_rs.Database.Dispatch.{is_remote_call}
use ida_mcp_rs.Call.{
  PooledWorkerHandle, OpenDispatch, Wait, cancelled_waiting, shut_down, drained, timed_out, served,
  sent_off, unsendable, send_failed, Shown, Admitted, Response, retires, settles, retire,
  dispatch_sent, admit, reply_failure, answered, await_response, settle_open, finish, lease_refusal,
}
use ida_mcp_rs.Call.Whole.{
  child_queue_capacity, Course, Gate, gate_cancelled, gate_timed_out, gate_taken, is_some,
  after_admission, call_tool_admitted, call_tool,
}

Gate-cases : (g : Gate) → (g ≡ gate_cancelled) ⊎ ((g ≡ gate_timed_out) ⊎ (g ≡ gate_taken))
Gate-cases gate_cancelled = inl refl
Gate-cases gate_timed_out = inr (inl refl)
Gate-cases gate_taken = inr (inr refl)

-- An error with which the worker is gone.
abbrev pub IsLost : Result Reply → Type 0
IsLost result = (e : ToolError) × (result ≡ err e) × (loses_lease e ≡ true)

pub loses_lease-is_never_dispatched :
    (e : ToolError) → loses_lease e ≡ true → is_never_dispatched e ≡ false
unfolding loses_lease is_never_dispatched
loses_lease-is_never_dispatched no_database_open h = ground arith
loses_lease-is_never_dispatched _ h = ground arith

pub loses_lease-is_remote_call : (e : ToolError) → loses_lease e ≡ true → is_remote_call e ≡ false
unfolding loses_lease
loses_lease-is_remote_call no_database_open h = ground arith
loses_lease-is_remote_call _ h = ground arith

pub retire-belongs_to_lease :
    (lease : ℕ) (c : PooledChild) → belongs_to_lease (retire lease c).0.state lease ≡ false
unfolding retire take_dead_worker_locked
retire-belongs_to_lease lease c = elim (Bool-cases (belongs_to_lease c.state lease)) [
  | inl e ↦ ground (arith, e)
  | inr e ↦ ground (arith, e)
]

pub lease_refusal-loses_lease :
    (tool : String) (h : PooledWorkerHandle) (state : ChildState)
    → belongs_to_lease state h.lease_id ≡ false
    → (e : ToolError) × (lease_refusal tool h state ≡ some e) × (loses_lease e ≡ true)
unfolding lease_refusal loses_lease
lease_refusal-loses_lease tool h idle gone = (database_replaced, refl, refl)
lease_refusal-loses_lease tool h (closing lease) gone = (database_replaced, refl, refl)
lease_refusal-loses_lease tool h dead gone = (worker_crashed h.worker_id tool, refl, refl)
lease_refusal-loses_lease tool h (leased session lease) gone =
    (database_replaced, ground (arith, gone), refl)

module _ (describe : ToolError → String) (say : ℕ → String)
    (to_ascii_lowercase : String → String) where
  classify-loses_lease :
      (tracks_open : Bool) (tool message : String)
      → ((tracks_open
            && unsettled_open_error_retires_worker
                (classify_child_error to_ascii_lowercase message))
          || child_tool_error_retires_worker tool (classify_child_error to_ascii_lowercase message))
        ≡ true
      → loses_lease (classify_child_error to_ascii_lowercase message) ≡ true
  unfolding classify_child_error loses_lease unsettled_open_error_retires_worker
      child_tool_error_retires_worker loses_worker is_timeout
  classify-loses_lease tracks_open tool message h = ground (arith, h)

  reply_failure-loses_lease :
      (tracks_open : Bool) (tool : String) (result : CallToolResult) (e : ToolError)
      → reply_failure describe say to_ascii_lowercase tracks_open tool
          (read_reply to_ascii_lowercase tool result)
        ≡ some e
      → loses_lease e ≡ true
  unfolding reply_failure read_reply result_error sdk_crash loses_lease
  reply_failure-loses_lease tracks_open tool result e h =
      ground (arith, h, classify-loses_lease tracks_open tool (result_error_message tool result))

  answered-loses_lease :
      (h : PooledWorkerHandle) (tracks_open : Bool) (tool : String) (answer : Result CallToolResult)
      (e : ToolError)
      → answered describe say to_ascii_lowercase h tracks_open tool answer ≡ retires e
      → loses_lease e ≡ true
  unfolding loses_lease
  answered-loses_lease h tracks_open tool (err f) e r = ground (arith, r)
  answered-loses_lease h tracks_open tool (ok result) e r =
      ground (arith, r, reply_failure-loses_lease tracks_open tool result e)

  pub await_response-loses_lease :
      (h : PooledWorkerHandle) (tracks_open : Bool) (tool : String) (left : ℕ) (shown : Shown)
      (sent : Result (Unit {0})) (e : ToolError)
      → await_response describe say to_ascii_lowercase h tracks_open tool left shown sent
        ≡ retires e
      → loses_lease e ≡ true
  unfolding await_response loses_lease
  await_response-loses_lease h tracks_open tool left shown (err f) e r =
      ground (arith, r, answered-loses_lease h tracks_open tool (err f) e)
  await_response-loses_lease h tracks_open tool left shown (ok u) e r =
      elim (Option-cases shown.answer) [
        | inl none_shown ↦ ground (arith, r, none_shown)
        | inr (answer, e1) ↦ ground (arith, r, e1, answered-loses_lease h tracks_open tool answer e)
      ]

  finish-IsLost :
      (h : PooledWorkerHandle) (tool : String) (tracks_open transport_closed : Bool)
      (previous : Option String) (response : Response) (c : PooledChild)
      → ((e : ToolError) → response ≡ retires e → loses_lease e ≡ true)
      → belongs_to_lease c.state h.lease_id ≡ true
      → belongs_to_lease
          (finish h tool tracks_open transport_closed previous response c).0.state
          h.lease_id
        ≡ false
      → IsLost (finish h tool tracks_open transport_closed previous response c).1
  unfolding finish settle_open loses_lease
  finish-IsLost h tool tracks_open transport_closed previous (retires e) c loses here gone =
      (e, refl, loses e refl)
  finish-IsLost h tool tracks_open transport_closed previous (settles result) c loses here gone =
      elim (Bool-cases (tracks_open && (is_dead c.state || transport_closed))) [
        | inl t ↦ (worker_crashed h.worker_id tool, ground (arith, t), refl)
        | inr t ↦ absurd (ground (arith, t, here, gone))
      ]

  admit-state :
      (h : PooledWorkerHandle) (tool : String) (seconds : ℕ) (wait : Wait)
      (opening : Option OpenDispatch) (c : PooledChild)
      → (admit describe say to_ascii_lowercase h tool seconds wait opening c).0.state ≡ c.state
  unfolding admit dispatch_sent is_never_dispatched
  admit-state h tool seconds cancelled_waiting opening c = refl
  admit-state h tool seconds shut_down opening c = refl
  admit-state h tool seconds drained opening c = refl
  admit-state h tool seconds timed_out opening c = refl
  admit-state h tool seconds (served (unsendable m)) opening c = ground arith
  admit-state h tool seconds (served (send_failed m)) opening c = ground arith
  admit-state h tool seconds (served sent_off) none c = ground arith
  admit-state h tool seconds (served sent_off) (some o) c = ground arith

  after_admission-IsLost :
      (h : PooledWorkerHandle) (tool : String) (opening : Option OpenDispatch) (k : Course)
      (r : PooledChild × Result Admitted)
      → belongs_to_lease r.0.state h.lease_id ≡ true
      → belongs_to_lease (k.between r.0).state h.lease_id ≡ true
      → belongs_to_lease
          (after_admission describe say to_ascii_lowercase h tool opening k r).0.state
          h.lease_id
        ≡ false
      → IsLost (after_admission describe say to_ascii_lowercase h tool opening k r).1
  unfolding after_admission
  after_admission-IsLost h tool opening k (c, err e) here held gone =
      absurd (ground (arith, here, gone))
  after_admission-IsLost h tool opening k (c, ok a) here held gone =
      finish-IsLost h tool (is_some opening) k.transport_closed a.previous_idb_path
        (await_response describe say to_ascii_lowercase h (is_some opening) tool k.left k.shown
          a.sent)
        (k.between c)
        (λ e. await_response-loses_lease h (is_some opening) tool k.left k.shown a.sent e) held gone

  call_tool_admitted-IsLost :
      (h : PooledWorkerHandle) (tool : String) (opening : Option OpenDispatch) (k : Course)
      (c : PooledChild)
      → ((d : PooledChild)
          → belongs_to_lease d.state h.lease_id ≡ true
          → belongs_to_lease (k.between d).state h.lease_id ≡ true)
      → belongs_to_lease c.state h.lease_id ≡ true
      → belongs_to_lease
          (call_tool_admitted describe say to_ascii_lowercase h tool opening k c).0.state
          h.lease_id
        ≡ false
      → IsLost (call_tool_admitted describe say to_ascii_lowercase h tool opening k c).1
  unfolding call_tool_admitted
  call_tool_admitted-IsLost h tool opening k c keeps here gone =
      let r = admit describe say to_ascii_lowercase h tool k.seconds k.wait opening c in
      let admitted : belongs_to_lease r.0.state h.lease_id ≡ true =
        subst (λ state. belongs_to_lease state h.lease_id ≡ true)
          (sym (admit-state h tool k.seconds k.wait opening c)) here in
      after_admission-IsLost h tool opening k r admitted (keeps r.0 admitted) gone

  -- A call is refused before its admission, or it is what follows.
  pub call_tool-cases :
      (h : PooledWorkerHandle) (tool : String) (opening : Option OpenDispatch) (k : Course)
      (c : PooledChild)
      → ((e : ToolError) × (call_tool describe say to_ascii_lowercase h tool opening k c
            ≡ (c, err e))
          × (is_never_dispatched e ≡ true))
        ⊎ (call_tool describe say to_ascii_lowercase h tool opening k c
            ≡ call_tool_admitted describe say to_ascii_lowercase h tool opening k c)
  unfolding call_tool is_never_dispatched
  call_tool-cases h tool opening k c = elim (Bool-cases (leb child_queue_capacity k.queued)) [
    | inl full ↦ inl (busy, ground (arith, full), refl)
    | inr room ↦ elim (Bool-cases h.preserve_on_cancel) [
      | inr own ↦ inr (ground (arith, room, own))
      | inl shared ↦ elim (Gate-cases k.gate) [
        | inl e ↦ inl (
          (never_dispatched ("cancelled " ++ tool ++ " before dispatch to the IDA worker")),
          ground (arith, room, shared, e),
          refl,
        )
        | inr (inl e) ↦ inl (
          (never_dispatched (tool ++ " timed out waiting for worker admission")),
          ground (arith, room, shared, e),
          refl,
        )
        | inr (inr e) ↦ elim (Bool-cases k.shutting_down) [
          | inl stops ↦ inl (
            (never_dispatched (tool ++ " was not dispatched because the server is shutting down")),
            ground (arith, room, shared, e, stops),
            refl,
          )
          | inr runs ↦ inr (ground (arith, room, shared, e, runs))
        ]
      ]
    ]
  ]

  pub call_tool-IsLost :
      (h : PooledWorkerHandle) (tool : String) (opening : Option OpenDispatch) (k : Course)
      (c : PooledChild)
      → ((d : PooledChild)
          → belongs_to_lease d.state h.lease_id ≡ true
          → belongs_to_lease (k.between d).state h.lease_id ≡ true)
      → belongs_to_lease c.state h.lease_id ≡ true
      → belongs_to_lease
          (call_tool describe say to_ascii_lowercase h tool opening k c).0.state
          h.lease_id
        ≡ false
      → IsLost (call_tool describe say to_ascii_lowercase h tool opening k c).1
  call_tool-IsLost h tool opening k c keeps here gone = elim (call_tool-cases h tool opening k c) [
    | inl (e, refused, _) ↦ absurd (ground (arith, refused, here, gone))
    | inr e ↦
        subst (λ r. IsLost r.1) (sym e)
          (call_tool_admitted-IsLost h tool opening k c keeps here
            (subst (λ r. belongs_to_lease r.0.state h.lease_id ≡ false) e gone))
  ]
