-- ===== src/Call/Transaction.antt =====
-- What a call leaves on the slot of its worker, in src/ida/pool.rs.
use ida_mcp_rs.Base.{
  ℕ, String, ◌≡◌, ◌⊎◌, refl, sym, ap, subst, inl, inr, arith, Bool, true, false, ◌||◌, Option, none,
  some, Option-cases, Bool-cases, ◌∙◌,
}
use ida_mcp_rs.Error.{ToolError, remote_protocol, no_database_open, is_never_dispatched}
use ida_mcp_rs.Pool.Data.{Result, ok, err, is_dead, belongs_to_lease, PooledChild}
use ida_mcp_rs.Remote.{Reply, CallToolResult}
use ida_mcp_rs.Database.{WorkspaceDatabase}
use ida_mcp_rs.Database.Dispatch.{settle_call, is_remote_call}
use ida_mcp_rs.Call.{
  PooledWorkerHandle, OpenDispatch, Wait, cancelled_waiting, shut_down, drained, timed_out, served,
  sent_off, unsendable, send_failed, Shown, Admitted, Response, retires, settles, dispatch_sent,
  admit, answered, await_response, settled_path, settle_open, finish,
}
use ida_mcp_rs.Call.Whole.{Course, is_some, after_admission, call_tool_admitted, call_tool}
use ida_mcp_rs.Call.Loss.{
  call_tool-cases, await_response-loses_lease, loses_lease-is_never_dispatched,
  retire-belongs_to_lease,
}

remote_call-is_never_dispatched :
    (e : ToolError) → is_remote_call e ≡ true → is_never_dispatched e ≡ false
unfolding is_never_dispatched
remote_call-is_never_dispatched no_database_open h = ground arith
remote_call-is_never_dispatched _ h = ground arith

-- What an open that was answered has made of the path on the slot.
abbrev pub IsSettled : Option String → Result Reply → Option String → Type 0
IsSettled previous (err e) path = path ≡ previous
IsSettled previous (ok reply) path =
    ((e : ToolError) → reply.reported ≡ some e → path ≡ previous)
    × ((new : String) → reply.reported ≡ none → reply.opened ≡ some new → path ≡ some new)

settled_path-IsSettled :
    (previous current : Option String) (result : Result Reply)
    → IsSettled previous result (settled_path previous current result)
settled_path-IsSettled previous current (err e) = refl
settled_path-IsSettled previous current (ok reply) =
    (λ e h. ground (arith, h), λ new h o. ground (arith, h, o))

-- The ends of an open that was admitted: without its worker, or settled.
abbrev pub IsEnd : PooledWorkerHandle → Option String → PooledChild × Result Reply → Type 0
IsEnd h previous r =
    (belongs_to_lease r.0.state h.lease_id ≡ false)
    ⊎ ((r.0.pending_open_artifacts ≡ none) × IsSettled previous r.1 r.0.idb_path)

-- The ends of an open: refused with the slot unchanged, or one of these.
abbrev pub IsTransaction : PooledWorkerHandle → PooledChild → PooledChild × Result Reply → Type 0
IsTransaction h c r = ((e : ToolError) × (r ≡ (c, err e))) ⊎ IsEnd h c.idb_path r

module _ (describe : ToolError → String) (say : ℕ → String)
    (to_ascii_lowercase : String → String) where
  admit-refused :
      (h : PooledWorkerHandle) (tool : String) (seconds : ℕ) (wait : Wait)
      (opening : Option OpenDispatch) (c : PooledChild) (e : ToolError)
      → (admit describe say to_ascii_lowercase h tool seconds wait opening c).1 ≡ err e
      → (admit describe say to_ascii_lowercase h tool seconds wait opening c).0 ≡ c
  unfolding admit dispatch_sent is_never_dispatched
  admit-refused h tool seconds cancelled_waiting opening c e r = refl
  admit-refused h tool seconds shut_down opening c e r = refl
  admit-refused h tool seconds drained opening c e r = refl
  admit-refused h tool seconds timed_out opening c e r = refl
  admit-refused h tool seconds (served (unsendable m)) opening c e r = ground (arith, r)
  admit-refused h tool seconds (served (send_failed m)) opening c e r = ground (arith, r)
  admit-refused h tool seconds (served sent_off) opening c e r = ground (arith, r)

  answered-is_remote_call :
      (h : PooledWorkerHandle) (tracks_open : Bool) (tool : String) (answer : Result CallToolResult)
      (e : ToolError)
      → answered describe say to_ascii_lowercase h tracks_open tool answer ≡ settles (err e)
      → is_remote_call e ≡ true
  answered-is_remote_call h tracks_open tool (err f) e r = ground (arith, r)
  answered-is_remote_call h tracks_open tool (ok result) e r = ground (arith, r)

  await_response-is_remote_call :
      (h : PooledWorkerHandle) (tracks_open : Bool) (tool : String) (left : ℕ) (shown : Shown)
      (sent : Result (Unit {0})) (e : ToolError)
      → await_response describe say to_ascii_lowercase h tracks_open tool left shown sent
        ≡ settles (err e)
      → is_remote_call e ≡ true
  unfolding await_response
  await_response-is_remote_call h tracks_open tool left shown (err f) e r =
      ground (arith, r, answered-is_remote_call h tracks_open tool (err f) e)
  await_response-is_remote_call h tracks_open tool left shown (ok u) e r =
      elim (Option-cases shown.answer) [
        | inl none_shown ↦ ground (arith, r, none_shown)
        | inr (answer, e1) ↦
            ground (arith, r, e1, answered-is_remote_call h tracks_open tool answer e)
      ]

  finish-dispatched :
      (h : PooledWorkerHandle) (tool : String) (tracks_open transport_closed : Bool)
      (previous : Option String) (response : Response) (c : PooledChild) (e : ToolError)
      → ((f : ToolError) → response ≡ retires f → is_never_dispatched f ≡ false)
      → ((f : ToolError) → response ≡ settles (err f) → is_never_dispatched f ≡ false)
      → (finish h tool tracks_open transport_closed previous response c).1 ≡ err e
      → is_never_dispatched e ≡ false
  unfolding finish settle_open is_never_dispatched
  finish-dispatched h tool tracks_open transport_closed previous (retires f) c e lost remote r =
      ground (arith, r, lost f refl)
  finish-dispatched h tool tracks_open transport_closed previous (settles (err f)) c e lost remote
        r =
      ground (arith, r, remote f refl)
  finish-dispatched h tool tracks_open transport_closed previous (settles (ok reply)) c e lost
        remote r =
      ground (arith, r)

  after_admission-never_dispatched :
      (h : PooledWorkerHandle) (tool : String) (opening : Option OpenDispatch) (k : Course)
      (r : PooledChild × Result Admitted) (e : ToolError)
      → (after_admission describe say to_ascii_lowercase h tool opening k r).1 ≡ err e
      → is_never_dispatched e ≡ true
      → ((f : ToolError) × (r.1 ≡ err f))
        × ((after_admission describe say to_ascii_lowercase h tool opening k r).0 ≡ r.0)
  unfolding after_admission
  after_admission-never_dispatched h tool opening k (c, err f) e r never = ((f, refl), refl)
  after_admission-never_dispatched h tool opening k (c, ok a) e r never =
      let dispatched : is_never_dispatched e ≡ false =
        finish-dispatched h tool (is_some opening) k.transport_closed a.previous_idb_path
          (await_response describe say to_ascii_lowercase h (is_some opening) tool k.left k.shown
            a.sent)
          (k.between c) e
          (λ f s. loses_lease-is_never_dispatched f (
            await_response-loses_lease describe say to_ascii_lowercase h (is_some opening) tool
              k.left k.shown a.sent f s))
          (λ f s.
            remote_call-is_never_dispatched f
              (await_response-is_remote_call h (is_some opening) tool k.left k.shown a.sent f s))
          r in
      absurd (ground (arith, dispatched, never))

  -- A call that ends with the report that it was never dispatched, because the queue was full, or it
  -- was cancelled, timed out or refused while it waited, has changed nothing: the slot of the worker is
  -- as it was, and the database keeps its lease and passes the error on.
  pub call_tool-never_dispatched :
      (h : PooledWorkerHandle) (tool : String) (opening : Option OpenDispatch) (k : Course)
      (c : PooledChild) (db : WorkspaceDatabase) (generation : ℕ) (e : ToolError)
      → (call_tool describe say to_ascii_lowercase h tool opening k c).1 ≡ err e
      → is_never_dispatched e ≡ true
      → ((call_tool describe say to_ascii_lowercase h tool opening k c).0 ≡ c)
        × (settle_call describe tool h.worker_id generation (err e) db ≡ (db, (err e, false)))
  unfolding settle_call call_tool_admitted
  call_tool-never_dispatched h tool opening k c db generation e r never = (
    elim (call_tool-cases describe say to_ascii_lowercase h tool opening k c) [
      | inl (f, refused, _) ↦ ap (λ p. p.0) refused
      | inr admitted ↦
          let a = admit describe say to_ascii_lowercase h tool k.seconds k.wait opening c in
          let ((f, refused), kept) =
            after_admission-never_dispatched h tool opening k a e (sym (ap (λ p. p.1) admitted) ∙ r)
              never in
          ap (λ p. p.0) admitted ∙ kept ∙ admit-refused h tool k.seconds k.wait opening c f refused
    ],
    ground (arith, never),
  )

  finish-settled :
      (h : PooledWorkerHandle) (tool : String) (transport_closed : Bool) (previous : Option String)
      (response : Response) (c : PooledChild)
      → IsEnd h previous (finish h tool true transport_closed previous response c)
  unfolding finish settle_open
  finish-settled h tool transport_closed previous (retires e) c =
      inl (retire-belongs_to_lease h.lease_id c)
  finish-settled h tool transport_closed previous (settles result) c =
      elim (Bool-cases (is_dead c.state || transport_closed)) [
        | inl gone ↦ inl (ground (arith, gone, retire-belongs_to_lease h.lease_id c))
        | inr serves ↦ elim (Bool-cases (belongs_to_lease c.state h.lease_id)) [
          | inr other ↦ inl (ground (arith, serves, other))
          | inl same ↦
              let settled : settle_open h tool transport_closed previous result c ≡ (
                record c {
                  pending_open_artifacts = none;
                  idb_path = settled_path previous c.idb_path result;
                },
                result,
              ) =
                ground (arith, serves, same) in
              inr (
                subst
                  (λ p. (p.0.pending_open_artifacts ≡ none) × IsSettled previous p.1 p.0.idb_path)
                  (sym settled) (refl, settled_path-IsSettled previous c.idb_path result))
        ]
      ]

  -- An admission has published the intent and kept the path before it, or the request was not sent.
  admit-granted :
      (h : PooledWorkerHandle) (tool : String) (seconds : ℕ) (wait : Wait) (o : OpenDispatch)
      (c : PooledChild) (a : Admitted)
      → (admit describe say to_ascii_lowercase h tool seconds wait (some o) c).1 ≡ ok a
      → (a.previous_idb_path ≡ c.idb_path) ⊎ ((m : String) × (a.sent ≡ err (remote_protocol m)))
  unfolding admit dispatch_sent is_never_dispatched
  admit-granted h tool seconds cancelled_waiting o c a r = absurd (ground (arith, r))
  admit-granted h tool seconds shut_down o c a r = absurd (ground (arith, r))
  admit-granted h tool seconds drained o c a r = absurd (ground (arith, r))
  admit-granted h tool seconds timed_out o c a r = absurd (ground (arith, r))
  admit-granted h tool seconds (served (unsendable m)) o c a r = absurd (ground (arith, r))
  admit-granted h tool seconds (served (send_failed m)) o c a r = inr (m, ground (arith, r))
  admit-granted h tool seconds (served sent_off) o c a r = inl (ground (arith, r))

  await_response-unsent :
      (h : PooledWorkerHandle) (tracks_open : Bool) (tool : String) (left : ℕ) (shown : Shown)
      (m : String) (response : Response)
      → response
        ≡ await_response describe say to_ascii_lowercase h tracks_open tool left shown
            (err (remote_protocol m))
      → (e : ToolError) × (response ≡ retires e)
  unfolding await_response
  await_response-unsent h tracks_open tool left shown m (retires e) r = (e, refl)
  await_response-unsent h tracks_open tool left shown m (settles result) r =
      absurd (ground (arith, r))

  after_admission-IsTransaction :
      (h : PooledWorkerHandle) (tool : String) (o : OpenDispatch) (k : Course) (c : PooledChild)
      (r : PooledChild × Result Admitted)
      → ((e : ToolError) → r.1 ≡ err e → r.0 ≡ c)
      → ((a : Admitted)
          → r.1 ≡ ok a
          → (a.previous_idb_path ≡ c.idb_path)
            ⊎ ((m : String) × (a.sent ≡ err (remote_protocol m))))
      → IsTransaction h c (after_admission describe say to_ascii_lowercase h tool (some o) k r)
  unfolding after_admission finish
  after_admission-IsTransaction h tool o k c (d, err e) refused granted =
      inl (e, ground (arith, refused e refl))
  after_admission-IsTransaction h tool o k c (d, ok a) refused granted = elim (granted a refl) [
    | inl same ↦
        let response =
          await_response describe say to_ascii_lowercase h true tool k.left k.shown a.sent in
        let r = finish h tool true k.transport_closed a.previous_idb_path response (k.between d) in
        inr (
          subst (λ previous. IsEnd h previous r) same
            (finish-settled h tool k.transport_closed a.previous_idb_path response (k.between d)))
    | inr (m, unsent) ↦
        let (e, failed) =
          await_response-unsent h true tool k.left k.shown m
            (await_response describe say to_ascii_lowercase h true tool k.left k.shown a.sent)
            (ap
              (λ sent.
                await_response describe say to_ascii_lowercase h true tool k.left k.shown sent)
              unsent) in
        inr (
          inl (
            subst
              (λ response.
                belongs_to_lease
                  (finish h tool true k.transport_closed a.previous_idb_path response
                    (k.between d)).0.state
                  h.lease_id
                ≡ false)
              (sym failed) (retire-belongs_to_lease h.lease_id (k.between d))))
  ]

  -- An open is a transaction on the slot of its worker. Whatever its waits show and other tasks do, it
  -- ends in one of these ways: with an error and the slot as it was; with the slot taken from the
  -- lease; or with no artifacts pending and a path on the slot that is the one which stood there before,
  -- if the open ended with an error or reported one, and else the path that it reports to have opened.
  pub call_tool-IsTransaction :
      (h : PooledWorkerHandle) (tool : String) (o : OpenDispatch) (k : Course) (c : PooledChild)
      → IsTransaction h c (call_tool describe say to_ascii_lowercase h tool (some o) k c)
  unfolding call_tool_admitted
  call_tool-IsTransaction h tool o k c =
      elim (call_tool-cases describe say to_ascii_lowercase h tool (some o) k c) [
        | inl (e, refused, _) ↦ inl (e, refused)
        | inr admitted ↦ subst (IsTransaction h c) (sym admitted) (
            after_admission-IsTransaction h tool o k c
              (admit describe say to_ascii_lowercase h tool k.seconds k.wait (some o) c)
              (admit-refused h tool k.seconds k.wait (some o) c)
              (admit-granted h tool k.seconds k.wait o c))
      ]
