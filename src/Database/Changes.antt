-- ===== src/Database/Changes.antt =====
-- What a call may do to the handle of a database in src/ida/pool.rs.
use ida_mcp_rs.Base.{
  ℕ, ◌+◌, ◌≡◌, refl, inl, inr, String, Bool, true, false, ◌||◌, ◌&&◌, ◌⊎◌, Option, none, some,
  arith, ltb, Bool-cases, if◌then◌else◌, ◌==◌,
}
use ida_mcp_rs.Error.{ToolError, is_never_dispatched, child_tool_error_retires_worker}
use ida_mcp_rs.Pool.Data.{Result, ok, err, word_values}
use ida_mcp_rs.Database.{
  PooledDatabaseLease, WorkspaceDatabase, Probe, has_generation, is_lease, set_debug_pin_for_lease,
  lease_reap_decision, next_database_generation, install_lease, lease_for_open, take_handle,
  clear_handle_if_lease,
}
use ida_mcp_rs.Database.Closing.{
  close, issue_close_token, close_authorized, close_if_generation, detach,
}
use ida_mcp_rs.Database.CloseToken.{
  CloseTokenLease, issue_for_session, authorize_close, CloseAuthorization, granted,
  granted_by_override, denied,
}
use ida_mcp_rs.Remote.{Reply}
use ida_mcp_rs.Database.Dispatch.{
  settle_call, lose_worker, finish_debug_start, finish_debug_stop, pin_dispatched,
  debug_start_retains_session, is_ok, is_remote_call,
}
use ida_mcp_rs.Database.Steps.{
  Call, opens, closes, closes_authorized, closes_generation, issues_token, settles_call,
  starts_debugger, stops_debugger, probes, step,
}

-- How a step may change the handle: not at all, to nothing, in its token or its pin only, or to a
-- lease of a new generation. A token stays once it is there, and a pin is set only for a worker and a
-- generation that pass a test.
pub data Change (may_pin : ℕ → ℕ → Bool) (db : WorkspaceDatabase) : WorkspaceDatabase → Type 0 where
  same : Change may_pin db db
  cleared : Change may_pin db (record db { handle = none })
  edited :
      (old lease : PooledDatabaseLease)
      → db.handle ≡ some old
      → old.worker_id ≡ lease.worker_id
      → old.generation ≡ lease.generation
      → ((t : CloseTokenLease) → old.close_token ≡ some t → lease.close_token ≡ some t)
      → (lease.debug_pinned ≡ true
          → (old.debug_pinned ≡ true) ⊎ (may_pin lease.worker_id lease.generation ≡ true))
      → Change may_pin db (record db { handle = some lease })
  counted :
      Change may_pin db (record db { handle = none; last_generation = db.last_generation + 1 })
  replaced :
      (lease : PooledDatabaseLease)
      → lease.generation ≡ db.last_generation + 1
      → lease.debug_pinned ≡ false
      → Change may_pin db
          (record db { handle = some lease; last_generation = db.last_generation + 1 })

-- The pins that a call may set: those of a debugger start that leaves its session alive.
abbrev pub may_pin : Call → ℕ → ℕ → Bool
may_pin (starts_debugger tool (some (w, g)) result) worker_id generation =
    debug_start_retains_session result && (w == worker_id && g == generation)
may_pin _ worker_id generation = false

abbrev at : Option PooledDatabaseLease → ℕ → Bool → WorkspaceDatabase
at handle last_generation shared_http = record {
  handle = handle;
  last_generation = last_generation;
  shared_http = shared_http;
}

issue_keeps :
    (session_id token : String) (state : Option CloseTokenLease) (t : CloseTokenLease)
    → state ≡ some t
    → (issue_for_session session_id token state).0 ≡ some t
unfolding issue_for_session
issue_keeps session_id token none t h = cc
issue_keeps session_id token (some l) t h = h

module _ (P : ℕ → ℕ → Bool) where
  if-Change :
      {A : Type 0} (db : WorkspaceDatabase) (f : A → WorkspaceDatabase) (b : Bool) (x y : A)
      → Change P db (f x)
      → Change P db (f y)
      → Change P db (f (if b then x else y))
  if-Change db f true x y hx hy = hx
  if-Change db f false x y hx hy = hy

  clear-Change : (w g : ℕ) (db : WorkspaceDatabase) → Change P db (clear_handle_if_lease w g db).0
  unfolding clear_handle_if_lease
  clear-Change w g db = go db.handle db.last_generation db.shared_http
    where
      go :
          (h : Option PooledDatabaseLease) (n : ℕ) (s : Bool)
          → Change P (at h n s) (clear_handle_if_lease w g (at h n s)).0
      go none n s = same
      go (some l) n s =
          if-Change (at (some l) n s) (λ (r : WorkspaceDatabase × Bool). r.0) (is_lease w g l) _ _
            cleared same

  pin-Change :
      (w g : ℕ) (pinned : Bool) (db : WorkspaceDatabase)
      → (pinned ≡ true → P w g ≡ true)
      → Change P db (set_debug_pin_for_lease w g pinned db).0
  unfolding set_debug_pin_for_lease
  pin-Change w g pinned db may = go db.handle db.last_generation db.shared_http
    where
      go :
          (h : Option PooledDatabaseLease) (n : ℕ) (s : Bool)
          → Change P (at h n s) (set_debug_pin_for_lease w g pinned (at h n s)).0
      go none n s = same
      go (some l) n s = elim (Bool-cases (is_lease w g l)) [
        | inl e ↦ rw e (
            edited l (record l { debug_pinned = pinned }) refl refl refl (λ t k. k)
              (λ set. inr (ground (arith, e, may set))))
        | inr e ↦ rw e same
      ]

  install-Change :
      (leased : Result (ℕ × ℕ)) (n : ℕ) (s : Bool) (h : Option PooledDatabaseLease)
      → Change P (at h n s) (install_lease leased (at none n s)).0
  unfolding install_lease next_database_generation
  install-Change (ok (w, i)) n s h = elim (Bool-cases (ltb (n + 1) word_values)) [
    | inl e ↦ rw (e, install_lease, next_database_generation) (replaced _ refl refl)
    | inr e ↦ rw (e, install_lease, next_database_generation) cleared
  ]
  install-Change (err x) n s h = elim (Bool-cases (ltb (n + 1) word_values)) [
    | inl e ↦ rw (e, install_lease, next_database_generation) counted
    | inr e ↦ rw (e, install_lease, next_database_generation) cleared
  ]

  open-Change :
      (serves : Bool) (leased : Result (ℕ × ℕ)) (db : WorkspaceDatabase)
      → Change P db (lease_for_open serves leased db).0
  unfolding lease_for_open
  open-Change serves leased db = go serves db.handle db.last_generation db.shared_http
    where
      go :
          (serves : Bool) (h : Option PooledDatabaseLease) (n : ℕ) (s : Bool)
          → Change P (at h n s) (lease_for_open serves leased (at h n s)).0
      go serves none n s = install-Change leased n s none
      go true (some l) n s = same
      go false (some l) n s = install-Change leased n s (some l)

  close-Change :
      (released : Option ToolError) (db : WorkspaceDatabase) → Change P db (close released db).0
  unfolding close take_handle
  close-Change released db = go db.handle db.last_generation db.shared_http
    where
      go :
          (h : Option PooledDatabaseLease) (n : ℕ) (s : Bool)
          → Change P (at h n s) (close released (at h n s)).0
      go none n s = cleared
      go (some l) n s = cleared

  detach-Change :
      (released : Option ToolError) (a : CloseAuthorization) (db : WorkspaceDatabase)
      → Change P db (detach released a db).0
  unfolding detach take_handle
  detach-Change released granted db = cleared
  detach-Change released (granted_by_override owner) db = cleared
  detach-Change released (denied owner) db = same

  authorized-Change :
      (session_id : String) (token : Option String) (force : Bool) (released : Option ToolError)
      (db : WorkspaceDatabase)
      → Change P db (close_authorized session_id token force released db).0
  unfolding close_authorized
  authorized-Change session_id token force released db =
      go db.handle db.last_generation db.shared_http
    where
      go :
          (h : Option PooledDatabaseLease) (n : ℕ) (s : Bool)
          → Change P (at h n s) (close_authorized session_id token force released (at h n s)).0
      go none n s = same
      go (some l) n s =
          detach-Change released (authorize_close session_id token force l.close_token)
            (at (some l) n s)

  generation-Change :
      (g : ℕ) (released : Option ToolError) (db : WorkspaceDatabase)
      → Change P db (close_if_generation g released db).0
  unfolding close_if_generation take_handle
  generation-Change g released db = elim (Bool-cases (has_generation g db.handle)) [
    | inl e ↦ rw (e, close_if_generation) cleared
    | inr e ↦ rw (e, close_if_generation) same
  ]

  issue-Change :
      (session_id : String) (g : ℕ) (token : String) (db : WorkspaceDatabase)
      → Change P db (issue_close_token session_id g token db).0
  unfolding issue_close_token
  issue-Change session_id g token db = go db.handle db.last_generation db.shared_http
    where
      go :
          (h : Option PooledDatabaseLease) (n : ℕ) (s : Bool)
          → Change P (at h n s) (issue_close_token session_id g token (at h n s)).0
      go none n s = same
      go (some l) n s = elim (Bool-cases (l.generation == g)) [
        | inl e ↦ rw e (
            edited l _ refl refl refl (issue_keeps session_id token l.close_token) (λ set. inl set))
        | inr e ↦ rw e same
      ]

  probe-Change : (p : Probe) (db : WorkspaceDatabase) → Change P db (lease_reap_decision p db).0
  unfolding lease_reap_decision
  probe-Change p db = go p.handle_locked db.handle db.last_generation db.shared_http
    where
      go :
          (locked : Bool) (h : Option PooledDatabaseLease) (n : ℕ) (s : Bool)
          → Change P
              (at h n s)
              (lease_reap_decision (record p { handle_locked = locked }) (at h n s)).0
      go true h n s = same
      go false none n s = same
      go false (some l) n s = elim (Bool-cases p.child_locked) [
        | inl e ↦ rw e same
        | inr e ↦ elim (Bool-cases (p.child_dead || p.transport_closed)) [
          | inl f ↦ rw (e, f) cleared
          | inr f ↦ rw (e, f) same
        ]
      ]

  stop-Change :
      (served : Option (ℕ × ℕ)) (db : WorkspaceDatabase)
      → Change P db (pin_dispatched served false db).0
  unfolding pin_dispatched
  stop-Change none db = same
  stop-Change (some (w, g)) db = pin-Change w g false db (λ h. cc)

start-Change :
    (tool : String) (served : Option (ℕ × ℕ)) (result : Result Reply) (db : WorkspaceDatabase)
    → Change
        (may_pin (starts_debugger tool served result))
        db
        (finish_debug_start tool served result db).0
unfolding finish_debug_start pin_dispatched
start-Change tool none result db = elim (Bool-cases (debug_start_retains_session result)) [
  | inr e ↦ rw (e, finish_debug_start) same
  | inl e ↦ rw (e, finish_debug_start) same
]
start-Change tool (some (w, g)) result db = elim (Bool-cases (debug_start_retains_session result)) [
  | inr e ↦ rw (e, finish_debug_start) same
  | inl e ↦
      let allowed : may_pin (starts_debugger tool (some (w, g)) result) w g ≡ true =
        ground (arith, e) in
      rw (e, finish_debug_start)
        (pin-Change (may_pin (starts_debugger tool (some (w, g)) result)) w g true db
          (λ _. allowed))
]

module _ (describe : ToolError → String) where
  settle-Change :
      (P : ℕ → ℕ → Bool) (tool : String) (w g : ℕ) (result : Result Reply) (db : WorkspaceDatabase)
      → Change P db (settle_call describe tool w g result db).0
  unfolding settle_call lose_worker
  settle-Change P tool w g (err e) db =
      if-Change P db (λ (r : WorkspaceDatabase × (Result Reply × Bool)). r.0)
        (is_never_dispatched e || is_remote_call e) _ _ same (clear-Change P w g db)
  settle-Change P tool w g (ok reply) db = go reply.reported
    where
      go :
          (reported : Option ToolError)
          → Change P db
              (settle_call describe tool w g (ok (record reply { reported = reported })) db).0
      go none = same
      go (some e) =
          if-Change P db (λ (r : WorkspaceDatabase × (Result Reply × Bool)). r.0)
            (child_tool_error_retires_worker tool e) _ _ (clear-Change P w g db) same

  -- Every call changes the handle in one of these ways.
  pub step-Change : (c : Call) (db : WorkspaceDatabase) → Change (may_pin c) db (step describe c db)
  unfolding step finish_debug_start finish_debug_stop
  step-Change (opens serves leased) db =
      open-Change (may_pin (opens serves leased)) serves leased db
  step-Change (closes released) db = close-Change (may_pin (closes released)) released db
  step-Change (closes_authorized session_id token force released) db =
      authorized-Change (may_pin (closes_authorized session_id token force released)) session_id
        token force released db
  step-Change (closes_generation g released) db =
      generation-Change (may_pin (closes_generation g released)) g released db
  step-Change (issues_token session_id g token) db =
      issue-Change (may_pin (issues_token session_id g token)) session_id g token db
  step-Change (settles_call tool w g result) db =
      settle-Change (may_pin (settles_call tool w g result)) tool w g result db
  step-Change (starts_debugger tool served result) db = start-Change tool served result db
  step-Change (stops_debugger served result) db =
      if-Change (may_pin (stops_debugger served result)) db
        (λ (r : WorkspaceDatabase × Result Reply). r.0) (is_ok result) _ _
        (stop-Change (may_pin (stops_debugger served result)) served db) same
  step-Change (probes p) db = probe-Change (may_pin (probes p)) p db
