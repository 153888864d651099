-- ===== src/Workspace/Terminal.antt =====
-- That a round of the reaper of src/ida/pool.rs removes the entries that have lost their worker.
use ida_mcp_rs.Base.{
  ℕ, ◌≡◌, ◌⊎◌, refl, sym, ◌∙◌, subst, inl, inr, String, Bool, true, false, ◌&&◌, none, some, List,
  [], ◌∷◌, any, arith, Bool-cases, Option-cases, str_eq, eq_iff,
}
use ida_mcp_rs.Base.Assoc.{
  Assoc, lookup, remove, lookup-remove_self, lookup-remove_ne, HasDistinctKeys,
  remove-HasDistinctKeys,
}
use ida_mcp_rs.Database.{Probe, lease_reap_decision, is_none, lease_is_absent}
use ida_mcp_rs.Workspace.{WorkspaceRegistry, WorkspaceRegistryEntry, Heap}
use ida_mcp_rs.Workspace.Reaper.{
  WorkspaceReapReason, idle, terminal, is_unguarded, candidates_of, collect_reap_candidates,
  probe_candidate, probe_reap_candidates, still_reapable, take_expired, take_expired_entries,
  close_each, reap,
}
use ida_mcp_rs.Workspace.Eviction.{lookup-remove}

-- No call, no pin and no worker.
abbrev pub is_lost : WorkspaceRegistryEntry → Bool
is_lost e = is_unguarded e && is_none e.database.handle

abbrev is_terminal : String → String × WorkspaceReapReason → Bool
is_terminal id (key, terminal) = str_eq key id
is_terminal id (key, idle) = false

lookup-candidates_of :
    (heap : Heap) (id : String) (i : ℕ) (entries : Assoc ℕ)
    → lookup id entries ≡ some i
    → is_lost (heap i) ≡ true
    → lookup id (candidates_of heap entries) ≡ some i
unfolding candidates_of lookup
lookup-candidates_of heap id i [] h lost = ground (arith, h)
lookup-candidates_of heap id i ((key, j) ∷ entries) h lost =
    ground (arith, h, lost, lookup-candidates_of heap id i entries)

probe_candidate-entries :
    (p : Probe) (now j : ℕ) (r : WorkspaceRegistry)
    → (probe_candidate p now j r).0.entries ≡ r.entries
unfolding probe_candidate
probe_candidate-entries p now j r = ground arith

probe_candidate-is_lost :
    (p : Probe) (now i j : ℕ) (r : WorkspaceRegistry)
    → is_lost (r.heap i) ≡ true
    → is_lost ((probe_candidate p now j r).0.heap i) ≡ true
unfolding probe_candidate lease_reap_decision
probe_candidate-is_lost p now i j r lost = ground (arith, lost)

probe_candidate-reason :
    (p : Probe) (now i : ℕ) (r : WorkspaceRegistry)
    → p.handle_locked ≡ false
    → is_lost (r.heap i) ≡ true
    → (probe_candidate p now i r).1 ≡ some terminal
unfolding probe_candidate lease_reap_decision
probe_candidate-reason p now i r free lost = ground (arith, free, lost)

probe_reap_candidates-entries :
    (shows : ℕ → Probe) (now : ℕ) (candidates : Assoc ℕ) (r : WorkspaceRegistry)
    → (probe_reap_candidates shows now candidates r).0.entries ≡ r.entries
unfolding probe_reap_candidates
probe_reap_candidates-entries shows now [] r = refl
probe_reap_candidates-entries shows now ((key, j) ∷ candidates) r =
    probe_reap_candidates-entries shows now candidates (probe_candidate (shows j) now j r).0
    ∙ probe_candidate-entries (shows j) now j r

probe_reap_candidates-is_lost :
    (shows : ℕ → Probe) (now i : ℕ) (candidates : Assoc ℕ) (r : WorkspaceRegistry)
    → is_lost (r.heap i) ≡ true
    → is_lost ((probe_reap_candidates shows now candidates r).0.heap i) ≡ true
unfolding probe_reap_candidates
probe_reap_candidates-is_lost shows now i [] r lost = lost
probe_reap_candidates-is_lost shows now i ((key, j) ∷ candidates) r lost =
    probe_reap_candidates-is_lost shows now i candidates (probe_candidate (shows j) now j r).0
      (probe_candidate-is_lost (shows j) now i j r lost)

probe_reap_candidates-terminal :
    (shows : ℕ → Probe) (now i : ℕ) (id : String) (candidates : Assoc ℕ) (r : WorkspaceRegistry)
    → (shows i).handle_locked ≡ false
    → lookup id candidates ≡ some i
    → is_lost (r.heap i) ≡ true
    → any (is_terminal id) (probe_reap_candidates shows now candidates r).1 ≡ true
unfolding probe_reap_candidates lookup
probe_reap_candidates-terminal shows now i id [] r free h lost = ground (arith, h)
probe_reap_candidates-terminal shows now i id ((key, j) ∷ candidates) r free h lost =
    let q = (probe_candidate (shows j) now j r).0 in
    let later : lookup id candidates ≡ some i
        → any (is_terminal id) (probe_reap_candidates shows now candidates q).1 ≡ true =
      λ e.
        probe_reap_candidates-terminal shows now i id candidates q free e
          (probe_candidate-is_lost (shows j) now i j r lost) in
    ground (arith, h, lost, later, probe_candidate-reason (shows i) now i r free lost)

-- An id that is not bound, or bound to an entry that is lost and due as such.
abbrev Goes : ℕ → String → List (String × WorkspaceReapReason) → WorkspaceRegistry → Type 0
Goes i id reapable r =
    (lookup id r.entries ≡ none)
    ⊎ ((lookup id r.entries ≡ some i)
        × (is_lost (r.heap i) ≡ true)
        × (any (is_terminal id) reapable ≡ true))

take_expired-heap :
    (now : ℕ) (handle_locked : Bool) (key : String) (reason : WorkspaceReapReason)
    (r : WorkspaceRegistry)
    → (take_expired now handle_locked key reason r).0.heap ≡ r.heap
unfolding take_expired
take_expired-heap now handle_locked key reason r = ground arith

take_expired-none :
    (now : ℕ) (handle_locked : Bool) (id key : String) (reason : WorkspaceReapReason)
    (r : WorkspaceRegistry)
    → HasDistinctKeys r.entries
    → lookup id r.entries ≡ none
    → lookup id (take_expired now handle_locked key reason r).0.entries ≡ none
unfolding take_expired
take_expired-none now handle_locked id key reason r d e =
    elim (Option-cases (lookup id (remove key r.entries))) [
      | inl removed ↦ ground (arith, e, removed)
      | inr (j, found) ↦ ground (arith, e, lookup-remove key id r.entries j d found)
    ]

take_expired-terminal :
    (now i : ℕ) (id : String) (r : WorkspaceRegistry)
    → HasDistinctKeys r.entries
    → lookup id r.entries ≡ some i
    → is_lost (r.heap i) ≡ true
    → lookup id (take_expired now false id terminal r).0.entries ≡ none
unfolding take_expired still_reapable lease_is_absent
take_expired-terminal now i id r d e lost =
    ground (arith, e, lost, lookup-remove_self id r.entries d)

take_expired-some :
    (now : ℕ) (handle_locked : Bool) (i : ℕ) (id key : String) (reason : WorkspaceReapReason)
    (r : WorkspaceRegistry)
    → HasDistinctKeys r.entries
    → lookup id r.entries ≡ some i
    → (lookup id (take_expired now handle_locked key reason r).0.entries ≡ none)
      ⊎ (lookup id (take_expired now handle_locked key reason r).0.entries ≡ some i)
unfolding take_expired
take_expired-some now handle_locked i id key reason r d e = elim (Bool-cases (str_eq key id)) [
  | inl same ↦ ground (arith, e, (eq_iff key id).0 same, lookup-remove_self key r.entries d)
  | inr ne ↦ inr (ground (arith, e, lookup-remove_ne key id r.entries ne))
]

take_expired-Goes :
    (now : ℕ) (handle_locked : String → Bool) (i : ℕ) (id key : String)
    (reason : WorkspaceReapReason) (reapable : List (String × WorkspaceReapReason))
    (r : WorkspaceRegistry)
    → HasDistinctKeys r.entries
    → handle_locked id ≡ false
    → Goes i id ((key, reason) ∷ reapable) r
    → Goes i id reapable (take_expired now (handle_locked key) key reason r).0
take_expired-Goes now handle_locked i id key reason reapable r d free (inl e) =
    inl (take_expired-none now (handle_locked key) id key reason r d e)
take_expired-Goes now handle_locked i id key reason reapable r d free (inr (e, lost, due)) =
    let q = (take_expired now (handle_locked key) key reason r).0 in
    let still : is_lost (q.heap i) ≡ true =
      subst (λ h. is_lost (h i) ≡ true)
        (sym (take_expired-heap now (handle_locked key) key reason r)) lost in
    elim (take_expired-some now (handle_locked key) i id key reason r d e) [
      | inl none_left ↦ inl none_left
      | inr kept ↦ elim (Bool-cases (is_terminal id (key, reason))) [
        | inr other ↦ inr (kept, still, ground (arith, due, other))
        | inl now_due ↦ inl (due_now reason now_due)
      ]
    ]
  where
    due_now :
        (why : WorkspaceReapReason)
        → is_terminal id (key, why) ≡ true
        → lookup id (take_expired now (handle_locked key) key why r).0.entries ≡ none
    due_now terminal same =
        ground (arith, (eq_iff key id).0 same, free, take_expired-terminal now i id r d e lost)
    due_now idle same = cc

take_expired-HasDistinctKeys :
    (now : ℕ) (handle_locked : Bool) (key : String) (reason : WorkspaceReapReason)
    (r : WorkspaceRegistry)
    → HasDistinctKeys r.entries
    → HasDistinctKeys (take_expired now handle_locked key reason r).0.entries
unfolding take_expired
take_expired-HasDistinctKeys now handle_locked key reason r d =
    ground (arith, d, remove-HasDistinctKeys key r.entries d)

take_expired_entries-Goes :
    (now : ℕ) (handle_locked : String → Bool) (i : ℕ) (id : String)
    (reapable : List (String × WorkspaceReapReason)) (r : WorkspaceRegistry)
    → HasDistinctKeys r.entries
    → handle_locked id ≡ false
    → Goes i id reapable r
    → lookup id (take_expired_entries now handle_locked reapable r).0.entries ≡ none
unfolding take_expired_entries
take_expired_entries-Goes now handle_locked i id [] r d free (inl e) = e
take_expired_entries-Goes now handle_locked i id [] r d free (inr (e, lost, due)) =
    ground (arith, due)
take_expired_entries-Goes now handle_locked i id ((key, reason) ∷ reapable) r d free g =
    take_expired_entries-Goes now handle_locked i id reapable
      (take_expired now (handle_locked key) key reason r).0
      (take_expired-HasDistinctKeys now (handle_locked key) key reason r d) free
      (take_expired-Goes now handle_locked i id key reason reapable r d free g)

close_each-entries :
    (places : List ℕ) (r : WorkspaceRegistry) → (close_each places r).entries ≡ r.entries
unfolding close_each
close_each-entries [] r = refl
close_each-entries (i ∷ places) r = close_each-entries places _

-- An entry that has lost its worker does not wait for the idle timeout: one round of the reaper with
-- nothing in between removes a binding that has no worker, no call and no pin, also where there is no
-- timeout, if it is no legacy binding and its handle is not locked by a call at either of the round's
-- two looks at it.
pub reap-terminal :
    (shows : ℕ → Probe) (handle_locked : String → Bool) (now i : ℕ) (id : String)
    (r : WorkspaceRegistry)
    → HasDistinctKeys r.entries
    → lookup id r.entries ≡ some i
    → is_lost (r.heap i) ≡ true
    → (shows i).handle_locked ≡ false
    → handle_locked id ≡ false
    → lookup id (reap shows handle_locked now r).entries ≡ none
unfolding reap collect_reap_candidates
reap-terminal shows handle_locked now i id r d e lost unlocked free =
    let candidates = candidates_of r.heap r.entries in
    let probed = probe_reap_candidates shows now candidates r in
    let entries : probed.0.entries ≡ r.entries =
      probe_reap_candidates-entries shows now candidates r in
    subst (λ m. lookup id m ≡ none)
      (sym (
        close_each-entries (take_expired_entries now handle_locked probed.1 probed.0).1
          (take_expired_entries now handle_locked probed.1 probed.0).0))
      (take_expired_entries-Goes now handle_locked i id probed.1 probed.0
        (subst HasDistinctKeys (sym entries) d) free
        (inr (
          subst (λ m. lookup id m ≡ some i) (sym entries) e,
          probe_reap_candidates-is_lost shows now i candidates r lost,
          probe_reap_candidates-terminal shows now i id candidates r unlocked
              (lookup-candidates_of r.heap id i r.entries e lost) lost,
        )))
