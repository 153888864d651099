-- ===== src/Disconnect/Tests.antt =====
-- The theorems on the disconnect cleanup at concrete sessions.
use ida_mcp_rs.Base.{◌≡◌, refl, true, false, none, List, [], ◌∷◌, ◌⊎◌, any, arith}
use ida_mcp_rs.Base.Assoc.{lookup}
use ida_mcp_rs.Disconnect.{
  Server, Step, opens, ends, checks, forgets, take_stream, step, run, streams_of, should_close,
  is_cleanup,
}
use ida_mcp_rs.Disconnect.Reconnect.{check-reconnected, cleanup-abandoned}
use ida_mcp_rs.Disconnect.Streams.{initial, Reach, here, next, Inv, Reach-Inv, check-unused}

-- One session with its event stream open, and another.
abbrev server : Server
server = record {
  states =
      ("s1", record { generation = 3; active_streams = 1; abandoned_generation = none })
      ∷ ("s2", record { generation = 1; active_streams = 1; abandoned_generation = none })
      ∷ [];
  streams =
      record { session_id = "s1"; generation = 3; close_on_drop = true }
      ∷ record { session_id = "s2"; generation = 1; close_on_drop = true }
      ∷ [];
  cleanups = ("s1", 3) ∷ [];
  closing = [];
}

-- Another session ends its stream, and its cleanup checks and forgets it.
abbrev others : List Step
others = ends "s2" 1 false true ∷ checks "s2" 1 ∷ forgets "s2" ∷ []

check-reconnected_example :
    (should_close "s1" 3 (run others (step (opens "s1" true) server)).states ≡ false)
    × ((step (checks "s1" 3) (run others (step (opens "s1" true) server))).closing
        ≡ (run others (step (opens "s1" true) server)).closing)
unfolding lookup
check-reconnected_example =
    check-reconnected "s1" true server others 3 (refl, (refl, tt)) (refl, (refl, (refl, tt)))

cleanup-abandoned_example :
    let q = run others (step (ends "s1" 3 false true) server) in
    ((step (ends "s1" 3 false true) server).cleanups ≡ ("s1", 3) ∷ server.cleanups)
    × (any (is_cleanup "s1" 3) q.cleanups ≡ true)
    × ((step (checks "s1" 3) q).closing ≡ "s1" ∷ q.closing)
unfolding lookup take_stream
cleanup-abandoned_example =
    cleanup-abandoned "s1" 3 (record { session_id = "s1"; generation = 3; close_on_drop = true })
      (record { session_id = "s2"; generation = 1; close_on_drop = true } ∷ [])
      (record { generation = 3; active_streams = 1; abandoned_generation = none }) server others
      refl refl refl refl (refl, (refl, (refl, tt)))

-- A session that opens one stream and drops it.
abbrev dropped : Server
dropped = step (ends "s1" 1 false true) (step (opens "s1" true) initial)

dropped-Reach : Reach 2 dropped
dropped-Reach = next (next here (opens "s1" true) (λ _. refl)) (ends "s1" 1 false true) tt

Reach-Inv_example : Inv 2 dropped
Reach-Inv_example = Reach-Inv 2 dropped (omega arith) dropped-Reach

check-unused_example :
    ((step (checks "s1" 1) dropped).closing ≡ dropped.closing)
    ⊎ (streams_of "s1" dropped.streams ≡ 0)
check-unused_example = check-unused 2 dropped "s1" 1 (omega arith) dropped-Reach
