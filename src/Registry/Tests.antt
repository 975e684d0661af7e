-- ===== src/Registry/Tests.antt =====
-- The registry's theorems at concrete calls.
use imaged.Base.{◌≡◌, refl, arith, some, none, inr, [], ◌∷◌, List, drop, ℕ, length}
use imaged.Base.Assoc.{has}
use imaged.Registry.{
  HostRegistry, Call, registers, cleans_up, initial, broadcast, register, dispatch, run,
  connected_hosts,
}
use imaged.Registry.Stale.{dispatch-run}
use imaged.Registry.Feed.{
  ConnectionChange, ConnectionFeed, lagged, watch, next, use_connection, on_change, on_events,
  use_connection-run, next-lagged,
}

-- Host 7 has connected once.
abbrev once : HostRegistry ℕ
once = register 7 1 initial

-- Its first connection is dropped, and another host connects.
abbrev later : List (Call ℕ)
later = cleans_up 7 0 ∷ registers 8 3 ∷ []

dispatch-run_example : dispatch 7 (run later (register 7 2 once)) ≡ some 2
unfolding register broadcast initial
dispatch-run_example = dispatch-run 7 2 once later (inr (omega arith), (omega arith, tt))

use_connection-run_example :
    use_connection 7 (
      on_events
        (drop (watch once).updates (run later once).sent)
        (on_change (ConnectionChange.connected (connected_hosts once)) []))
    ≡ has 7 (run later once).hosts.map
use_connection-run_example = use_connection-run later once [] 7

abbrev behind : ConnectionFeed
behind = record { updates = 0; connected = none }

next-lagged_example :
    (c : ConnectionChange) × ((next lagged once behind).0 ≡ some c)
    × (use_connection 7 (on_change c []) ≡ has 7 once.hosts.map)
    × ((next lagged once behind).1 ≡ record { updates = length once.sent; connected = none })
next-lagged_example = next-lagged once behind [] 7 refl
