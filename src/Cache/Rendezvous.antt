-- ===== src/Cache/Rendezvous.antt =====
-- The rendezvous of the cores before the last level cache is touched: the leader's side in
-- src/api/region_flush.c and region_cache_partitionning.c, the others' in
-- src/common/handle_llc_changes.c. Each move is one section under the lock of `llc_sync`.
use security_monitor.Prelude.{◌+◌, true, false, List, [], ◌∷◌, ltb, if◌then◌else◌}
use security_monitor.Types.{num_cores, LlcSync}

-- Where a core is: out of the rendezvous, leading it (waiting for the others, working on the cache,
-- waiting for the others to leave, about to release it), or stopped by it.
pub data Pc : Type 0 where
  idle : Pc
  gathering working collecting releasing : Pc
  stopped : Pc

-- A call that needs the cores, the interrupt that calls `handle_llc_changes`, and going on.
pub data Action : Type 0 where
  start answer go : Action

-- The section that finds nobody busy and starts a round.
abbrev pub start_sync : LlcSync → LlcSync
start_sync s = record s { waiting = 1; wait = true; left = 0; busy = true }

-- The section after the work.
abbrev pub clean_sync : LlcSync → LlcSync
clean_sync s = record s { waiting = 0; wait = false; left = 1 }

-- `waiting` and `left` are `int`s that stay small, as `Cache.Alone` bounds `waiting`.
unfoldable pub move : Action → LlcSync → Pc → LlcSync × Pc
move start s idle = if s.busy then (s, idle) else (start_sync s, gathering)
move answer s idle = if s.busy then (record s { waiting = s.waiting + 1 }, stopped) else (s, idle)
move go s gathering = if ltb s.waiting num_cores then (s, gathering) else (s, working)
move go s working = (clean_sync s, collecting)
move go s collecting = if ltb s.left num_cores then (s, collecting) else (s, releasing)
move go s releasing = (record s { busy = false }, idle)
move go s stopped = if s.wait then (s, stopped) else (record s { left = s.left + 1 }, idle)
move _ s p = (s, p)

-- The two cores, and what they share.
pub record Cores : Type 0 where
  pub sync : LlcSync
  pub first : Pc
  pub second : Pc

-- Which core moves, and how.
pub data Turn : Type 0 where
  by_first by_second : Action → Turn

unfoldable pub turn : Turn → Cores → Cores
unfolding move
turn (by_first a) c =
    let r = move a c.sync c.first in record { sync = r.0; first = r.1; second = c.second }
turn (by_second a) c =
    let r = move a c.sync c.second in record { sync = r.0; first = c.first; second = r.1 }

unfoldable pub turns : List Turn → Cores → Cores
unfolding turn
turns [] c = c
turns (t ∷ ts) c = turns ts (turn t c)

abbrev pub all_idle : LlcSync → Cores
all_idle s = record { sync = s; first = idle; second = idle }
