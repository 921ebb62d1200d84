-- ===== src/Examples/Caches.antt =====
-- Runs of the rendezvous and of the calls on the last level cache.
use security_monitor.Prelude.{
  ◌*◌, ◌^◌, ◌≡◌, refl, ◌⊎◌, true, false, ◌&&◌, List, [], ◌∷◌, arith, ◌==◌, if◌then◌else◌,
}
use security_monitor.Types.{owner_untrusted, LlcSync, Machine}
use security_monitor.Cache.Lines.{llc_num_ways, flush_llc_region}
use security_monitor.Cache.{region_flush, Scan, region_cache_partitioning}
use security_monitor.Cache.Rendezvous.{
  Turn, turns, all_idle, working, stopped, start, answer, go, by_first, by_second,
}
use security_monitor.Cache.Alone.{leads, turns_alone}
use security_monitor.Cache.Progress.{Stale, Rested, turns_finish, turns_deadlock}
use security_monitor.Cache.Flush.{lines_from, flush_llc_region-lines}
use security_monitor.Cache.Flushed.{flush_spec, region_flush-eq-spec}
use security_monitor.Cache.Partition.{partition_spec, region_cache_partitioning-eq-spec}
use security_monitor.Cache.Partitioned.{Partitioned}
use security_monitor.Examples.Sample.{zero_machine}

abbrev quiet : LlcSync
quiet = record { waiting = 0; wait = false; left = 0; busy = false; lock = false }

-- A round up to the work.
abbrev gathered : List Turn
gathered = by_first start ∷ by_second answer ∷ by_first go ∷ []

turns_alone_example :
    ((turns gathered (all_idle quiet)).first ≡ working
      → (turns gathered (all_idle quiet)).second ≡ stopped)
    × ((turns gathered (all_idle quiet)).second ≡ working
        → (turns gathered (all_idle quiet)).first ≡ stopped)
    × ((leads (turns gathered (all_idle quiet)).first
          && leads (turns gathered (all_idle quiet)).second)
        ≡ false)
turns_alone_example = turns_alone gathered quiet refl refl

gathered-leads : leads (turns gathered (all_idle quiet)).first ≡ true
unfolding turns
gathered-leads = refl

turns_finish_example :
    Stale (turns gathered (all_idle quiet))
    ⊎ ((us : List Turn) × Rested (turns us (turns gathered (all_idle quiet))))
turns_finish_example = turns_finish gathered quiet refl refl gathered-leads

-- The second core answers another interrupt after it has left, and before the first has released.
abbrev answered_twice : List Turn
answered_twice =
    by_first start
    ∷ by_second answer
    ∷ by_first go
    ∷ by_first go
    ∷ by_second go
    ∷ by_second answer
    ∷ by_first go
    ∷ by_first go
    ∷ by_first start
    ∷ []

twice-Stale : Stale (turns answered_twice (all_idle quiet))
unfolding turns
twice-Stale = record { first_gathers = refl; second_stopped = refl; uncounted = refl }

turns_deadlock_example :
    turns (by_first go ∷ by_second go ∷ []) (turns answered_twice (all_idle quiet))
    ≡ turns answered_twice (all_idle quiet)
turns_deadlock_example =
    turns_deadlock answered_twice (by_first go ∷ by_second go ∷ []) quiet refl refl twice-Stale

flush_llc_region-lines_example : flush_llc_region 2 5 ≡ lines_from 5 0 (2 ^ 2 * llc_num_ways)
flush_llc_region-lines_example = flush_llc_region-lines 2 5 (omega arith) (omega arith)

region_flush-eq-spec_example : region_flush 64 zero_machine ≡ flush_spec 64 zero_machine
region_flush-eq-spec_example = region_flush-eq-spec 64 zero_machine

-- The region 63 gets twice its slice.
abbrev doubling : Machine
doubling = record zero_machine {
  sm = record zero_machine.sm {
    cores = λ _. record {
      owner = owner_untrusted;
      thread = 0;
      hls_ptr = 0;
      mmrbm = 0;
      memrbm = 0;
      lock = false;
    };
  };
  user = λ a. if a == 63 then 1 else 0;
}

abbrev scanned : Scan
scanned = record { sum = 65; found_first_mod = true; idx_first_mod = 63; bases = λ i. i }

region_cache_partitioning-eq-spec_example :
    region_cache_partitioning 0 doubling ≡ partition_spec 0 doubling
region_cache_partitioning-eq-spec_example = region_cache_partitioning-eq-spec 0 doubling
