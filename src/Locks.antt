-- ===== src/Locks.antt =====
-- The synchronization helpers of src/sm.h and platform/platform_lock.h: a lock that is held refuses.
pub mod Loop
pub mod Held
pub mod Steps
pub mod Commit
use security_monitor.Prelude.{ℕ, Bool, true, false, not, ◌&&◌, ltb, if◌then◌else◌, update}
use security_monitor.Types.{num_regions, num_cores, RegionMap, SmCore, SmRegion, Machine}
use security_monitor.Address.{is_valid_region_id}
use security_monitor.Call.{machine, M, ◌>>=◌, ◌>>◌, next, fault}

abbrev pub set_region : ℕ → SmRegion → Machine → Machine
set_region i r m = record m { sm = record m.sm { regions = update m.sm.regions i r } }

abbrev pub set_core : ℕ → SmCore → Machine → Machine
set_core i c m = record m { sm = record m.sm { cores = update m.sm.cores i c } }

abbrev pub region_lock : Machine → ℕ → Bool
region_lock m i = (m.sm.regions i).lock

abbrev pub core_lock : Machine → ℕ → Bool
core_lock m i = (m.sm.cores i).lock

abbrev pub untrusted_lock : Machine → Bool
untrusted_lock m = m.sm.untrusted_state_lock

abbrev pub put_region_lock : ℕ → Bool → Machine → Machine
put_region_lock i b m = set_region i (record (m.sm.regions i) { lock = b }) m

abbrev pub put_core_lock : ℕ → Bool → Machine → Machine
put_core_lock i b m = set_core i (record (m.sm.cores i) { lock = b }) m

abbrev pub put_untrusted_lock : Bool → Machine → Machine
put_untrusted_lock b m = record m { sm = record m.sm { untrusted_state_lock = b } }

-- `amoswap` writes 1 in any case, so a held lock stays held.
unfoldable pub lock_region : {R : Type 0} → ℕ → M R Bool
lock_region i f =
    if is_valid_region_id i
    then next (not (region_lock f.machine i))
        (record f { machine = put_region_lock i true f.machine })
    else fault

abbrev pub unlock_region : ℕ → Machine → Machine
unlock_region i m = put_region_lock i false m

unfoldable pub lock_core : {R : Type 0} → ℕ → M R Bool
lock_core i f =
    if ltb i num_cores
    then next (not (core_lock f.machine i)) (record f { machine = put_core_lock i true f.machine })
    else fault

abbrev pub unlock_core : ℕ → Machine → Machine
unlock_core i m = put_core_lock i false m

unfoldable pub lock_untrusted_state : {R : Type 0} → M R Bool
lock_untrusted_state f =
    next (not (untrusted_lock f.machine)) (record f { machine = put_untrusted_lock true f.machine })

abbrev pub unlock_untrusted_state : Machine → Machine
unlock_untrusted_state m = put_untrusted_lock false m

-- What `for (i = 0; i < n; i++) if (locked[i]) unlock_region(i);` leaves: `Locks.Loop` has the loop.
abbrev pub unlock_below : ℕ → RegionMap → Machine → Machine
unlock_below n locked m = record m {
  sm = record m.sm {
    regions = λ i.
        if ltb i n && locked i then record (m.sm.regions i) { lock = false } else m.sm.regions i;
  };
}

abbrev pub unlock_regions : Machine → RegionMap → Machine
unlock_regions m locked = unlock_below num_regions locked m

unfoldable pub add_lock_region : {R : Type 0} → ℕ → M R Bool
unfolding lock_region
add_lock_region i f =
    if is_valid_region_id i
    then (if f.locked i
        then next true f
        else (do
          got ← lock_region i
          λ g. next got (if got then record g { locked = update g.locked i true } else g))
            f)
    else fault

-- `locked_regions.flags[i] = true`
unfoldable pub mark_locked : {R : Type 0} → ℕ → M R (Unit {0})
mark_locked i f = next tt (record f { locked = update f.locked i true })
