-- ===== src/Examples.antt =====
-- Runs of the model on small machines, which the theorems apply to.
mod Sample
mod Enclaves
mod Traps
mod Hardware
mod Library
mod Kernels
mod Caches
mod Measures
mod Printing
use security_monitor.System.{here, later}
use security_monitor.Cache.Lines.{flush_llc_region}
use security_monitor.Prelude.{ℕ, ◌<◌, ◌≡◌, refl, ap, ◌∙◌, ◌≢◌, true, false, ◌++◌, arith}
use security_monitor.Types.{
  num_cores, Machine, monitor_ok, free, blocked, page_data_loaded, initialized,
}
use security_monitor.Address.{addr_to_region_id, is_page_aligned, addr_to_region_page_id}
use security_monitor.Call.{after, returned}
use security_monitor.Platform.{
  region_is_accessible, platform_update_memory_protection, platform_update_enclave_regions,
}
use security_monitor.Region.{
  region_block, add_region, assign_commit, region_assign, free_commit, region_free,
}
use security_monitor.Metadata.Steps.{lock_status, metadata_status, owner_status}
use security_monitor.Region.Block.{block_spec, region_block-eq-spec}
use security_monitor.Region.Assign.{assign_spec, region_assign-eq-spec}
use security_monitor.Region.Free.{reaches, free_spec, region_free-eq-spec}
use security_monitor.Region.Ownership.{Consistent, call, assign}
use security_monitor.Region.Access.{region_free-unreachable}
use security_monitor.Examples.Sample.{sample_enclave, sample}

first_core : 0 < num_cores
first_core = omega arith

-- The table of regions.
sample-Consistent : (e i : ℕ) → Consistent (sample page_data_loaded) e i
sample-Consistent e i = ground arith

abbrev ready : Machine
ready = sample initialized

abbrev after_block : Machine
after_block = after ready (region_block 0 5 ready)

region_block-eq-spec_example : region_block 0 5 ready ≡ block_spec 0 5 ready
region_block-eq-spec_example = region_block-eq-spec 0 5 ready first_core

free_spec_run : free_spec 3 ready ≡ returned monitor_ok (free_commit 3 ready)
unfolding free_spec region_is_accessible
free_spec_run = refl

region_free_run : region_free 3 ready ≡ returned monitor_ok (free_commit 3 ready)
region_free_run = region_free-eq-spec 3 ready ∙ free_spec_run

region_free-unreachable_example :
    ((ready.sm.regions 3).state ≡ blocked)
    × ((c : ℕ) → c < num_cores → reaches ready 3 c ≡ false)
    × (((free_commit 3 ready).sm.regions 3).state ≡ free)
    × ((free_commit 3 ready).llc_loads
        ≡ ready.llc_loads ++ flush_llc_region (ready.sm.llc_partitions 3) 3)
    × ((j : ℕ) → j ≢ 3 → (free_commit 3 ready).sm.regions j ≡ ready.sm.regions j)
region_free-unreachable_example =
    region_free-unreachable 3 ready (free_commit 3 ready) region_free_run

region_free-eq-spec_example : region_free 3 ready ≡ free_spec 3 ready
region_free-eq-spec_example = region_free-eq-spec 3 ready

region_assign-eq-spec_example :
    region_assign 0 4 sample_enclave ready ≡ assign_spec 0 4 sample_enclave ready
region_assign-eq-spec_example = region_assign-eq-spec 0 4 sample_enclave ready first_core

-- The free region 4 is assigned to the enclave.
abbrev assigned : Machine
assigned = after ready (call (assign 0 4 sample_enclave) ready)

assign_spec_run :
    assign_spec 0 4 sample_enclave ready
    ≡ returned monitor_ok (assign_commit 0 4 sample_enclave ready)
unfolding assign_spec owner_status metadata_status lock_status addr_to_region_id
    addr_to_region_page_id is_page_aligned
assign_spec_run = refl

assigned_lem : assigned ≡ assign_commit 0 4 sample_enclave ready
assigned_lem =
    ap (after ready) (region_assign-eq-spec 0 4 sample_enclave ready first_core ∙ assign_spec_run)

assign_commit-flag :
    ((assign_commit 0 4 sample_enclave ready).enclaves sample_enclave).regions 4 ≡ true
unfolding assign_commit add_region platform_update_enclave_regions platform_update_memory_protection
assign_commit-flag = refl

assigned-flag : (assigned.enclaves sample_enclave).regions 4 ≡ true
assigned-flag = rw assigned_lem assign_commit-flag
