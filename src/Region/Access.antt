-- ===== src/Region/Access.antt =====
-- What the hardware is told: a core that gives up a region loses it at once, and a region is freed
-- only when no core reaches it.
use security_monitor.Cache.Lines.{flush_llc_region}
use security_monitor.Prelude.{
  ℕ, zero, suc, ◌<◌, ◌≡◌, refl, sym, ◌∙◌, ◌≢◌, Bool, false, ◌||◌, ◌++◌, arith, ◌==◌, if◌then◌else◌,
  update,
}
use security_monitor.Types.{
  num_regions, num_cores, owner_untrusted, owner_sm, SmCore, Machine, monitor_ok, free, owned,
  blocked, sm_region,
}
use security_monitor.Call.{returned}
use security_monitor.Platform.{region_is_accessible, regions_to_bitmap, set_enclave}
use security_monitor.Region.{block_commit, free_commit, region_free}
use security_monitor.Region.Block.{block_spec}
use security_monitor.Region.Free.{reaches, free_spec, region_free-eq-spec}

core_reach : ℕ → SmCore → Bool
core_reach i k = region_is_accessible k.mmrbm i || region_is_accessible k.memrbm i

-- The core's entry after `platform_update_memory_protection`.
updated : ℕ → Machine → SmCore
updated core m = record (m.sm.cores core) {
  mmrbm = regions_to_bitmap m.sm.untrusted_regions;
  memrbm =
      if (m.sm.cores core).owner == owner_untrusted
      then 0
      else regions_to_bitmap (m.enclaves (m.sm.cores core).owner).regions;
}

free_spec-ok :
    (i : ℕ) (m n : Machine)
    → free_spec i m ≡ returned monitor_ok n
    → ((m.sm.regions i).state ≡ blocked)
      × (reaches m i 0 ≡ false)
      × (reaches m i 1 ≡ false)
      × (n ≡ free_commit i m)
unfolding free_spec
free_spec-ok i m n e = ground arith

-- A region that is freed was blocked, no core's bitmaps held it, the lines of its slice have been loaded, and no other region changes.
pub region_free-unreachable :
    (i : ℕ) (m n : Machine)
    → region_free i m ≡ returned monitor_ok n
    → ((m.sm.regions i).state ≡ blocked)
      × ((c : ℕ) → c < num_cores → reaches m i c ≡ false)
      × ((n.sm.regions i).state ≡ free)
      × (n.llc_loads ≡ m.llc_loads ++ flush_llc_region (m.sm.llc_partitions i) i)
      × ((j : ℕ) → j ≢ i → n.sm.regions j ≡ m.sm.regions j)
region_free-unreachable i m n e =
    let (was, r0, r1, eq) = free_spec-ok i m n (sym (region_free-eq-spec i m) ∙ e) in
    (was, both r0 r1, rw eq (ground arith), rw eq refl, λ j h. rw eq (ground arith))
  where
    both :
        reaches m i 0 ≡ false
        → reaches m i 1 ≡ false
        → (c : ℕ) → c < num_cores
        → reaches m i c ≡ false
    both r0 r1 zero h = r0
    both r0 r1 (suc zero) h = r1
    both r0 r1 (suc (suc c)) h = absurd (omega arith)

pub block_spec-ok :
    (core i : ℕ) (m n : Machine)
    → block_spec core i m ≡ returned monitor_ok n
    → (i < num_regions)
      × ((m.sm.regions i).type ≢ sm_region)
      × ((m.sm.regions i).state ≡ owned)
      × ((m.sm.regions i).owner ≡ (m.sm.cores core).owner)
      × ((m.sm.regions i).owner ≢ owner_sm)
      × (n ≡ block_commit core i m)
unfolding block_spec
block_spec-ok core i m n e = ground arith

abbrev without_untrusted : ℕ → Machine → Machine
without_untrusted i m = record m {
  sm = record m.sm { untrusted_regions = update m.sm.untrusted_regions i false };
}

abbrev without_enclave : ℕ → ℕ → Machine → Machine
without_enclave o i m =
    set_enclave o (record (m.enclaves o) { regions = update (m.enclaves o).regions i false }) m
