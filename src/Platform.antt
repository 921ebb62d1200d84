-- ===== src/Platform.antt =====
-- platform/: the bitmaps of regions and the registers that hold them, and what entering and leaving
-- an enclave saves and restores.
pub mod Apart
pub mod Bitmap
use security_monitor.Prelude.{
  ℕ, zero, suc, ◌/◌, ◌%◌, ◌^◌, bit_or, Bool, ◌==◌, if◌then◌else◌, update,
}
use security_monitor.Types.{
  num_regions, owner_untrusted, RegionMap, EnclaveMetadata, ThreadMetadata, Csrs, Machine,
}
use security_monitor.Locks.{set_core}

-- `1ul << region_id`, for a number of a region.
abbrev pub region_mask : ℕ → ℕ
region_mask region_id = 2 ^ region_id

-- `(mrbm & (1ul << region_id)) != 0`.
unfoldable pub region_is_accessible : ℕ → ℕ → Bool
region_is_accessible mrbm region_id = mrbm / region_mask region_id % 2 == 1

-- The loop of `regions_to_bitmap`, the region `n - 1` last. `bitmap |= mask` sets a bit that is
-- clear, so it adds.
unfoldable pub bitmap_below : RegionMap → ℕ → ℕ
bitmap_below flags zero = 0
bitmap_below flags (suc n) =
    let bitmap = bitmap_below flags n in if flags n then bit_or bitmap (region_mask n) else bitmap

unfoldable pub regions_to_bitmap : RegionMap → ℕ
unfolding bitmap_below
regions_to_bitmap flags = bitmap_below flags num_regions

unfoldable pub bitmap_to_regions : ℕ → RegionMap
unfolding region_is_accessible
bitmap_to_regions bitmap i = region_is_accessible bitmap i

abbrev pub put_csrs : ℕ → Csrs → Machine → Machine
put_csrs core c m = record m { csrs = update m.csrs core c }

unfoldable pub platform_update_memory_protection : ℕ → Machine → Machine
platform_update_memory_protection core m =
    let c = m.sm.cores core in
    let mmrbm = regions_to_bitmap m.sm.untrusted_regions in
    let memrbm : ℕ =
      if c.owner == owner_untrusted then 0 else regions_to_bitmap (m.enclaves c.owner).regions in
    put_csrs core (record (m.csrs core) { mmrbm = mmrbm; memrbm = memrbm })
      (set_core core (record c { memrbm = memrbm; mmrbm = mmrbm }) m)

unfoldable pub platform_update_untrusted_regions : ℕ → ℕ → Bool → Machine → Machine
unfolding platform_update_memory_protection
platform_update_untrusted_regions core i flag m =
    platform_update_memory_protection core
      (record m { sm = record m.sm { untrusted_regions = update m.sm.untrusted_regions i flag } })

abbrev pub set_enclave : ℕ → EnclaveMetadata → Machine → Machine
set_enclave e d m = record m { enclaves = update m.enclaves e d }

abbrev pub set_thread : ℕ → ThreadMetadata → Machine → Machine
set_thread t d m = record m { threads = update m.threads t d }

unfoldable pub platform_update_enclave_regions : ℕ → ℕ → ℕ → Bool → Machine → Machine
unfolding platform_update_memory_protection
platform_update_enclave_regions core e i flag m =
    let d = m.enclaves e in
    platform_update_memory_protection core
      (set_enclave e (record d { regions = update d.regions i flag }) m)
