-- ===== src/Address.antt =====
-- The address arithmetic of src/sm.h, on 64-bit addresses.
use security_monitor.Prelude.{ℕ, ◌+◌, ◌-◌, ◌*◌, ◌/◌, ◌%◌, Bool, ltb, ◌==◌}
use security_monitor.Types.{
  word_mod, page_size, region_size, ram_base, num_regions, num_region_pages,
}

-- The subtraction wraps, so an address below the RAM gives a number beyond the regions.
unfoldable pub addr_to_region_id : ℕ → ℕ
addr_to_region_id addr = ((addr + word_mod - ram_base) % word_mod) / region_size

unfoldable pub region_id_to_addr : ℕ → ℕ
region_id_to_addr region_id = (ram_base + region_id * region_size) % word_mod

abbrev pub is_valid_region_id : ℕ → Bool
is_valid_region_id region_id = ltb region_id num_regions

unfoldable pub is_page_aligned : ℕ → Bool
is_page_aligned addr = addr % page_size == 0

unfoldable pub addr_to_region_page_id : ℕ → ℕ
addr_to_region_page_id addr = (((addr + word_mod - ram_base) % word_mod) % region_size) / page_size

abbrev pub is_valid_page_id_in_region : ℕ → Bool
is_valid_page_id_in_region page_id = ltb page_id num_region_pages
