-- ===== src/Examples/Hardware.antt =====
-- A small machine on which an enclave is made, filled and entered, by traps that are each of the
-- program that its core runs.
use security_monitor.Prelude.{ℕ, ◌≡◌, refl, true, [], ◌==◌, if◌then◌else◌, fill}
use security_monitor.Types.{CoreState, Machine}
use security_monitor.Call.{machine, pure, ◌>>=◌, ◌>>◌, modify, check_after, leave}
use security_monitor.Locks.{lock_region, lock_core, lock_untrusted_state, add_lock_region}
use security_monitor.Crypto.{plain}
use security_monitor.Address.{
  addr_to_region_id, region_id_to_addr, is_page_aligned, addr_to_region_page_id,
}
use security_monitor.Metadata.{
  enclave_metadata_pages, unlock_unless_ok, add_lock_region_iff, pages_free,
  add_lock_region_iff_valid_metadata, add_lock_region_iff_free_metadata_pages,
  lock_enclave_unless_untrusted,
}
use security_monitor.Platform.{
  region_is_accessible, bitmap_below, regions_to_bitmap, platform_update_memory_protection,
  platform_update_untrusted_regions, platform_update_enclave_regions,
}
use security_monitor.Region.{
  remove_region, block_commit, region_block, add_region, assign_commit, region_assign, check_cores,
  region_free, erase_region, metadata_create_commit, region_metadata_create, region_owner,
  region_owner_lock_free, region_update,
}
use security_monitor.Enclave.{create_commit, enclave_create, initialize, init_commit, enclave_init}
use security_monitor.Thread.{load_commit, thread_load}
use security_monitor.Init.{region_doesnt_include_sm, sm_init, initialize_memory_protection}
use security_monitor.Enclave.Load.{
  Image, table_owned, walk, load_root, load_page_table_entry, page_table_commit,
  enclave_load_page_table, page_commit, enclave_load_page, handler_commit, enclave_load_handler,
}
use security_monitor.Enclave.Switch.{enter_commit, enclave_enter}
use security_monitor.Dispatch.{call_from_untrusted, ecall_from_s_trap, take_trap, from_untrusted}
use security_monitor.Isolation.Hardware.Traps.{boot}
use security_monitor.Examples.Sample.{zero_machine, or_same}

abbrev image : Image
image = record {
  handler_words = λ _. 0;
  handler_bytes = [];
  size_handler = 8;
  trap_vector_from_untrusted = 0;
  stack_ptr = 0;
}

abbrev call_regs : ℕ → ℕ → ℕ → ℕ → ℕ → ℕ → CoreState
call_regs number a0 a1 a2 a3 a4 i =
    if i == 17
    then number
    else if i == 10
    then a0
    else if i == 11
    then a1
    else if i == 12
    then a2
    else if i == 13
    then a3
    else if i == 14
    then a4
    else 0

abbrev take : ℕ → ℕ → ℕ → ℕ → ℕ → ℕ → ℕ → Machine → Machine
take core number a0 a1 a2 a3 a4 m =
    or_same m
      (take_trap plain image true core 0 (from_untrusted (call_regs number a0 a1 a2 a3 a4)) m)

abbrev new_enclave : ℕ
new_enclave = 0x8A003000

abbrev new_thread : ℕ
new_thread = 0x8A010000

-- Core 0 turns the region 5 into one of metadata; core 1 gives it up by an update of its bitmaps.
abbrev kept_metadata : Machine
kept_metadata =
    take 0 1035 5 0 0 0 0
      (take 0 1034 5 0 0 0 0 (take 1 1033 0 0 0 0 0 (take 0 1031 5 0 0 0 0 (boot 0 zero_machine))))

-- An enclave is made in it, and is given the region 6.
abbrev given : Machine
given = take 0 1030 6 new_enclave 0 0 0 (
    take 0 1034 6 0 0 0 0 (
      take 1 1033 0 0 0 0 0
        (take 0 1031 6 0 0 0 0 (take 0 1000 new_enclave 0 0 1 0 kept_metadata))))

-- Its handler, its page tables, a page and a thread are loaded, and it is closed.
abbrev filled : Machine
filled = take 0 1004 new_enclave 0 0 0 0 (
    take 0 1051 new_enclave new_thread 0 0 1000 (
      take 0 1007 new_enclave 0x8C103000 0 0x90000000 3 (
        take 0 1006 new_enclave 0x8C102000 0 1 1 (
          take 0 1006 new_enclave 0x8C101000 0 2 1 (
            take 0 1006 new_enclave 0x8C100000 0 3 1
              (take 0 1005 new_enclave 0x8C000000 0 0 0 given))))))

-- Core 1 enters it.
abbrev entered : Machine
entered = take 1 1002 new_enclave new_thread 0 0 0 filled

opened : region_is_accessible (entered.csrs 1).memrbm 6 ≡ true
unfolding sm_init initialize_memory_protection ecall_from_s_trap call_from_untrusted region_block
    region_update region_free region_assign region_metadata_create ◌>>=◌ ◌>>◌ check_after machine
    add_lock_region_iff_free_metadata_pages add_lock_region_iff_valid_metadata is_page_aligned
    addr_to_region_id addr_to_region_page_id enclave_metadata_pages add_lock_region_iff
    region_doesnt_include_sm lock_enclave_unless_untrusted pure modify leave block_commit
    region_is_accessible regions_to_bitmap lock_region lock_core lock_untrusted_state
    add_lock_region unlock_unless_ok platform_update_memory_protection assign_commit remove_region
    add_region check_cores platform_update_untrusted_regions platform_update_enclave_regions
    bitmap_below region_id_to_addr pages_free metadata_create_commit erase_region create_commit
    enclave_create enclave_load_handler handler_commit enclave_load_page_table enclave_load_page
    thread_load load_commit enclave_init init_commit enclave_enter enter_commit region_owner
    load_page_table_entry walk load_root table_owned region_owner_lock_free page_table_commit
    page_commit initialize fill
opened = refl
