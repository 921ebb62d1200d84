-- ===== src/Region.antt =====
-- src/api/region_*.c: a region is free, owned or blocked; its owner blocks it, the system frees it.
pub mod Block
pub mod Access
pub mod Ownership
pub mod Untouched
pub mod Free
pub mod Assign
use security_monitor.Prelude.{
  ℕ, zero, suc, Bool, true, false, not, ◌||◌, ltb, ◌==◌, if◌then◌else◌, update,
}
use security_monitor.Types.{
  num_region_pages, num_cores, owner_untrusted, owner_sm, ApiResult, code, RegionState,
  region_state_code, RegionType, MetadataPage, RegionMap, Machine, zero_enclave, zero_thread,
  monitor_ok, invalid_value, invalid_state, concurrent_call, access_denied, free, owned, blocked,
  sm_region, untrusted_region, enclave_region, metadata_region, page_invalid, page_free,
}
use security_monitor.Address.{addr_to_region_id, is_valid_region_id}
use security_monitor.Call.{
  machine, M, pure, ◌>>=◌, ◌>>◌, modify, check_after, check, Result, run, leave,
}
use security_monitor.Locks.{
  set_region, lock_region, unlock_region, lock_core, unlock_core, lock_untrusted_state,
  unlock_untrusted_state, unlock_regions, add_lock_region,
}
use security_monitor.Metadata.{
  metadata_start_page, is_owned, is_ok, add_lock_region_iff_valid_metadata,
  lock_enclave_unless_untrusted,
}
use security_monitor.Platform.{
  region_is_accessible, platform_update_memory_protection, platform_update_untrusted_regions,
  platform_update_enclave_regions,
}
use security_monitor.Cache.Lines.{flush}

abbrev pub is_free : RegionState → Bool
is_free free = true
is_free _ = false

abbrev pub is_blocked : RegionState → Bool
is_blocked blocked = true
is_blocked _ = false

abbrev pub is_sm : RegionType → Bool
is_sm sm_region = true
is_sm _ = false

abbrev pub unlock_core_untrusted_regions : ℕ → Machine → RegionMap → Machine
unlock_core_untrusted_regions core m locked =
    unlock_regions (unlock_untrusted_state (unlock_core core m)) locked

abbrev pub unlock_untrusted_regions : Machine → RegionMap → Machine
unlock_untrusted_regions m locked = unlock_regions (unlock_untrusted_state m) locked

abbrev pub set_owner : ℕ → ℕ → Machine → Machine
set_owner i owner m = set_region i (record (m.sm.regions i) { owner = owner }) m

abbrev pub set_state : ℕ → RegionState → Machine → Machine
set_state i state m = set_region i (record (m.sm.regions i) { state = state }) m

-- Strikes the region from the map of its former owner.
unfoldable pub remove_region : ℕ → ℕ → ℕ → Machine → Machine
remove_region core i former_owner =
    if former_owner == owner_untrusted
    then platform_update_untrusted_regions core i false
    else if former_owner == owner_sm
    then (λ m. m)
    else platform_update_enclave_regions core former_owner i false

unfoldable pub block_commit : ℕ → ℕ → Machine → Machine
unfolding remove_region
block_commit core i m =
    set_state i blocked (remove_region core i (m.sm.regions i).owner (set_owner i owner_sm m))

region_block_body : ℕ → ℕ → M ApiResult (Unit {0})
unfolding add_lock_region lock_untrusted_state lock_core add_lock_region_iff_valid_metadata
    platform_update_untrusted_regions platform_update_enclave_regions
region_block_body core i = do
  check (is_valid_region_id i) invalid_value
  m0 ← machine
  let caller = (m0.sm.cores core).owner
  got ← add_lock_region i
  check got concurrent_call
  m ← machine
  check_after (is_owned (m.sm.regions i).state) unlock_regions invalid_state
  check_after (not (is_sm (m.sm.regions i).type)) unlock_regions access_denied
  check_after ((m.sm.regions i).owner == caller) unlock_regions access_denied
  untrusted_locked ← lock_untrusted_state
  check_after untrusted_locked unlock_regions concurrent_call
  core_locked ← lock_core core
  check_after core_locked unlock_untrusted_regions concurrent_call
  check_after (not ((m.sm.regions i).owner == owner_sm)) (unlock_core_untrusted_regions core)
      access_denied
  result ← lock_enclave_unless_untrusted (m.sm.regions i).owner
  check_after (is_ok result) (unlock_core_untrusted_regions core) concurrent_call
  modify (block_commit core i)
  leave (unlock_core_untrusted_regions core)

unfoldable pub region_block : ℕ → ℕ → Machine → Result ApiResult
unfolding region_block_body
region_block core i = run (region_block_body core i) monitor_ok

-- Enters the region in the map of its new owner.
unfoldable pub add_region : ℕ → ℕ → ℕ → Machine → Machine
add_region core i new_owner =
    if new_owner == owner_untrusted
    then platform_update_untrusted_regions core i true
    else platform_update_enclave_regions core new_owner i true

unfoldable pub assign_commit : ℕ → ℕ → ℕ → Machine → Machine
unfolding add_region
assign_commit core i new_owner m = add_region core i new_owner (
    set_region i
      (record (m.sm.regions i) {
        owner = new_owner;
        type = if new_owner == owner_untrusted then untrusted_region else enclave_region;
        state = owned;
      })
      m)

-- The refusal of the new owner releases the regions only.
region_assign_body : ℕ → ℕ → ℕ → M ApiResult (Unit {0})
region_assign_body core i new_owner = do
  check (is_valid_region_id i) invalid_value
  got ← add_lock_region i
  check got concurrent_call
  m ← machine
  check_after (is_free (m.sm.regions i).state) unlock_regions invalid_state
  untrusted_locked ← lock_untrusted_state
  check_after untrusted_locked unlock_regions concurrent_call
  core_locked ← lock_core core
  check_after core_locked unlock_untrusted_regions concurrent_call
  result ← lock_enclave_unless_untrusted new_owner
  check_after (is_ok result) unlock_regions result
  modify (assign_commit core i new_owner)
  leave (unlock_core_untrusted_regions core)

unfoldable pub region_assign : ℕ → ℕ → ℕ → Machine → Result ApiResult
unfolding region_assign_body
region_assign core i new_owner = run (region_assign_body core i new_owner) monitor_ok

-- The loop over the cores, from the core `c` on, with `n` rounds left, and what follows it.
unfoldable pub check_cores : ℕ → ℕ → ℕ → M ApiResult (Unit {0}) → M ApiResult (Unit {0})
check_cores i c zero rest = rest
check_cores i c (suc n) rest = do
  got ← lock_core c
  check_after got unlock_regions concurrent_call
  m ← machine
  check_after
      (not (
        region_is_accessible (m.sm.cores c).mmrbm i
        || region_is_accessible (m.sm.cores c).memrbm i))
      (λ x l. unlock_regions (unlock_core c x) l) invalid_state
  modify (unlock_core c)
  check_cores i (suc c) n rest

-- The cache is flushed of the region before it is free.
abbrev pub free_commit : ℕ → Machine → Machine
free_commit i m = set_state i free (flush i m)

region_free_body : ℕ → M ApiResult (Unit {0})
unfolding check_cores
region_free_body i = do
  check (is_valid_region_id i) invalid_value
  got ← add_lock_region i
  check got concurrent_call
  m ← machine
  check_after (is_blocked (m.sm.regions i).state) unlock_regions invalid_state
  check_cores i 0 num_cores (do modify (free_commit i); leave unlock_regions)

unfoldable pub region_free : ℕ → Machine → Result ApiResult
unfolding region_free_body
region_free i = run (region_free_body i) monitor_ok

-- The caller's question, with the region's own lock taken and released by hand.
abbrev pub unlock_one : ℕ → Machine → RegionMap → Machine
unlock_one i m locked = unlock_region i m

region_check_owned_body : ℕ → ℕ → M ApiResult (Unit {0})
region_check_owned_body core i = do
  check (is_valid_region_id i) invalid_value
  got ← lock_region i
  check got concurrent_call
  m ← machine
  check_after (is_owned (m.sm.regions i).state) (unlock_one i) invalid_state
  check_after ((m.sm.regions i).owner == (m.sm.cores core).owner) (unlock_one i) access_denied
  leave (unlock_one i)

unfoldable pub region_check_owned : ℕ → ℕ → Machine → Result ApiResult
unfolding region_check_owned_body
region_check_owned core i = run (region_check_owned_body core i) monitor_ok

-- `memset(region_id_to_addr(i), 0, REGION_SIZE)`: every structure and word of the region is zero.
unfoldable pub erase_region : ℕ → Machine → Machine
erase_region i m = record m {
  enclaves = λ e. if addr_to_region_id e == i then zero_enclave else m.enclaves e;
  threads = λ t. if addr_to_region_id t == i then zero_thread else m.threads t;
  words = λ a. if addr_to_region_id a == i then 0 else m.words a;
  page_info = update m.page_info i (λ p. page_invalid);
}

-- `page_info[i] = (i < s) ? METADATA_PAGE_INVALID : METADATA_PAGE_FREE`
abbrev pub initial_pages : ℕ → MetadataPage
initial_pages p = if ltb p metadata_start_page then page_invalid else page_free

unfoldable pub metadata_create_commit : ℕ → Machine → Machine
unfolding erase_region
metadata_create_commit i m =
    let n = erase_region i m in
    set_region i
      (record (m.sm.regions i) { owner = owner_sm; type = metadata_region; state = owned })
      (record n { page_info = update n.page_info i initial_pages })

region_metadata_create_body : ℕ → M ApiResult (Unit {0})
region_metadata_create_body i = do
  check (is_valid_region_id i) invalid_value
  got ← lock_region i
  check got concurrent_call
  m ← machine
  check_after (is_free (m.sm.regions i).state) (unlock_one i) invalid_state
  modify (metadata_create_commit i)
  leave (unlock_one i)

unfoldable pub region_metadata_create : ℕ → Machine → Result ApiResult
unfolding region_metadata_create_body
region_metadata_create i = run (region_metadata_create_body i) monitor_ok

-- The owner, or the number of an error. `locked_regions` is no business of this function.
unfoldable pub region_owner : {R : Type 0} → ℕ → M R ℕ
region_owner i = if not (is_valid_region_id i) then pure (code invalid_value) else (do
  got ← lock_region i
  m ← machine
  if not got
      then pure (code concurrent_call)
      else (do modify (unlock_region i); pure (m.sm.regions i).owner))

unfoldable pub region_owner_lock_free : {R : Type 0} → ℕ → M R ℕ
region_owner_lock_free i =
    if not (is_valid_region_id i)
    then pure (code invalid_value)
    else (do m ← machine; pure (m.sm.regions i).owner)

-- The state of a region, or the number of an error.
unfoldable pub region_state : ℕ → M ℕ ℕ
region_state i = if not (is_valid_region_id i) then pure (code invalid_value) else (do
  got ← lock_region i
  m ← machine
  if not got
      then pure (code concurrent_call)
      else (do modify (unlock_region i); pure (region_state_code (m.sm.regions i).state)))

region_update_body : ℕ → M ApiResult (Unit {0})
region_update_body core = do
  untrusted_locked ← lock_untrusted_state
  check untrusted_locked concurrent_call
  core_locked ← lock_core core
  check_after core_locked (λ m l. unlock_untrusted_state m) concurrent_call
  modify (platform_update_memory_protection core)
  leave (λ m l. unlock_untrusted_state (unlock_core core m))

unfoldable pub region_update : ℕ → Machine → Result ApiResult
unfolding region_update_body
region_update core = run (region_update_body core) monitor_ok

abbrev pub region_metadata_pages : ℕ
region_metadata_pages = num_region_pages

abbrev pub region_metadata_start : ℕ
region_metadata_start = metadata_start_page
