-- ===== src/Metadata.antt =====
-- src/common/lock_region_iff_*.c and the metadata helpers of src/sm.h: a pointer from outside is
-- taken for a structure only after the page map of its region says so, with the region locked.
pub mod Sizes
pub mod Steps
use security_monitor.Prelude.{
  ℕ, zero, suc, ◌+◌, ◌-◌, ◌*◌, ◌/◌, ◌%◌, Bool, true, false, not, ◌&&◌, ◌==◌, if◌then◌else◌,
}
use security_monitor.Types.{
  word_mod, page_size, num_region_pages, owner_untrusted, ApiResult, RegionState, RegionType,
  MetadataPage, Machine, monitor_ok, invalid_value, invalid_state, concurrent_call, owned,
  metadata_region, page_invalid, page_free, page_enclave, page_thread,
}
use security_monitor.Address.{
  addr_to_region_id, is_valid_region_id, is_page_aligned, addr_to_region_page_id,
  is_valid_page_id_in_region,
}
use security_monitor.Call.{machine, M, pure, ◌>>=◌, ◌>>◌, next}
use security_monitor.Locks.{unlock_region, add_lock_region}

-- Sizes of the structures by the RV64 ABI.
abbrev pub sizeof_thread_metadata : ℕ
sizeof_thread_metadata = 912

abbrev pub sizeof_enclave_metadata : ℕ
sizeof_enclave_metadata = 592

abbrev pub sizeof_mailbox : ℕ
sizeof_mailbox = 336

abbrev pub thread_metadata_pages : ℕ
thread_metadata_pages = (sizeof_thread_metadata + (page_size - 1)) / page_size

-- The product and the sums wrap at 64 bits.
unfoldable pub enclave_metadata_pages : ℕ → ℕ
enclave_metadata_pages num_mailboxes =
    let enclave_size = (sizeof_enclave_metadata + num_mailboxes * sizeof_mailbox) % word_mod in
    ((enclave_size + (page_size - 1)) % word_mod) / page_size

abbrev pub metadata_start_page : ℕ
metadata_start_page = 1 + (num_region_pages + page_size - 1) / page_size

abbrev pub page_eq : MetadataPage → MetadataPage → Bool
page_eq page_invalid page_invalid = true
page_eq page_free page_free = true
page_eq page_enclave page_enclave = true
page_eq page_thread page_thread = true
page_eq _ _ = false

abbrev pub is_metadata : RegionType → Bool
is_metadata metadata_region = true
is_metadata _ = false

abbrev pub is_owned : RegionState → Bool
is_owned owned = true
is_owned _ = false

abbrev pub is_ok : ApiResult → Bool
is_ok monitor_ok = true
is_ok _ = false

-- The last three checks of both functions, on a region that is locked.
abbrev pub region_status : Machine → ℕ → Bool → ApiResult
region_status m region_id pages_ok =
    if not (is_metadata (m.sm.regions region_id).type)
    then invalid_state
    else if not (is_owned (m.sm.regions region_id).state)
    then invalid_state
    else if not pages_ok
    then invalid_state
    else monitor_ok

-- Their early returns: `if (not_previously_locked) unlock_region(region_id);`, where the variable of
-- that name holds the old flag.
unfoldable pub unlock_unless_ok : {R : Type 0} → Bool → ℕ → ApiResult → M R ApiResult
unlock_unless_ok not_previously_locked region_id status f = next status (
    if not (is_ok status) && not_previously_locked
    then record f { machine = unlock_region region_id f.machine }
    else f)

-- What the two functions share, from `not_previously_locked` on.
unfoldable pub add_lock_region_iff :
    {R : Type 0} → ℕ → ((ℕ → ℕ → MetadataPage) → Bool) → M R ApiResult
add_lock_region_iff region_id pages_ok f =
    let not_previously_locked = f.locked region_id in
    (do
      got ← add_lock_region region_id
      m ← machine
      if not got
          then pure concurrent_call
          else unlock_unless_ok not_previously_locked region_id
              (region_status m region_id (pages_ok m.page_info)))
      f

-- The first `n` pages from `page` on are free. The index is an `int`, which holds it: `n` is at
-- most the number of pages of a region here.
unfoldable pub pages_free : (ℕ → MetadataPage) → ℕ → ℕ → Bool
pages_free info page zero = true
pages_free info page (suc n) = pages_free info page n && page_eq (info (page + n)) page_free

unfoldable pub add_lock_region_iff_valid_metadata : {R : Type 0} → ℕ → MetadataPage → M R ApiResult
add_lock_region_iff_valid_metadata ptr metadata_type =
    let region_id = addr_to_region_id ptr in
    let page_id = addr_to_region_page_id ptr in
    if not (is_page_aligned ptr)
    then pure invalid_value
    else if not (is_valid_region_id region_id)
    then pure invalid_value
    else add_lock_region_iff region_id (λ info. page_eq (info region_id page_id) metadata_type)

abbrev pub add_lock_region_iff_valid_enclave : {R : Type 0} → ℕ → M R ApiResult
add_lock_region_iff_valid_enclave ptr = add_lock_region_iff_valid_metadata ptr page_enclave

abbrev pub add_lock_region_iff_valid_thread : {R : Type 0} → ℕ → M R ApiResult
add_lock_region_iff_valid_thread ptr = add_lock_region_iff_valid_metadata ptr page_thread

unfoldable pub add_lock_region_iff_free_metadata_pages : {R : Type 0} → ℕ → ℕ → M R ApiResult
add_lock_region_iff_free_metadata_pages ptr num_pages =
    let region_id = addr_to_region_id ptr in
    let page_id = addr_to_region_page_id ptr in
    if not (is_page_aligned ptr)
    then pure invalid_value
    else if not (is_valid_region_id region_id)
    then pure invalid_value
    else if not (is_valid_page_id_in_region ((page_id + num_pages + word_mod - 1) % word_mod))
    then pure invalid_value
    else add_lock_region_iff region_id (λ info. pages_free (info region_id) page_id num_pages)

-- The callers that take `OWNER_UNTRUSTED` for an owner with no metadata to lock.
unfoldable pub lock_enclave_unless_untrusted : {R : Type 0} → ℕ → M R ApiResult
lock_enclave_unless_untrusted owner =
    if owner == owner_untrusted then pure monitor_ok else add_lock_region_iff_valid_enclave owner
