-- ===== src/Thread.antt =====
-- src/api/thread_*.c: a thread's structure is made from free metadata pages and counted by its enclave.
pub mod Pages
pub mod Atomic
use security_monitor.Prelude.{ℕ, ◌+◌, ◌-◌, ◌%◌, Bool, true, false, not, update, fill}
use security_monitor.Types.{
  word_mod, ApiResult, MetadataPage, EnclaveInitState, Machine, zero_thread, monitor_ok,
  invalid_state, concurrent_call, page_invalid, page_free, page_thread, page_data_loaded,
}
use security_monitor.Address.{addr_to_region_id, addr_to_region_page_id}
use security_monitor.Call.{machine, M, ◌>>=◌, ◌>>◌, modify, check_after, check, Result, run, leave}
use security_monitor.Locks.{unlock_regions, add_lock_region}
use security_monitor.Metadata.{
  thread_metadata_pages, is_ok, add_lock_region_iff_valid_enclave, add_lock_region_iff_valid_thread,
  add_lock_region_iff_free_metadata_pages,
}
use security_monitor.Memory.{le_bytes}
use security_monitor.Crypto.{Crypto}

abbrev pub is_page_data_loaded : EnclaveInitState → Bool
is_page_data_loaded page_data_loaded = true
is_page_data_loaded _ = false

-- The first page is marked with the type of the structure, the others stay out of use.
abbrev pub claim_pages : ℕ → ℕ → MetadataPage → (ℕ → ℕ → MetadataPage) → ℕ → ℕ → MetadataPage
claim_pages ptr n ty info =
    let r = addr_to_region_id ptr in
    let p = addr_to_region_page_id ptr in
    update info r (fill (update (info r) p ty) (p + 1) (n - 1) page_invalid)

abbrev pub release_pages : ℕ → ℕ → (ℕ → ℕ → MetadataPage) → ℕ → ℕ → MetadataPage
release_pages ptr n info =
    let r = addr_to_region_id ptr in
    update info r (fill (info r) (addr_to_region_page_id ptr) n page_free)

module _ (c : Crypto) where
  open c use {hash_extend}

  unfoldable pub load_commit : ℕ → ℕ → ℕ → ℕ → ℕ → Machine → Machine
  load_commit enclave_id thread_id entry_pc entry_stack timer_limit m =
      let d = m.enclaves enclave_id in
      let h0 = hash_extend d.hash_context (le_bytes 8 entry_pc) in
      let h1 = hash_extend h0 (le_bytes 8 entry_stack) in
      let h2 = hash_extend h1 (le_bytes 8 timer_limit) in
      record m {
        page_info = claim_pages thread_id thread_metadata_pages page_thread m.page_info;
        threads = update m.threads thread_id (record (m.threads thread_id) {
          owner = enclave_id;
          entry_pc = entry_pc;
          entry_sp = entry_stack;
          timer_limit = timer_limit;
        });
        enclaves =
            update m.enclaves enclave_id
              (record d { num_threads = (d.num_threads + 1) % word_mod; hash_context = h2 });
      }

  thread_load_body : ℕ → ℕ → ℕ → ℕ → ℕ → M ApiResult (Unit {0})
  thread_load_body enclave_id thread_id entry_pc entry_stack timer_limit = do
    result ← add_lock_region_iff_valid_enclave enclave_id
    check (is_ok result) result
    m ← machine
    check_after (is_page_data_loaded (m.enclaves enclave_id).init_state) unlock_regions
        invalid_state
    result ← add_lock_region_iff_free_metadata_pages thread_id thread_metadata_pages
    check_after (is_ok result) unlock_regions result
    modify (load_commit enclave_id thread_id entry_pc entry_stack timer_limit)
    leave unlock_regions

  unfoldable pub thread_load : ℕ → ℕ → ℕ → ℕ → ℕ → Machine → Result ApiResult
  unfolding thread_load_body
  thread_load enclave_id thread_id entry_pc entry_stack timer_limit =
      run (thread_load_body enclave_id thread_id entry_pc entry_stack timer_limit) monitor_ok

unfoldable pub delete_commit : ℕ → Machine → Machine
delete_commit thread_id m =
    let e = (m.threads thread_id).owner in
    let d = m.enclaves e in
    record m {
      enclaves =
          update m.enclaves e
            (record d { num_threads = (d.num_threads + word_mod - 1) % word_mod });
      threads = update m.threads thread_id zero_thread;
      page_info = release_pages thread_id thread_metadata_pages m.page_info;
    }

thread_delete_body : ℕ → M ApiResult (Unit {0})
thread_delete_body thread_id = do
  result ← add_lock_region_iff_valid_thread thread_id
  check (is_ok result) result
  m ← machine
  got ← add_lock_region (addr_to_region_id (m.threads thread_id).owner)
  check_after got unlock_regions concurrent_call
  check_after (not (m.threads thread_id).is_scheduled) unlock_regions invalid_state
  modify (delete_commit thread_id)
  leave unlock_regions

unfoldable pub thread_delete : ℕ → Machine → Result ApiResult
unfolding thread_delete_body
thread_delete thread_id = run (thread_delete_body thread_id) monitor_ok
