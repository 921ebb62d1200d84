-- ===== src/Thread/Atomic.antt =====
-- `thread_load` and `thread_delete` against their specifications: each runs as one step, but for the
-- lock of a region in which the first structure was not found.
use security_monitor.Prelude.{ℕ, ◌<◌, ◌≡◌, refl, ap, false, not, ◌||◌, if◌then◌else◌}
use security_monitor.Types.{
  num_regions, ApiResult, RegionMap, Machine, monitor_ok, invalid_state, concurrent_call,
  page_enclave, page_thread,
}
use security_monitor.Address.{addr_to_region_id}
use security_monitor.Call.{Result, returned}
use security_monitor.Locks.{region_lock}
use security_monitor.Metadata.{thread_metadata_pages, is_ok}
use security_monitor.Crypto.{Crypto}
use security_monitor.Thread.{
  is_page_data_loaded, load_commit, thread_load, delete_commit, thread_delete,
}
use security_monitor.Locks.Held.{no_regions, hold, held, add, none-Taken}
use security_monitor.Locks.Steps.{check_after-step, machine-step, add_lock_region-step, commit-step}
use security_monitor.Locks.Commit.{Apart, drop_regions, commit-regions, refuse-regions}
use security_monitor.Metadata.Steps.{
  metadata_status, free_pages_status, refused, valid_metadata-step, free_pages-step,
  unlock_regions-pages_refused,
}

-- What a refused pointer leaves: past the lock of its region, the lock stays taken.
abbrev pub left_locked : Machine → ℕ → ApiResult → Machine
left_locked m ptr status =
    (refused no_regions false no_regions m (addr_to_region_id ptr) status).machine

abbrev metadata_region_of : ℕ → RegionMap
metadata_region_of ptr = add no_regions (addr_to_region_id ptr)

module _ (c : Crypto) where
  unfoldable pub load_spec : ℕ → ℕ → ℕ → ℕ → ℕ → Machine → Result ApiResult
  load_spec enclave_id thread_id entry_pc entry_stack timer_limit m =
      let status = metadata_status m no_regions enclave_id page_enclave in
      let l = metadata_region_of enclave_id in
      if is_ok status
      then (if is_page_data_loaded (m.enclaves enclave_id).init_state
          then (if is_ok (free_pages_status m l thread_id thread_metadata_pages)
              then returned monitor_ok
                  (load_commit c enclave_id thread_id entry_pc entry_stack timer_limit m)
              else returned (free_pages_status m l thread_id thread_metadata_pages) m)
          else returned invalid_state m)
      else returned status (left_locked m enclave_id status)

  load_commit-Apart : (e t pc sp limit : ℕ) → Apart (load_commit c e t pc sp limit)
  unfolding load_commit hold
  load_commit-Apart e t pc sp limit = record {
    under = λ l u k m. refl;
    regions = λ m j. refl;
    cores = λ m j. refl;
    untrusted = λ m. refl;
  }

  -- `thread_load` is its specification: it runs as one step, and only an enclave that is refused with its
  -- region locked leaves a lock held.
  pub thread_load-eq-spec :
      (e t pc sp limit : ℕ) (m : Machine)
      → thread_load c e t pc sp limit m ≡ load_spec e t pc sp limit m
  unfolding thread_load load_spec hold held
  thread_load-eq-spec e t pc sp limit m =
      let l : RegionMap = metadata_region_of e in
      let k : RegionMap = add l (addr_to_region_id t) in
      let s : ApiResult = free_pages_status m l t thread_metadata_pages in
      valid_metadata-step no_regions false no_regions m _ e _ _ _ page_enclave (none-Taken m)
        (λ a. machine-step l false no_regions m _ _ (
          check_after-step _ _ _ _ _ _
            (λ _.
              free_pages-step l false no_regions m _ t _ _ _ thread_metadata_pages a
                (λ b.
                  commit-step k false no_regions m _ _ _
                    (commit-regions (load_commit-Apart e t pc sp limit) k m b))
                (ap (returned s) (
                  drop_regions m _ _
                    (unlock_regions-pages_refused l false no_regions m a t thread_metadata_pages))))
            (refuse-regions l m a _)))
        refl

-- The owner of a thread that the monitor made is an enclave of the RAM.
unfoldable pub delete_spec : ℕ → Machine → Result ApiResult
delete_spec thread_id m =
    let status = metadata_status m no_regions thread_id page_thread in
    let r = addr_to_region_id (m.threads thread_id).owner in
    if is_ok status
    then (if metadata_region_of thread_id r || not (region_lock m r)
        then (if not (m.threads thread_id).is_scheduled
            then returned monitor_ok (delete_commit thread_id m)
            else returned invalid_state m)
        else returned concurrent_call m)
    else returned status (left_locked m thread_id status)

delete_commit-Apart : (t : ℕ) → Apart (delete_commit t)
unfolding delete_commit hold
delete_commit-Apart t = record {
  under = λ l u k m. refl;
  regions = λ m j. refl;
  cores = λ m j. refl;
  untrusted = λ m. refl;
}

-- `thread_delete` is its specification, for a thread whose owner lies in the RAM.
pub thread_delete-eq-spec :
    (t : ℕ) (m : Machine)
    → addr_to_region_id (m.threads t).owner < num_regions
    → thread_delete t m ≡ delete_spec t m
unfolding thread_delete delete_spec hold held
thread_delete-eq-spec t m h =
    let l : RegionMap = metadata_region_of t in
    let k : RegionMap = add l (addr_to_region_id (m.threads t).owner) in
    valid_metadata-step no_regions false no_regions m _ t _ _ _ page_thread (none-Taken m)
      (λ a. machine-step l false no_regions m _ _ (
        add_lock_region-step l false no_regions m _ _ _ _ _ a h
          (λ b.
            check_after-step _ _ _ _ _ _
              (λ _.
                commit-step k false no_regions m _ _ _
                  (commit-regions (delete_commit-Apart t) k m b))
              (refuse-regions k m b _))
          (refuse-regions l m a _)))
      refl
