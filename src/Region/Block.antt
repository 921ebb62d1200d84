-- ===== src/Region/Block.antt =====
-- `sm_internal_region_block` against its specification: one atomic step, without locks.
use security_monitor.Platform.Apart.{
  update_untrusted_regions-Apart, update_enclave_regions-Apart, put_region-Apart,
}
use security_monitor.Prelude.{
  ℕ, ◌<◌, ◌≡◌, refl, ap, Bool, true, false, not, ◌==◌, if◌then◌else◌, ltb→lt,
}
use security_monitor.Types.{
  num_cores, owner_sm, ApiResult, RegionMap, Machine, monitor_ok, invalid_value, invalid_state,
  concurrent_call, access_denied, blocked,
}
use security_monitor.Address.{is_valid_region_id}
use security_monitor.Call.{Result, returned}
use security_monitor.Locks.{region_lock, core_lock, untrusted_lock}
use security_monitor.Metadata.{is_owned, is_ok}
use security_monitor.Region.{is_sm, set_owner, set_state, remove_region, block_commit, region_block}
use security_monitor.Locks.Held.{no_regions, hold, held, add, none-Taken}
use security_monitor.Locks.Steps.{
  check_after-step, machine-step, add_lock_region-step, lock_core-step, lock_untrusted_state-step,
  commit-step,
}
use security_monitor.Locks.Commit.{
  Apart, Apart-compose, Apart-id, Apart-if, Apart-read, drop_all, commit-all, refuse-regions,
  refuse-untrusted, refuse-all,
}
use security_monitor.Metadata.Steps.{
  owner_status, lock_enclave_unless_untrusted-step, unlock_regions-owner_refused,
}

-- What `region_block` does to a machine, as one step.
unfoldable pub block_spec : ℕ → ℕ → Machine → Result ApiResult
block_spec core i m =
    let r = m.sm.regions i in
    if is_valid_region_id i
    then (if not (region_lock m i)
        then (if is_owned r.state
            then (if not (is_sm r.type)
                then (if r.owner == (m.sm.cores core).owner
                    then (if not (untrusted_lock m)
                        then (if not (core_lock m core)
                            then (if not (r.owner == owner_sm)
                                then (if is_ok (owner_status m (add no_regions i) r.owner)
                                    then returned monitor_ok (block_commit core i m)
                                    else returned concurrent_call m)
                                else returned access_denied m)
                            else returned concurrent_call m)
                        else returned concurrent_call m)
                    else returned access_denied m)
                else returned access_denied m)
            else returned invalid_state m)
        else returned concurrent_call m)
    else returned invalid_value m

remove_region-Apart : (core i owner : ℕ) → Apart (remove_region core i owner)
unfolding remove_region
remove_region-Apart core i owner =
    Apart-if _ _ _ (update_untrusted_regions-Apart core i false)
      (Apart-if _ _ _ Apart-id (update_enclave_regions-Apart core owner i false))

block_commit-Apart : (core i : ℕ) → Apart (block_commit core i)
unfolding block_commit hold
block_commit-Apart core i =
    Apart-read
      (λ owner m. set_state i blocked (remove_region core i owner (set_owner i owner_sm m)))
      (λ m. (m.sm.regions i).owner) (λ l u c m. refl)
      λ owner.
        Apart-compose
          (put_region-Apart i (λ r. record r { state = blocked }) (λ r b. refl) (λ r. refl))
          (Apart-compose (remove_region-Apart core i owner)
            (put_region-Apart i (λ r. record r { owner = owner_sm }) (λ r b. refl) (λ r. refl)))

-- `region_block` is its specification, for a call from one of the cores: it runs as one step, and every
-- refusal leaves the machine, its locks included, as it was.
pub region_block-eq-spec :
    (core i : ℕ) (m : Machine) → core < num_cores → region_block core i m ≡ block_spec core i m
unfolding region_block block_spec hold held
region_block-eq-spec core i m h =
    let l : RegionMap = add no_regions i in
    let c : ℕ → Bool = add no_regions core in
    let owner : ℕ = (m.sm.regions i).owner in
    check_after-step _ _ _ _ _ (held no_regions false no_regions m)
      (λ v. machine-step no_regions false no_regions m _ _ (
        add_lock_region-step no_regions false no_regions m _ _ i _ _ (none-Taken m) (ltb→lt _ _ v)
          (λ t. machine-step l false no_regions m _ _ (
            check_after-step _ _ _ _ _ _
              (λ _.
                check_after-step _ _ _ _ _ _
                  (λ _.
                    check_after-step _ _ _ _ _ _
                      (λ _.
                        lock_untrusted_state-step l false no_regions m _ _ _ _ refl
                          (λ e.
                            lock_core-step l true no_regions m _ _ core _ _ h refl
                              (λ f.
                                check_after-step _ _ _ _ _ _
                                  (λ _.
                                    lock_enclave_unless_untrusted-step l true c m _ owner _ _ _ t
                                      (λ t'.
                                        commit-step _ true c m _ _ _
                                          (commit-all (block_commit-Apart core i) _ m t' core e f))
                                      (ap (returned concurrent_call) (
                                        drop_all core m _ _ e f
                                          (unlock_regions-owner_refused l true c m t owner))))
                                  (refuse-all l m t _ core e f))
                              (refuse-untrusted l m t _ e))
                          (refuse-regions l m t _))
                      (refuse-regions l m t _))
                  (refuse-regions l m t _))
              (refuse-regions l m t _)))
          refl))
      refl
