-- ===== src/Region/Assign.antt =====
-- `sm_internal_region_assign` against its specification.
use security_monitor.Prelude.{
  ℕ, ◌<◌, ◌≡◌, refl, ap, ◌∙◌, fun_ext, Bool, true, false, not, arith, ◌==◌, if◌then◌else◌, ltb→lt,
}
use security_monitor.Types.{
  num_cores, owner_untrusted, ApiResult, RegionMap, Machine, monitor_ok, invalid_value,
  invalid_state, concurrent_call, owned, untrusted_region, enclave_region,
}
use security_monitor.Address.{is_valid_region_id}
use security_monitor.Call.{Result, returned}
use security_monitor.Locks.{
  region_lock, core_lock, untrusted_lock, put_core_lock, put_untrusted_lock,
}
use security_monitor.Metadata.{is_ok}
use security_monitor.Region.{is_free, add_region, assign_commit, region_assign}
use security_monitor.Locks.Held.{no_regions, hold, held, add, none-Taken, Machine-eq}
use security_monitor.Locks.Steps.{
  check_after-step, machine-step, add_lock_region-step, lock_core-step, lock_untrusted_state-step,
  commit-step,
}
use security_monitor.Locks.Commit.{
  Apart, Apart-compose, Apart-if, commit-all, refuse-regions, refuse-untrusted,
}
use security_monitor.Metadata.Steps.{
  owner_status, lock_enclave_unless_untrusted-step, unlock_regions-owner_refused,
}
use security_monitor.Platform.Apart.{
  update_untrusted_regions-Apart, update_enclave_regions-Apart, put_region-Apart,
}

-- The untrusted state and the core, left locked.
abbrev pub leaked : ℕ → Machine → Machine
leaked core m = put_untrusted_lock true (put_core_lock core true m)

-- What `region_assign` does to a machine, as one step. A new owner that is refused leaves the locks
-- of the untrusted state and of the core held.
unfoldable pub assign_spec : ℕ → ℕ → ℕ → Machine → Result ApiResult
assign_spec core i new_owner m =
    if is_valid_region_id i
    then (if not (region_lock m i)
        then (if is_free (m.sm.regions i).state
            then (if not (untrusted_lock m)
                then (if not (core_lock m core)
                    then (if is_ok (owner_status m (add no_regions i) new_owner)
                        then returned monitor_ok (assign_commit core i new_owner m)
                        else returned (owner_status m (add no_regions i) new_owner) (leaked core m))
                    else returned concurrent_call m)
                else returned concurrent_call m)
            else returned invalid_state m)
        else returned concurrent_call m)
    else returned invalid_value m

hold-leaked :
    (core : ℕ) (m : Machine) → hold no_regions true (add no_regions core) m ≡ leaked core m
unfolding hold
hold-leaked core m = Machine-eq m refl (fun_ext λ j. ground arith) refl

add_region-Apart : (core i owner : ℕ) → Apart (add_region core i owner)
unfolding add_region
add_region-Apart core i owner =
    Apart-if _ _ _ (update_untrusted_regions-Apart core i true)
      (update_enclave_regions-Apart core owner i true)

assign_commit-Apart : (core i owner : ℕ) → Apart (assign_commit core i owner)
unfolding assign_commit
assign_commit-Apart core i owner = Apart-compose (add_region-Apart core i owner) (
    put_region-Apart i
      (λ r. record r {
        owner = owner;
        type = if owner == owner_untrusted then untrusted_region else enclave_region;
        state = owned;
      })
      (λ r b. refl) (λ r. refl))

-- `region_assign` is its specification, for a call from one of the cores: a refused owner leaves the locks
-- of the untrusted state and of the core held, every other refusal leaves the machine as it was.
pub region_assign-eq-spec :
    (core i new_owner : ℕ) (m : Machine)
    → core < num_cores
    → region_assign core i new_owner m ≡ assign_spec core i new_owner m
unfolding region_assign assign_spec hold held
region_assign-eq-spec core i o m h =
    let l : RegionMap = add no_regions i in
    let c : ℕ → Bool = add no_regions core in
    check_after-step _ _ _ _ _ (held no_regions false no_regions m)
      (λ v.
        add_lock_region-step no_regions false no_regions m _ _ i _ _ (none-Taken m) (ltb→lt _ _ v)
          (λ t. machine-step l false no_regions m _ _ (
            check_after-step _ _ _ _ _ _
              (λ _.
                lock_untrusted_state-step l false no_regions m _ _ _ _ refl
                  (λ e.
                    lock_core-step l true no_regions m _ _ core _ _ h refl
                      (λ f.
                        lock_enclave_unless_untrusted-step l true c m _ o _ (λ x. x) _ t
                          (λ t'.
                            commit-step _ true c m _ _ _
                              (commit-all (assign_commit-Apart core i o) _ m t' core e f))
                          (ap (returned (owner_status m l o))
                            (unlock_regions-owner_refused l true c m t o ∙ hold-leaked core m)))
                      (refuse-untrusted l m t _ e))
                  (refuse-regions l m t _))
              (refuse-regions l m t _)))
          refl)
      refl
