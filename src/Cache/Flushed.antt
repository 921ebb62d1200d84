-- ===== src/Cache/Flushed.antt =====
-- `region_flush` against its specification.
use security_monitor.Prelude.{
  ℕ, ◌≡◌, refl, ap, fun_ext, inl, inr, true, false, not, arith, leb, ◌==◌, if◌then◌else◌,
  Bool-cases,
}
use security_monitor.Types.{
  num_regions, owner_untrusted, ApiResult, RegionMap, Machine, monitor_ok, invalid_value,
  invalid_state, concurrent_call,
}
use security_monitor.Call.{
  M, ◌>>=◌, ◌>>◌, check_after, Result, finish, leave, fault, returned, undefined,
}
use security_monitor.Locks.{region_lock, lock_region, unlock_region}
use security_monitor.Cache.Lines.{flush}
use security_monitor.Cache.{flush_commit, region_flush}
use security_monitor.Locks.Held.{no_regions, hold, held, Machine-eq}
use security_monitor.Locks.Steps.{check_after-step, owning, read-step, lock_region-step}
use security_monitor.Cache.Partition.{in_round}

unfoldable pub flush_spec : ℕ → Machine → Result ApiResult
flush_spec id m =
    if leb id num_regions
    then (if id == num_regions
        then undefined
        else if not (region_lock m id)
        then (if (m.sm.regions id).owner == owner_untrusted
            then (if not m.sm.llc_sync.busy
                then returned monitor_ok (in_round (flush id) m)
                else returned concurrent_call m)
            else returned invalid_state m)
        else returned concurrent_call m)
    else returned invalid_value m

lock_region-outside :
    (m : Machine)
    → lock_region {R = ApiResult} num_regions (held no_regions false no_regions m) ≡ fault
unfolding lock_region
lock_region-outside m = refl

unlock_one-owning :
    (id : ℕ) (m : Machine) → region_lock m id ≡ false → unlock_region id (owning id m).machine ≡ m
unfolding owning hold
unlock_one-owning id m e = Machine-eq m (fun_ext λ j. ground arith) refl refl

flush_commit-owning :
    (id : ℕ) (m : Machine)
    → region_lock m id ≡ false
    → flush_commit id (owning id m).machine ≡ in_round (flush id) m
unfolding flush_commit owning hold
flush_commit-owning id m e = ap (in_round (flush id)) (unlock_one-owning id m e)

-- `lock_region`, where the number may be one past the last.
lock_region-step_bounded :
    (r : ApiResult) (i : ℕ) (m : Machine) (before : Machine → RegionMap → Machine)
    (k : M ApiResult (Unit {0})) {s t : Result ApiResult}
    → leb i num_regions ≡ true
    → (region_lock m i ≡ false → finish monitor_ok (k (owning i m)) ≡ s)
    → returned r (before (hold no_regions false no_regions m) no_regions) ≡ t
    → finish monitor_ok (
        (lock_region i >>= λ got. check_after got before r >> k)
          (held no_regions false no_regions m))
      ≡ (if i == num_regions then undefined else if not (region_lock m i) then s else t)
unfolding ◌>>=◌
lock_region-step_bounded r i m before k h p q = elim (Bool-cases (i == num_regions)) [
  | inl e ↦ let x : i ≡ num_regions = ground arith in rw (x, ◌>>=◌, lock_region-outside m) refl
  | inr e ↦ rw e (lock_region-step monitor_ok r i m before k (ground arith) p q)
]

-- `region_flush` is its specification, in which the number of regions itself is let through to an
-- undefined access. A call that succeeds has loaded the lines of the region, between the
-- two rounds of the rendezvous, and leaves only the rendezvous fields written besides.
pub region_flush-eq-spec : (id : ℕ) (m : Machine) → region_flush id m ≡ flush_spec id m
unfolding region_flush flush_spec leave owning hold held
region_flush-eq-spec id m =
    check_after-step _ _ _ _ _ (held no_regions false no_regions m)
      (λ h.
        lock_region-step_bounded _ id m _ _ h
          (λ e. read-step _ _ _ (
            check_after-step _ _ _ _ _ (owning id m)
              (λ _.
                check_after-step _ _ _ _ _ (owning id m)
                  (λ _. ap (returned monitor_ok) (flush_commit-owning id m e))
                  (ap (returned concurrent_call) (unlock_one-owning id m e)))
              (ap (returned invalid_state) (unlock_one-owning id m e))))
          refl)
      refl
