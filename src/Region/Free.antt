-- ===== src/Region/Free.antt =====
-- `region_free`, `region_check_owned` and `region_metadata_create` against their specifications.
use security_monitor.Prelude.{
  ℕ, ◌<◌, ◌≡◌, refl, ap, ◌∙◌, fun_ext, Bool, false, not, ◌||◌, arith, ◌==◌, if◌then◌else◌, ltb→lt,
}
use security_monitor.Types.{
  num_cores, ApiResult, RegionMap, Machine, monitor_ok, invalid_value, invalid_state,
  concurrent_call, access_denied,
}
use security_monitor.Address.{is_valid_region_id}
use security_monitor.Call.{
  machine, M, ◌>>=◌, ◌>>◌, modify, check_after, Result, finish, leave, returned,
}
use security_monitor.Locks.{region_lock, core_lock, lock_core, unlock_core, unlock_regions}
use security_monitor.Metadata.{is_owned}
use security_monitor.Platform.{region_is_accessible}
use security_monitor.Region.{
  is_free, is_blocked, free_commit, region_free, region_check_owned, metadata_create_commit,
  region_metadata_create,
}
use security_monitor.Locks.Held.{
  no_regions, hold, held, Taken, add, none-Taken, Machine-eq, unlock_regions-hold,
}
use security_monitor.Locks.Steps.{
  check_after-step, machine-step, add_lock_region-step, lock_core-step, commit-step, owning,
  read-step, end-step, lock_region-step,
}
use security_monitor.Locks.Commit.{
  Apart, drop_regions, commit-regions, refuse-regions, unlock_region-hold, commit-region,
}

-- Whether a core's bitmaps let it reach a region.
abbrev pub reaches : Machine → ℕ → ℕ → Bool
reaches m i c =
    region_is_accessible (m.sm.cores c).mmrbm i || region_is_accessible (m.sm.cores c).memrbm i

-- The cores are asked in turn.
unfoldable pub free_spec : ℕ → Machine → Result ApiResult
free_spec i m =
    if is_valid_region_id i
    then (if not (region_lock m i)
        then (if is_blocked (m.sm.regions i).state
            then (if not (core_lock m 0)
                then (if not (reaches m i 0)
                    then (if not (core_lock m 1)
                        then (if not (reaches m i 1)
                            then returned monitor_ok (free_commit i m)
                            else returned invalid_state m)
                        else returned concurrent_call m)
                    else returned invalid_state m)
                else returned concurrent_call m)
            else returned invalid_state m)
        else returned concurrent_call m)
    else returned invalid_value m

unlock_core-again :
    (l : RegionMap) (c : ℕ) (m : Machine)
    → core_lock m c ≡ false
    → unlock_core c (hold l false (add no_regions c) m) ≡ hold l false no_regions m
unfolding hold
unlock_core-again l c m e = Machine-eq m refl (fun_ext λ j. ground arith) refl

-- One round: a core that is free and does not reach the region is left as it was.
check_core-step :
    (l : RegionMap) (m : Machine) (i c : ℕ) (k : M ApiResult (Unit {0})) {s : Result ApiResult}
    → Taken l m
    → c < num_cores
    → finish monitor_ok (k (held l false no_regions m)) ≡ s
    → finish monitor_ok (
        (lock_core c >>= λ got.
        check_after got unlock_regions concurrent_call
        >> (machine >>= λ x.
            check_after
              (not (
                region_is_accessible (x.sm.cores c).mmrbm i
                || region_is_accessible (x.sm.cores c).memrbm i))
              (λ y z. unlock_regions (unlock_core c y) z)
              invalid_state
            >> (modify (unlock_core c) >> k)))
          (held l false no_regions m))
      ≡ (if not (core_lock m c)
          then (if not (reaches m i c) then s else returned invalid_state m)
          else returned concurrent_call m)
unfolding hold held modify ◌>>=◌ ◌>>◌
check_core-step l m i c k t h p =
    lock_core-step l false no_regions m _ _ c _ _ h refl
      (λ e. machine-step l false (add no_regions c) m _ _ (
        check_after-step _ _ _ _ _ _
          (λ _.
            ap (λ x. finish monitor_ok (k (record { machine = x; locked = l })))
              (unlock_core-again l c m e)
            ∙ p)
          (ap (returned invalid_state) (
            ap (λ x. unlock_regions x l) (unlock_core-again l c m e)
            ∙ drop_regions m _ l (unlock_regions-hold l false no_regions m t)))))
      (refuse-regions l m t _)

free_commit-Apart : (i : ℕ) → Apart (free_commit i)
unfolding hold
free_commit-Apart i = record {
  under = λ l u c m. Machine-eq (free_commit i m) (fun_ext λ j. ground arith) refl refl;
  regions = λ m j. ground arith;
  cores = λ m j. refl;
  untrusted = λ m. refl;
}

-- `region_free` is its specification: the cores are asked in turn, and every refusal leaves the machine,
-- its locks included, as it was.
pub region_free-eq-spec : (i : ℕ) (m : Machine) → region_free i m ≡ free_spec i m
unfolding region_free free_spec hold held
region_free-eq-spec i m =
    let l : RegionMap = add no_regions i in
    check_after-step _ _ _ _ _ (held no_regions false no_regions m)
      (λ v.
        add_lock_region-step no_regions false no_regions m _ _ i _ _ (none-Taken m) (ltb→lt _ _ v)
          (λ t. machine-step l false no_regions m _ _ (
            check_after-step _ _ _ _ _ _
              (λ _. check_core-step l m i 0 _ t (omega arith) (
                check_core-step l m i 1 _ t (omega arith) (
                  commit-step l false no_regions m _ _ _
                    (commit-regions (free_commit-Apart i) l m t))))
              (refuse-regions l m t _)))
          refl)
      refl

unfoldable pub check_owned_spec : ℕ → ℕ → Machine → Result ApiResult
check_owned_spec core i m =
    if is_valid_region_id i
    then (if not (region_lock m i)
        then (if is_owned (m.sm.regions i).state
            then (if (m.sm.regions i).owner == (m.sm.cores core).owner
                then returned monitor_ok m
                else returned access_denied m)
            else returned invalid_state m)
        else returned concurrent_call m)
    else returned invalid_value m

unfoldable pub metadata_create_spec : ℕ → Machine → Result ApiResult
metadata_create_spec i m =
    if is_valid_region_id i
    then (if not (region_lock m i)
        then (if is_free (m.sm.regions i).state
            then returned monitor_ok (metadata_create_commit i m)
            else returned invalid_state m)
        else returned concurrent_call m)
    else returned invalid_value m

metadata_create_commit-Apart : (i : ℕ) → Apart (metadata_create_commit i)
unfolding metadata_create_commit hold
metadata_create_commit-Apart i = record {
  under = λ l u c m. Machine-eq (metadata_create_commit i m) (fun_ext λ j. ground arith) refl refl;
  regions = λ m j. ground arith;
  cores = λ m j. refl;
  untrusted = λ m. refl;
}

-- `region_metadata_create` is its specification: one step, which no refusal takes.
pub region_metadata_create-eq-spec :
    (i : ℕ) (m : Machine) → region_metadata_create i m ≡ metadata_create_spec i m
unfolding region_metadata_create metadata_create_spec hold held owning
region_metadata_create-eq-spec i m =
    check_after-step _ _ _ _ _ (held no_regions false no_regions m)
      (λ v.
        lock_region-step _ _ i m _ _ (ltb→lt _ _ v)
          (λ e. read-step _ _ (owning i m) (
            check_after-step _ _ _ _ _ _
              (λ _.
                end-step _ _ _ (owning i m) (commit-region (metadata_create_commit-Apart i) i m e))
              (ap (returned invalid_state) (unlock_region-hold i m e))))
          refl)
      refl

-- `region_check_owned` is its specification: it asks and changes nothing.
pub region_check_owned-eq-spec :
    (core i : ℕ) (m : Machine) → region_check_owned core i m ≡ check_owned_spec core i m
unfolding region_check_owned check_owned_spec hold held owning leave
region_check_owned-eq-spec core i m =
    check_after-step _ _ _ _ _ (held no_regions false no_regions m)
      (λ v.
        lock_region-step _ _ i m _ _ (ltb→lt _ _ v)
          (λ e. read-step _ _ (owning i m) (
            check_after-step _ _ _ _ _ _
              (λ _.
                check_after-step _ _ _ _ _ _
                  (λ _. ap (returned monitor_ok) (unlock_region-hold i m e))
                  (ap (returned access_denied) (unlock_region-hold i m e)))
              (ap (returned invalid_state) (unlock_region-hold i m e))))
          refl)
      refl
