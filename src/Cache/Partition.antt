-- ===== src/Cache/Partition.antt =====
-- `region_cache_partitioning` and `region_flush` against their specifications.
use security_monitor.Prelude.{
  ℕ, ◌<◌, ◌≡◌, refl, sym, ap, ◌∙◌, fun_ext, inl, inr, Bool, true, false, not, Option, none, some,
  arith, ltb, leb, ◌==◌, if◌then◌else◌, Bool-cases,
}
use security_monitor.Types.{
  num_regions, num_cores, owner_untrusted, ApiResult, Machine, monitor_ok, invalid_value,
  invalid_state, concurrent_call,
}
use security_monitor.Call.{
  machine, Outcome, M, pure, ◌>>=◌, ◌>>◌, modify, check_after, check, Result, finish, next, fault,
  returned, undefined,
}
use security_monitor.Locks.{
  core_lock, untrusted_lock, put_core_lock, lock_core, unlock_core, unlock_untrusted_state,
}
use security_monitor.Cache.{
  put_sync, gather_sync, release_sync, Scan, scan_below, set_partitions, lgsizes, no_enclaves,
  partition_checked, after_scan, region_cache_partitioning,
}
use security_monitor.Locks.Held.{no_regions, hold, held, add, Machine-eq, unlock_untrusted-hold}
use security_monitor.Locks.Steps.{
  check_after-step, machine-step, lock_core-held, lock_untrusted_state-step,
}

-- The round before the work, and the round after it.
abbrev pub in_round : (Machine → Machine) → Machine → Machine
in_round g m = put_sync release_sync (g (put_sync gather_sync m))

-- The part after the scan, as one step. Where an enclave runs on the core 0, that core's lock stays
-- taken.
unfoldable pub checked_spec : (ℕ → ℕ) → Scan → Machine → Result ApiResult
checked_spec copy s m =
    if leb s.sum 1024
    then (if ltb 0 s.idx_first_mod
        then (if not m.sm.llc_sync.busy
            then (if core_lock m 0
                then undefined
                else if not ((m.sm.cores 0).owner == owner_untrusted)
                then returned invalid_state (in_round (put_core_lock 0 true) m)
                else if core_lock m 1
                then undefined
                else returned monitor_ok (in_round (set_partitions copy s) m))
            else returned concurrent_call m)
        else returned invalid_value m)
    else returned invalid_value m

-- The part after the lock, from the outcome of the scan.
abbrev pub scan_spec : (ℕ → ℕ) → Option Scan → Machine → Result ApiResult
scan_spec copy none m = returned invalid_value m
scan_spec copy (some s) m = checked_spec copy s m

unfoldable pub partition_spec : ℕ → Machine → Result ApiResult
partition_spec part m =
    if not (untrusted_lock m)
    then scan_spec (lgsizes m part) (scan_below m.sm.llc_partitions (lgsizes m part) num_regions) m
    else returned concurrent_call m

unlock_core-again :
    (c : ℕ) (m : Machine)
    → core_lock m c ≡ false
    → unlock_core c (hold no_regions true (add no_regions c) m) ≡ hold no_regions true no_regions m
unfolding hold
unlock_core-again c m e = Machine-eq m refl (fun_ext λ j. ground arith) refl

-- A round of the loop over the cores.
core_round :
    (c : ℕ) (k : M ApiResult Bool) (m : Machine) {r : Outcome ApiResult Bool}
    → c < num_cores
    → (((m.sm.cores 0).owner == owner_untrusted) ≡ true → k (held no_regions true no_regions m) ≡ r)
    → (lock_core c >>= λ got.
          if not got
          then (λ _. fault)
          else (machine >>= λ x.
              if not ((x.sm.cores 0).owner == owner_untrusted)
              then pure false
              else (modify (unlock_core c) >> k)))
        (held no_regions true no_regions m)
      ≡ (if core_lock m c
          then fault
          else if not ((m.sm.cores 0).owner == owner_untrusted)
          then next false (held no_regions true (add no_regions c) m)
          else r)
unfolding ◌>>=◌ ◌>>◌ machine modify pure held
core_round c k m h p =
    let q = lock_core-held no_regions true no_regions m {R = ApiResult} c h refl in
    elim (Bool-cases (core_lock m c)) [
      | inl e ↦ rw (◌>>=◌, q, e) refl
      | inr e ↦ elim (Bool-cases ((m.sm.cores 0).owner == owner_untrusted)) [
        | inr a ↦ rw (◌>>=◌, q, e, a) refl
        | inl a ↦
            rw (◌>>=◌, q, e, a)
              (ap (λ x. k (record { machine = x; locked = no_regions })) (unlock_core-again c m e)
                ∙ p a)
      ]
    ]

no_enclaves-held :
    (m : Machine)
    → no_enclaves 0 num_cores (held no_regions true no_regions m) ≡ (
        if core_lock m 0
        then fault
        else if not ((m.sm.cores 0).owner == owner_untrusted)
        then next false (held no_regions true (add no_regions 0) m)
        else (if core_lock m 1 then fault else next true (held no_regions true no_regions m)))
unfolding no_enclaves pure
no_enclaves-held m =
    core_round 0 _ m (omega arith) (λ a. core_round 1 _ m (omega arith) (λ _. refl) ∙ rw a refl)

-- The end of the call, after the loop.
after_loop : (ℕ → ℕ) → Scan → Bool → M ApiResult (Unit {0})
after_loop copy s no_enclaves_running = do
  modify (if no_enclaves_running then set_partitions copy s else (λ x. x))
  modify (λ x. unlock_untrusted_state (put_sync release_sync x))
  check no_enclaves_running invalid_state

hold_core0 :
    (m : Machine)
    → untrusted_lock m ≡ false
    → unlock_untrusted_state (hold no_regions true (add no_regions 0) m) ≡ put_core_lock 0 true m
unfolding hold
hold_core0 m e = Machine-eq (put_core_lock 0 true m) refl (fun_ext λ j. ground arith) (sym e)

loop_run :
    (copy : ℕ → ℕ) (s : Scan) (m : Machine)
    → untrusted_lock m ≡ false
    → finish monitor_ok
        ((no_enclaves 0 num_cores >>= after_loop copy s) (held no_regions true no_regions m))
      ≡ (if core_lock m 0
          then undefined
          else if not ((m.sm.cores 0).owner == owner_untrusted)
          then returned invalid_state (put_sync release_sync (put_core_lock 0 true m))
          else (if core_lock m 1
              then undefined
              else returned monitor_ok (put_sync release_sync (set_partitions copy s m))))
unfolding after_loop modify check_after ◌>>=◌ ◌>>◌ held set_partitions
loop_run copy s m e =
    let q = no_enclaves-held m in
    elim (Bool-cases (core_lock m 0)) [
      | inl a ↦ rw (◌>>=◌, q, a) refl
      | inr a ↦ elim (Bool-cases ((m.sm.cores 0).owner == owner_untrusted)) [
        | inr b ↦
            rw (◌>>=◌, q, a, b)
              (ap (λ x. returned invalid_state (put_sync release_sync x)) (hold_core0 m e))
        | inl b ↦ elim (Bool-cases (core_lock m 1)) [
          | inl d ↦ rw (◌>>=◌, q, a, b, d) refl
          | inr d ↦
              rw (◌>>=◌, q, a, b, d)
                (ap (λ x. returned monitor_ok (put_sync release_sync (set_partitions copy s x)))
                  (unlock_untrusted-hold no_regions m e))
        ]
      ]
    ]

partition_checked-eq :
    (copy : ℕ → ℕ) (s : Scan) (m : Machine)
    → untrusted_lock m ≡ false
    → finish monitor_ok (partition_checked copy s (held no_regions true no_regions m))
      ≡ checked_spec copy s m
unfolding partition_checked checked_spec after_loop hold held modify ◌>>=◌ ◌>>◌
partition_checked-eq copy s m e =
    let back = λ (r : ApiResult). ap (returned r) (unlock_untrusted-hold no_regions m e) in
    check_after-step _ _ _ _ _ (held no_regions true no_regions m)
      (λ _.
        check_after-step _ _ _ _ _ (held no_regions true no_regions m)
          (λ _. machine-step no_regions true no_regions m monitor_ok _ (
            check_after-step _ _ _ _ _ (held no_regions true no_regions m)
              (λ _. loop_run copy s (put_sync gather_sync m) e) (back concurrent_call)))
          (back invalid_value))
      (back invalid_value)

after_scan-eq :
    (copy : ℕ → ℕ) (r : Option Scan) (m : Machine)
    → untrusted_lock m ≡ false
    → finish monitor_ok (after_scan copy r (held no_regions true no_regions m)) ≡ scan_spec copy r m
unfolding check_after hold held
after_scan-eq copy none m e = ap (returned invalid_value) (unlock_untrusted-hold no_regions m e)
after_scan-eq copy (some s) m e = partition_checked-eq copy s m e

-- `region_cache_partitioning` is its specification: every refusal before the round leaves the machine
-- as it was, and an enclave on the core 0 makes the call fail with that core's lock taken.
pub region_cache_partitioning-eq-spec :
    (part : ℕ) (m : Machine) → region_cache_partitioning part m ≡ partition_spec part m
unfolding region_cache_partitioning partition_spec hold held
region_cache_partitioning-eq-spec part m =
    lock_untrusted_state-step no_regions false no_regions m _ _ _ _ refl
      (λ e. machine-step no_regions true no_regions m monitor_ok _ (
        after_scan-eq (lgsizes m part) (scan_below m.sm.llc_partitions (lgsizes m part) num_regions)
          m e))
      refl
