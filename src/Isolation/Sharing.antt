-- ===== src/Isolation/Sharing.antt =====
-- The calls that ask about a region, and those on the last level cache.
use security_monitor.Prelude.{
  ℕ, refl, Bool, true, false, not, Option, none, some, arith, ltb, leb, ◌==◌, if◌then◌else◌,
}
use security_monitor.Types.{
  num_regions, owner_untrusted, ApiResult, LlcSync, Machine, monitor_ok, invalid_value,
  invalid_state, concurrent_call,
}
use security_monitor.Address.{is_valid_region_id}
use security_monitor.Call.{Result, after, run_value, returned, undefined}
use security_monitor.Locks.{region_lock, core_lock, untrusted_lock, put_core_lock}
use security_monitor.Region.{region_check_owned, region_owner, region_state}
use security_monitor.Cache.Lines.{flush}
use security_monitor.Cache.{
  put_sync, gather_sync, release_sync, region_flush, Scan, scan_below, set_partitions, lgsizes,
  region_cache_partitioning,
}
use security_monitor.Cache.Partition.{
  in_round, checked_spec, scan_spec, partition_spec, region_cache_partitioning-eq-spec,
}
use security_monitor.Cache.Flushed.{flush_spec, region_flush-eq-spec}
use security_monitor.Isolation.{
  Quiet, View, untouched, elsewhere, Keeping, bind-Keeping, seq-Keeping, pure-Keeping, if-Keeping,
  machine-Keeping, modify-Keeping, leave-Keeping, run-Keeping, Same-Sound, run_value-Keeping,
}
use security_monitor.Isolation.Locking.{
  core_lock_kept, unlock_region-Sound, nothing-Sound, lock_region-Keeping, region_owner-Keeping,
  check_then,
}

-- A result of a specification that keeps an invariant.
record Answers (view : View) (m : Machine) (r : Result ApiResult) : Type 0 where
  kept : view.holds (after m r)

module _ (view : View) where
  pub region_check_owned_kept :
      (core i : ℕ) (m : Machine) → view.holds m → view.holds (after m (region_check_owned core i m))
  unfolding region_check_owned
  region_check_owned_kept core i m = run-Keeping {view = view} monitor_ok m (
      check_then _ _ nothing-Sound (
        bind-Keeping (lock_region-Keeping i) (λ got. check_then _ _ nothing-Sound (
          bind-Keeping machine-Keeping (λ n.
            check_then _ _ (unlock_region-Sound i)
              (check_then _ _ (unlock_region-Sound i) (leave-Keeping (unlock_region-Sound i))))))))

  region_state-Keeping : (i : ℕ) → Keeping view (region_state i)
  unfolding region_state
  region_state-Keeping i = if-Keeping (not (is_valid_region_id i)) (pure-Keeping _) (
      bind-Keeping (lock_region-Keeping i) (λ got. bind-Keeping machine-Keeping (λ m.
        if-Keeping (not got) (pure-Keeping _) (
          seq-Keeping
            (modify-Keeping (Same-Sound (λ n x. ground arith) (λ n. untouched refl refl refl)))
            (pure-Keeping _)))))

  pub region_owner_kept :
      (i : ℕ) (m : Machine) → view.holds m → view.holds (after m (run_value (region_owner i) m))
  region_owner_kept i m = run_value-Keeping {view = view} m (region_owner-Keeping i)

  pub region_state_kept :
      (i : ℕ) (m : Machine) → view.holds m → view.holds (after m (run_value (region_state i) m))
  region_state_kept i m = run_value-Keeping {view = view} m (region_state-Keeping i)

  -- A rendezvous writes only its own fields.
  in_round_kept :
      (g : Machine → Machine) (m : Machine)
      → ((n : Machine) → view.holds n → view.holds (g n))
      → view.holds m
      → view.holds (in_round g m)
  in_round_kept g m p v =
      view.quiet _ _ (sync-Quiet release_sync _) (p _ (view.quiet _ _ (sync-Quiet gather_sync m) v))
    where
      sync-Quiet : (f : LlcSync → LlcSync) (n : Machine) → Quiet view.region n (put_sync f n)
      sync-Quiet f n = elsewhere refl refl refl (untouched refl refl refl)

  if-Answers :
      (b : Bool) {m : Machine} {p q : Result ApiResult}
      → Answers view m p
      → Answers view m q
      → Answers view m (if b then p else q)
  if-Answers true h k = h
  if-Answers false h k = k

  in_round-Answers :
      (r : ApiResult) (g : Machine → Machine) (m : Machine)
      → ((n : Machine) → view.holds n → view.holds (g n))
      → view.holds m
      → Answers view m (returned r (in_round g m))
  in_round-Answers r g m p v = record { kept = in_round_kept g m p v }

  flush_kept : (i : ℕ) (m : Machine) → view.holds m → view.holds (flush i m)
  flush_kept i m = view.quiet m _ (elsewhere refl refl refl (untouched refl refl refl))

  flush_spec-Answers : (i : ℕ) (m : Machine) → view.holds m → Answers view m (flush_spec i m)
  unfolding flush_spec
  flush_spec-Answers i m v =
      let same : (r : ApiResult) → Answers view m (returned r m) = λ r. record { kept = v } in
      let stuck : Answers view m undefined = record { kept = v } in
      if-Answers (leb i num_regions)
        (if-Answers (i == num_regions) stuck (
          if-Answers (not (region_lock m i))
            (if-Answers ((m.sm.regions i).owner == owner_untrusted)
              (if-Answers (not m.sm.llc_sync.busy)
                (in_round-Answers monitor_ok (flush i) m (λ n. flush_kept i n) v)
                (same concurrent_call))
              (same invalid_state))
            (same concurrent_call)))
        (same invalid_value)

  pub region_flush_kept :
      (i : ℕ) (m : Machine) → view.holds m → view.holds (after m (region_flush i m))
  region_flush_kept i m v = rw (region_flush-eq-spec i m) (flush_spec-Answers i m v).kept

  set_partitions_kept :
      (copy : ℕ → ℕ) (s : Scan) (m : Machine) → view.holds m → view.holds (set_partitions copy s m)
  unfolding set_partitions
  set_partitions_kept copy s m =
      view.quiet m _ (elsewhere refl refl refl (untouched refl refl refl))

  checked_spec-Answers :
      (copy : ℕ → ℕ) (s : Scan) (m : Machine)
      → view.holds m
      → Answers view m (checked_spec copy s m)
  unfolding checked_spec
  checked_spec-Answers copy s m v =
      let same : (r : ApiResult) → Answers view m (returned r m) = λ r. record { kept = v } in
      let stuck : Answers view m undefined = record { kept = v } in
      if-Answers (leb s.sum 1024)
        (if-Answers (ltb 0 s.idx_first_mod)
          (if-Answers (not m.sm.llc_sync.busy)
            (if-Answers (core_lock m 0) stuck (
              if-Answers (not ((m.sm.cores 0).owner == owner_untrusted))
                (in_round-Answers invalid_state (put_core_lock 0 true) m
                  (λ n. core_lock_kept view 0 true n) v)
                (if-Answers (core_lock m 1) stuck (
                  in_round-Answers monitor_ok (set_partitions copy s) m (set_partitions_kept copy s)
                    v))))
            (same concurrent_call))
          (same invalid_value))
        (same invalid_value)

  scan_spec-Answers :
      (copy : ℕ → ℕ) (r : Option Scan) (m : Machine)
      → view.holds m
      → Answers view m (scan_spec copy r m)
  scan_spec-Answers copy none m v = record { kept = v }
  scan_spec-Answers copy (some s) m v = checked_spec-Answers copy s m v

  partition_spec-Answers :
      (part : ℕ) (m : Machine) → view.holds m → Answers view m (partition_spec part m)
  unfolding partition_spec
  partition_spec-Answers part m v =
      let refused : (r : ApiResult) → Answers view m (returned r m) = λ r. record { kept = v } in
      if-Answers (not (untrusted_lock m))
        (scan_spec-Answers (lgsizes m part)
          (scan_below m.sm.llc_partitions (lgsizes m part) num_regions) m v)
        (refused concurrent_call)

  pub region_cache_partitioning_kept :
      (part : ℕ) (m : Machine)
      → view.holds m
      → view.holds (after m (region_cache_partitioning part m))
  region_cache_partitioning_kept part m v =
      rw (region_cache_partitioning-eq-spec part m) (partition_spec-Answers part m v).kept
