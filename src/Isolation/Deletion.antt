-- ===== src/Isolation/Deletion.antt =====
-- The deletion of an enclave.
use security_monitor.Prelude.{ℕ, zero, suc, ◌≡◌, inl, inr, true, arith, Bool-cases, update}
use security_monitor.Types.{
  num_regions, ApiResult, MetadataPage, RegionMap, Machine, zero_enclave, monitor_ok, invalid_state,
}
use security_monitor.Address.{addr_to_region_id}
use security_monitor.Call.{M, after}
use security_monitor.Region.{unlock_core_untrusted_regions, erase_region}
use security_monitor.Enclave.{
  lock_flagged, block_region, block_flagged, delete_enclave_commit, enclave_delete,
}
use security_monitor.Isolation.{
  View, Agrees, agreement, Keeping, Sound, SoundWith, bind-Keeping, seq-Keeping, if-Keeping,
  machine-Keeping, run-Keeping,
}
use security_monitor.Isolation.Locking.{
  unlock_core-Sound, unlock_regions-Sound, unlock_untrusted-Sound, nothing-Sound, compose-Sound,
  lock_region-Keeping, lock_core-Keeping, lock_untrusted_state-Keeping, mark_locked-Keeping,
  valid_metadata-Keeping, check_then, commit_then,
}

module _ {j : ℕ} where
  -- A round of the loop over the regions of the enclave.
  pub block_one :
      (e i : ℕ) (m : Machine)
      → (m.enclaves e).regions i ≡ true
      → Agrees j m
      → Agrees j (erase_region (addr_to_region_id e) (block_region i m))
  unfolding erase_region
  block_one e i m h v x = ground (arith, v x, v e)

  block_flagged_kept : (e i n : ℕ) (m : Machine) → Agrees j m → Agrees j (block_flagged e i n m)
  unfolding block_flagged
  block_flagged_kept e i zero m v = v
  block_flagged_kept e i (suc n) m v = elim (Bool-cases ((m.enclaves e).regions i)) [
    | inl h ↦ rw h (block_flagged_kept e (suc i) n _ (block_one e i m h v))
    | inr h ↦ rw h (block_flagged_kept e (suc i) n m v)
  ]

  pub cleared :
      (e : ℕ) (m : Machine) (info : ℕ → ℕ → MetadataPage)
      → Agrees j m
      → Agrees j (record m { page_info = info; enclaves = update m.enclaves e zero_enclave })
  cleared e m info v x = ground (arith, v x)

  pub delete_enclave_commit-Sound : (e : ℕ) → Sound (agreement j) (delete_enclave_commit e)
  unfolding delete_enclave_commit
  delete_enclave_commit-Sound e = record {
    keeps = λ m v. cleared e _ _ (block_flagged_kept e 0 num_regions m v);
  }

module _ (view : View) where
  lock_flagged-Keeping :
      (flags : RegionMap) (i n : ℕ) (rest : M ApiResult (Unit {0}))
      → Keeping view rest
      → Keeping view (lock_flagged flags i n rest)
  unfolding lock_flagged
  lock_flagged-Keeping flags i zero rest p = p
  lock_flagged-Keeping flags i (suc n) rest p =
      if-Keeping (flags i)
        (bind-Keeping (lock_region-Keeping i) (λ got.
          check_then _ _ unlock_regions-Sound
            (seq-Keeping (mark_locked-Keeping i) (lock_flagged-Keeping flags (suc i) n rest p))))
        (lock_flagged-Keeping flags (suc i) n rest p)

  all_unlocked-Sound : (core : ℕ) → SoundWith view (unlock_core_untrusted_regions core)
  all_unlocked-Sound core =
      compose-Sound (compose-Sound (unlock_core-Sound core) unlock_untrusted-Sound)
        unlock_regions-Sound

  pub enclave_delete_kept :
      (core e : ℕ) (m : Machine)
      → Sound view (delete_enclave_commit e)
      → view.holds m
      → view.holds (after m (enclave_delete core e m))
  unfolding enclave_delete
  enclave_delete_kept core e m p =
      let locked = bind-Keeping lock_untrusted_state-Keeping (λ got.
        check_then got invalid_state unlock_regions-Sound (
          bind-Keeping (lock_core-Keeping core) (λ r.
            check_then r invalid_state (compose-Sound unlock_untrusted-Sound unlock_regions-Sound)
              (commit_then p (all_unlocked-Sound core))))) in
      run-Keeping {view = view} monitor_ok m (
        bind-Keeping (valid_metadata-Keeping _ _) (λ s. check_then _ _ nothing-Sound (
          bind-Keeping machine-Keeping (λ n.
            check_then _ _ unlock_regions-Sound
              (lock_flagged-Keeping (n.enclaves e).regions 0 num_regions _ locked)))))
