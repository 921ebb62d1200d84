-- ===== src/Isolation/Switching.antt =====
-- The calls that move a core between the untrusted system and an enclave, and the update of the
-- cores' bitmaps.
use security_monitor.Prelude.{ℕ, refl, inl, Bool, true, false, arith}
use security_monitor.Types.{
  ApiResult, CoreState, Machine, monitor_ok, invalid_value, invalid_state, concurrent_call,
  async_exit, access_denied, unsupported,
}
use security_monitor.Call.{Result, run, after, returned, undefined}
use security_monitor.Platform.{platform_update_memory_protection}
use security_monitor.Region.{region_update}
use security_monitor.Enclave.Load.{Image}
use security_monitor.Enclave.Switch.{
  enter_commit, enclave_enter, exit_commit, perform_enclave_exit, enclave_exit, aex_save,
  enclave_aex_body, enclave_aex,
}
use security_monitor.Isolation.{
  View, same_cores, elsewhere, Sound, bind-Keeping, machine-Keeping, run-Keeping, Quiet-Sound,
}
use security_monitor.Isolation.Locking.{
  unlock_core-Sound, unlock_regions-Sound, unlock_untrusted-Sound, nothing-Sound, compose-Sound,
  lock_core-Keeping, lock_untrusted_state-Keeping, add_lock_region-Keeping, valid_metadata-Keeping,
  check_then, commit_then,
}
use security_monitor.Isolation.Leading.{Step, Weaker, bind-Leads, check_or, commit-Leads, run-Leads}

-- A call that faults is taken to leave the machine from which the whole has started.
from_start :
    (q : View) (m n : Machine) (r : Result ApiResult)
    → q.holds m
    → q.holds (after n r)
    → q.holds (after m r)
from_start q m n (returned s x) v u = u
from_start q m n undefined v u = v

aex_save-Sound : {p : View} (core : ℕ) (regs : CoreState) → Sound p (aex_save core regs)
unfolding aex_save
aex_save-Sound core regs =
    Quiet-Sound (λ m. elsewhere refl refl refl (same_cores refl refl (λ t. inl (ground arith))))

module _ {p q : View} (w : Weaker p q) where
  module _ (image : Image) where
    pub enclave_enter_leads :
        (core e t : ℕ) (regs : CoreState) (mtime : ℕ) (m : Machine)
        → Step p q (enter_commit image core e t regs mtime)
        → p.holds m
        → q.holds (after m (enclave_enter image core e t regs mtime m))
    unfolding enclave_enter
    enclave_enter_leads core e t regs mtime m s =
        let scheduled = bind-Leads w (lock_core-Keeping core) (λ got.
          check_or w _ _ unlock_regions-Sound
            (commit-Leads s (compose-Sound unlock_regions-Sound (unlock_core-Sound core)))) in
        run-Leads w monitor_ok m (
          bind-Leads w (valid_metadata-Keeping _ _) (λ r. check_or w _ _ nothing-Sound (
            bind-Leads w machine-Keeping (λ n. check_or w _ _ unlock_regions-Sound (
              bind-Leads w (valid_metadata-Keeping _ _) (λ s. check_or w _ _ nothing-Sound (
                check_or w _ _ unlock_regions-Sound
                  (check_or w _ _ unlock_regions-Sound scheduled))))))))

  perform_enclave_exit_leads :
      (core : ℕ) (aex : Bool) (m : Machine)
      → Step p q (exit_commit core aex)
      → p.holds m
      → q.holds (after m (perform_enclave_exit core aex m))
  unfolding perform_enclave_exit
  perform_enclave_exit_leads core aex m s = run-Leads w monitor_ok m (
      bind-Leads w (lock_core-Keeping core) (λ got. check_or w _ _ nothing-Sound (
        bind-Leads w machine-Keeping (λ n. bind-Leads w (add_lock_region-Keeping _) (λ r.
          check_or w _ _ (compose-Sound unlock_regions-Sound (unlock_core-Sound core))
            (commit-Leads s (compose-Sound unlock_regions-Sound (unlock_core-Sound core))))))))

  pub enclave_exit_leads :
      (core : ℕ) (m : Machine)
      → Step p q (exit_commit core false)
      → p.holds m
      → q.holds (after m (enclave_exit core m))
  unfolding enclave_exit
  enclave_exit_leads core m = perform_enclave_exit_leads core false m

  then_exit :
      (core : ℕ) (m : Machine) (r : Result ApiResult)
      → Step p q (exit_commit core true)
      → p.holds m
      → p.holds (after m r)
      → q.holds (
          after m
            (elim r [ returned monitor_ok n ↦ perform_enclave_exit core true n | other ↦ other ]))
  then_exit core m (returned monitor_ok n) s u v =
      from_start q m n (perform_enclave_exit core true n) (w m u)
        (perform_enclave_exit_leads core true n s v)
  then_exit core m (returned invalid_value n) s u v = w n v
  then_exit core m (returned invalid_state n) s u v = w n v
  then_exit core m (returned concurrent_call n) s u v = w n v
  then_exit core m (returned async_exit n) s u v = w n v
  then_exit core m (returned access_denied n) s u v = w n v
  then_exit core m (returned unsupported n) s u v = w n v
  then_exit core m undefined s u v = w m u

  pub enclave_aex_leads :
      (core : ℕ) (regs : CoreState) (m : Machine)
      → Step p q (exit_commit core true)
      → p.holds m
      → q.holds (after m (enclave_aex core regs m))
  unfolding enclave_aex enclave_aex_body
  enclave_aex_leads core regs m s v =
      then_exit core m (run (enclave_aex_body core regs) monitor_ok m) s v (
        run-Keeping {view = p} monitor_ok m
          (bind-Keeping machine-Keeping (λ n. bind-Keeping (add_lock_region-Keeping _) (λ r.
            check_then _ _ nothing-Sound
              (commit_then (aex_save-Sound core regs) unlock_regions-Sound))))
          v)

module _ (view : View) where
  pub region_update_kept :
      (core : ℕ) (m : Machine)
      → Sound view (platform_update_memory_protection core)
      → view.holds m
      → view.holds (after m (region_update core m))
  unfolding region_update
  region_update_kept core m p = run-Keeping {view = view} monitor_ok m (
      bind-Keeping lock_untrusted_state-Keeping (λ got. check_then _ _ nothing-Sound (
        bind-Keeping (lock_core-Keeping core) (λ r.
          check_then _ _ unlock_untrusted-Sound
            (commit_then p (compose-Sound (unlock_core-Sound core) unlock_untrusted-Sound))))))
