-- ===== src/Isolation/Agreement.antt =====
-- The calls that are not quiet keep the table and the maps in agreement.
use security_monitor.Prelude.{ℕ, ◌<◌, refl, Bool, false}
use security_monitor.Types.{num_cores, CoreState, Machine}
use security_monitor.Enclave.Load.{Image}
use security_monitor.Enclave.Switch.{enter_commit, exit_commit}
use security_monitor.Platform.{platform_update_memory_protection}
use security_monitor.Region.Ownership.{call-Consistent, block}
use security_monitor.Region.Untouched.{Same-Consistent}
use security_monitor.Isolation.{Agrees, agreement, Sound}
use security_monitor.Isolation.Leading.{Step}
use security_monitor.Isolation.Switching.{
  enclave_enter_leads, enclave_exit_leads, region_update_kept,
}
use security_monitor.Isolation.Deletion.{delete_enclave_commit-Sound, enclave_delete_kept}
use security_monitor.Isolation.Handlers.{UntrustedCalls, EnclaveCalls}

module _ {j : ℕ} where
  pub enter-Step :
      (image : Image) (core e t : ℕ) (regs : CoreState) (mtime : ℕ)
      → Step (agreement j) (agreement j) (enter_commit image core e t regs mtime)
  unfolding enter_commit
  enter-Step image core e t regs mtime = record {
    steps = λ m v x.
        Same-Consistent m _ x j
          (record { owner = refl; type = refl; state = refl; untrusted = refl; flags = refl })
          (v x);
  }

  pub exit-Step : (core : ℕ) (aex : Bool) → Step (agreement j) (agreement j) (exit_commit core aex)
  unfolding exit_commit
  exit-Step core aex = record {
    steps = λ m v x.
        Same-Consistent m _ x j
          (record { owner = refl; type = refl; state = refl; untrusted = refl; flags = refl })
          (v x);
  }

  pub update-Sound : (core : ℕ) → Sound (agreement j) (platform_update_memory_protection core)
  unfolding platform_update_memory_protection
  update-Sound core = record {
    keeps = λ m v x.
        Same-Consistent m _ x j
          (record { owner = refl; type = refl; state = refl; untrusted = refl; flags = refl })
          (v x);
  }

  pub agreement-UntrustedCalls :
      (image : Image) (core mtime : ℕ) (regs : CoreState) (m : Machine)
      → Agrees j m
      → UntrustedCalls (agreement j) image core mtime regs m
  agreement-UntrustedCalls image core mtime regs m v = record {
    on_region = λ r p x. call-Consistent r m x j p (v x);
    updates = region_update_kept (agreement j) core m (update-Sound core) v;
    deletes = λ e. enclave_delete_kept (agreement j) core e m (delete_enclave_commit-Sound e) v;
    enters = λ e t.
        enclave_enter_leads (λ n h. h) image core e t regs mtime m
          (enter-Step image core e t regs mtime) v;
  }

  pub agreement-EnclaveCalls :
      (core : ℕ) (m : Machine) → core < num_cores → Agrees j m → EnclaveCalls (agreement j) core m
  agreement-EnclaveCalls core m h v = record {
    blocks = λ i x. call-Consistent (block core i) m x j h (v x);
    exits = enclave_exit_leads (λ n k. k) core m (exit-Step core false) v;
  }
