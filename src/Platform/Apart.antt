-- ===== src/Platform/Apart.antt =====
-- The updates of the platform neither read nor write a lock.
use security_monitor.Prelude.{ℕ, ◌≡◌, refl, fun_ext, Bool, ◌||◌, arith}
use security_monitor.Types.{SmRegion}
use security_monitor.Locks.{set_region, region_lock}
use security_monitor.Platform.{
  platform_update_memory_protection, platform_update_untrusted_regions,
  platform_update_enclave_regions,
}
use security_monitor.Locks.Held.{hold, Machine-eq}
use security_monitor.Locks.Commit.{Apart}

pub update_memory_protection-Apart : (core : ℕ) → Apart (platform_update_memory_protection core)
unfolding platform_update_memory_protection hold
update_memory_protection-Apart core = record {
  under = λ l u c m.
      Machine-eq (platform_update_memory_protection core m) refl (fun_ext λ j. ground arith) refl;
  regions = λ m j. refl;
  cores = λ m j. ground arith;
  untrusted = λ m. refl;
}

pub update_untrusted_regions-Apart :
    (core i : ℕ) (flag : Bool) → Apart (platform_update_untrusted_regions core i flag)
unfolding platform_update_untrusted_regions hold
update_untrusted_regions-Apart core i flag = record {
  under = λ l u c m.
      Machine-eq (platform_update_untrusted_regions core i flag m) refl (fun_ext λ j. ground arith)
        refl;
  regions = λ m j. refl;
  cores = λ m j. ground arith;
  untrusted = λ m. refl;
}

pub update_enclave_regions-Apart :
    (core e i : ℕ) (flag : Bool) → Apart (platform_update_enclave_regions core e i flag)
unfolding platform_update_enclave_regions hold
update_enclave_regions-Apart core e i flag = record {
  under = λ l u c m.
      Machine-eq (platform_update_enclave_regions core e i flag m) refl (fun_ext λ j. ground arith)
        refl;
  regions = λ m j. refl;
  cores = λ m j. ground arith;
  untrusted = λ m. refl;
}

-- Nor does a write of a region's other fields.
pub put_region-Apart :
    (i : ℕ) (f : SmRegion → SmRegion)
    → ((r : SmRegion) (b : Bool) → f (record r { lock = b }) ≡ record (f r) { lock = b })
    → ((r : SmRegion) → (f r).lock ≡ r.lock)
    → Apart (λ m. set_region i (f (m.sm.regions i)) m)
unfolding hold
put_region-Apart i f across same = record {
  under = λ l u c m.
      Machine-eq (set_region i (f (m.sm.regions i)) m)
        (fun_ext λ j.
          ground (arith, across (m.sm.regions i) (l i || region_lock m i), same (m.sm.regions i)))
        refl refl;
  regions = λ m j. ground (arith, same (m.sm.regions i));
  cores = λ m j. refl;
  untrusted = λ m. refl;
}
