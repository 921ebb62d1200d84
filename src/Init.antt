-- ===== src/Init.antt =====
-- src/init/init.c: what core 0 writes before the other cores run. The console, the device tree, the
-- interrupts to the other cores and the jump to the untrusted system are left out.
use security_monitor.Prelude.{
  ℕ, ◌+◌, ◌-◌, ◌*◌, ◌%◌, ◌<◌, ◌≡◌, Bool, true, false, ◌&&◌, arith, ltb, if◌then◌else◌,
}
use security_monitor.Types.{
  word_mod, num_regions, num_cores, num_untrusted_mailboxes, stack_size, owner_untrusted, owner_sm,
  enclave_thread_none, SmCore, SmRegion, Machine, owned, sm_region, untrusted_region, unused,
}
use security_monitor.Address.{region_id_to_addr}
use security_monitor.Region.Ownership.{Consistent}
use security_monitor.Platform.{put_csrs, platform_update_memory_protection}

abbrev pub sm_last_address : ℕ
sm_last_address = 0x80040000 + 0x3000

unfoldable pub region_doesnt_include_sm : ℕ → Bool
unfolding region_id_to_addr
region_doesnt_include_sm i = ltb sm_last_address (region_id_to_addr i)

abbrev pub hls_size : ℕ
hls_size = 64

-- The loop over the cores; a core's bitmaps are written later.
abbrev pub init_core : ℕ → ℕ → SmCore → SmCore
init_core stack_ptr i k = record k {
  owner = owner_untrusted;
  thread = enclave_thread_none;
  hls_ptr = (stack_ptr + word_mod - i * stack_size - hls_size) % word_mod;
  lock = false;
}

abbrev pub init_region : ℕ → SmRegion → SmRegion
init_region i r =
    let outside = region_doesnt_include_sm i in
    record r {
      owner = if outside then owner_untrusted else owner_sm;
      type = if outside then untrusted_region else sm_region;
      state = owned;
      lock = false;
    }

-- The loops, each of whose rounds writes one entry.
unfoldable pub sm_init : ℕ → Machine → Machine
sm_init stack_ptr m = record m {
  sm = record m.sm {
    cores = λ i. if ltb i num_cores then init_core stack_ptr i (m.sm.cores i) else m.sm.cores i;
    untrusted_regions = λ i.
        if ltb i num_regions && region_doesnt_include_sm i then true else m.sm.untrusted_regions i;
    regions = λ i. if ltb i num_regions then init_region i (m.sm.regions i) else m.sm.regions i;
    untrusted_mailboxes = λ i.
        if ltb i num_untrusted_mailboxes
        then record (m.sm.untrusted_mailboxes i) { state = unused }
        else m.sm.untrusted_mailboxes i;
    llc_partitions = λ i. if ltb i num_regions then 4 else m.sm.llc_partitions i;
    llc_sync = record { waiting = 0; wait = false; left = 0; busy = false; lock = false };
    untrusted_state_lock = false;
  };
}

-- What each core does then: `platform_initialize_memory_protection`, under the two locks.
unfoldable pub initialize_memory_protection : ℕ → Machine → Machine
unfolding platform_update_memory_protection
initialize_memory_protection core m =
    let n = put_csrs core (record (m.csrs core) { mevbase = word_mod - 1; mevmask = 0 }) m in
    platform_update_memory_protection core n

-- From memory in which a region of the RAM is marked neither as the untrusted system's nor as the
-- enclave's, the monitor starts with its table and maps in agreement on that region and enclave.
pub sm_init-Consistent :
    (stack_ptr : ℕ) (m : Machine) (e i : ℕ)
    → i < num_regions
    → m.sm.untrusted_regions i ≡ false
    → (m.enclaves e).regions i ≡ false
    → Consistent (sm_init stack_ptr m) e i
unfolding sm_init
sm_init-Consistent stack_ptr m e i h a b = ground arith
