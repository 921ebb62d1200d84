-- ===== src/Enclave/Switch.antt =====
-- src/api/enclave_enter.c, enclave_exit.c, src/handle_enclave/enclave_aex.c and the platform's part in
-- them: a core changes hands between the untrusted system and an enclave's thread.
use security_monitor.Prelude.{
  ℕ, ◌+◌, ◌-◌, ◌*◌, ◌/◌, ◌%◌, ◌^◌, bit_and, bit_or, Bool, true, false, not, ◌&&◌, ltb, leb, ◌==◌,
  if◌then◌else◌, update,
}
use security_monitor.Types.{
  word_mod, num_registers, stack_size, integer_context_size, mentry_frame_size, owner_untrusted,
  ApiResult, RegionMap, ThreadPlatformCsr, EnclaveMetadata, CoreState, ThreadMetadata, Csrs,
  Machine, monitor_ok, invalid_state, concurrent_call,
}
use security_monitor.Address.{addr_to_region_id}
use security_monitor.Call.{
  machine, M, ◌>>=◌, ◌>>◌, modify, check_after, check, Result, run, leave, returned,
}
use security_monitor.Locks.{lock_core, unlock_core, unlock_regions, add_lock_region}
use security_monitor.Metadata.{
  is_ok, add_lock_region_iff_valid_enclave, add_lock_region_iff_valid_thread,
}
use security_monitor.Platform.{regions_to_bitmap, set_thread}
use security_monitor.Mail.{is_initialized}
use security_monitor.Enclave.Load.{Image}

-- `mstatus` for a return to S-mode with traps of `satp` on: the bits 20, 12:11, 7, 1 and 0, as
-- TVM 1, MPP 1, MPIE 0, SIE 1, UIE 0.
unfoldable pub s_mode_status : ℕ → ℕ
s_mode_status x =
    let y = bit_or x 0x100000 in
    let z = bit_or (bit_and y (word_mod - 1 - 0x1800)) (1 * 2 ^ 11) in
    let w = bit_or (bit_and z (word_mod - 1 - 0x80)) 0x2 in bit_and w (word_mod - 1 - 0x1)

-- The swaps of `platform_set_enclave_page_table`, `platform_memory_protection_enter_enclave` and
-- `platform_interrupts_enter_enclave`, for the core's registers and the thread's copy.
unfoldable pub enter_csrs : EnclaveMetadata → Csrs → Csrs
enter_csrs d x = record x {
  meatp = d.platform_csr.eptbr;
  mevbase = d.platform_csr.ev_base;
  mevmask = d.platform_csr.ev_mask;
  memrbm = regions_to_bitmap d.regions;
  meparbase = d.platform_csr.meparbase;
  meparmask = d.platform_csr.meparmask;
  mie = 2 ^ 7;
  mideleg = 0;
  medeleg = 0;
}

unfoldable pub saved_csrs : Csrs → ThreadPlatformCsr
saved_csrs x = record {
  ev_base = x.mevbase;
  ev_mask = x.mevmask;
  memrbm = x.memrbm;
  meparbase = x.meparbase;
  meparmask = x.meparmask;
  eptbr = x.meatp;
  mie = x.mie;
  mideleg = x.mideleg;
  medeleg = x.medeleg;
}

-- `platform_memory_protection_exit_enclave`, `platform_restore_untrusted_page_table` and
-- `platform_interrupts_exit_enclave`.
unfoldable pub exit_csrs : ThreadPlatformCsr → Csrs → Csrs
exit_csrs s x = record x {
  mevbase = s.ev_base;
  mevmask = s.ev_mask;
  memrbm = s.memrbm;
  meparbase = s.meparbase;
  meparmask = s.meparmask;
  meatp = s.eptbr;
  mie = s.mie;
  mideleg = s.mideleg;
  medeleg = s.medeleg;
}

-- The registers, below `NUM_REGISTERS`; the rest of the array is left.
abbrev pub copy_registers : CoreState → CoreState → CoreState
copy_registers from to i = if ltb i num_registers then from i else to i

module _ (image : Image) where
  open image use {trap_vector_from_untrusted, stack_ptr}

  -- The thread's side of an entry.
  unfoldable pub enter_thread : ℕ → CoreState → Csrs → ThreadMetadata → ThreadMetadata
  unfolding saved_csrs
  enter_thread core regs x t = record t {
    untrusted_state = copy_registers regs t.untrusted_state;
    untrusted_pc = x.mepc;
    untrusted_fault_pc = trap_vector_from_untrusted - trap_vector_from_untrusted % 4;
    untrusted_fault_sp = (stack_ptr + word_mod - core * stack_size - mentry_frame_size) % word_mod;
    aex_present = false;
    platform_csr = saved_csrs x;
  }

  -- `regs`, which the return to the enclave restores nothing of.
  unfoldable pub enter_regs : ThreadMetadata → CoreState → CoreState
  enter_regs t regs = copy_registers (if t.aex_present then t.aex_state else (λ _. 0)) regs

  -- The core's lock is dropped inside `platform_memory_protection_enter_enclave`.
  unfoldable pub enter_commit : ℕ → ℕ → ℕ → CoreState → ℕ → Machine → Machine
  unfolding enter_thread enter_csrs s_mode_status
  enter_commit core enclave_id thread_id regs mtime m =
      let d = m.enclaves enclave_id in
      let t = m.threads thread_id in
      let x = m.csrs core in
      let k = m.sm.cores core in
      let y = enter_csrs d x in
      record m {
        sm = record m.sm {
          cores = update m.sm.cores core (record k {
            owner = enclave_id;
            thread = thread_id;
            memrbm = regions_to_bitmap d.regions;
            lock = false;
          });
        };
        threads = update m.threads thread_id (enter_thread core regs x t);
        csrs = update m.csrs core (record y {
          mstatus = s_mode_status x.mstatus;
          mtvec = d.fault_pc;
          mepc = t.entry_pc;
          mscratch =
              (d.fault_sp_base + word_mod - core * stack_size - integer_context_size) % word_mod;
        });
        timecmp = update m.timecmp core ((mtime + t.timer_limit) % word_mod);
      }

  abbrev unlock_regions_core : ℕ → Machine → RegionMap → Machine
  unlock_regions_core core m locked = unlock_core core (unlock_regions m locked)

  -- A refused thread id returns with the enclave's region locked.
  enclave_enter_body : ℕ → ℕ → ℕ → CoreState → ℕ → M ApiResult (Unit {0})
  enclave_enter_body core enclave_id thread_id regs mtime = do
    result ← add_lock_region_iff_valid_enclave enclave_id
    check (is_ok result) result
    m ← machine
    check_after (is_initialized (m.enclaves enclave_id).init_state) unlock_regions invalid_state
    result ← add_lock_region_iff_valid_thread thread_id
    check (is_ok result) result
    check_after (not (m.threads thread_id).is_scheduled) unlock_regions invalid_state
    check_after ((m.threads thread_id).owner == enclave_id) unlock_regions invalid_state
    got ← lock_core core
    check_after got unlock_regions concurrent_call
    modify (enter_commit core enclave_id thread_id regs mtime)
    leave (unlock_regions_core core)

  -- `monitor_ok` stands for the `mret` into the enclave.
  unfoldable pub enclave_enter : ℕ → ℕ → ℕ → CoreState → ℕ → Machine → Result ApiResult
  unfolding enclave_enter_body
  enclave_enter core enclave_id thread_id regs mtime =
      run (enclave_enter_body core enclave_id thread_id regs mtime) monitor_ok

-- The registers that the untrusted system gets back, at `untrusted_fault_sp`.
unfoldable pub exit_commit : ℕ → Bool → Machine → Machine
unfolding exit_csrs s_mode_status
exit_commit core aex_present m =
    let k = m.sm.cores core in
    let t = m.threads k.thread in
    let x = m.csrs core in
    let y = exit_csrs t.platform_csr x in
    record m {
      sm = record m.sm {
        cores =
            update m.sm.cores core
              (record k { owner = owner_untrusted; thread = 0; memrbm = t.platform_csr.memrbm });
      };
      threads = update m.threads k.thread (record t { aex_present = aex_present });
      csrs = update m.csrs core (record y {
        mstatus = s_mode_status x.mstatus;
        mepc = t.untrusted_pc;
        mtvec = t.untrusted_fault_pc;
      });
      words = λ a.
          if leb t.untrusted_fault_sp a
            && ltb a (t.untrusted_fault_sp + 8 * num_registers)
            && ((a - t.untrusted_fault_sp) % 8 == 0)
          then t.untrusted_state ((a - t.untrusted_fault_sp) / 8)
          else m.words a;
    }

perform_enclave_exit_body : ℕ → Bool → M ApiResult (Unit {0})
perform_enclave_exit_body core aex_present = do
  got ← lock_core core
  check got concurrent_call
  m ← machine
  got ← add_lock_region (addr_to_region_id (m.sm.cores core).thread)
  check_after got (λ n l. unlock_core core (unlock_regions n l)) concurrent_call
  modify (exit_commit core aex_present)
  leave (λ n l. unlock_core core (unlock_regions n l))

unfoldable pub perform_enclave_exit : ℕ → Bool → Machine → Result ApiResult
unfolding perform_enclave_exit_body
perform_enclave_exit core aex_present = run (perform_enclave_exit_body core aex_present) monitor_ok

unfoldable pub enclave_exit : ℕ → Machine → Result ApiResult
unfolding perform_enclave_exit
enclave_exit core = perform_enclave_exit core false

-- The save of `sm_internal_enclave_aex`.
unfoldable pub aex_save : ℕ → CoreState → Machine → Machine
aex_save core regs m =
    let id = (m.sm.cores core).thread in
    let t = m.threads id in
    set_thread id (record t { aex_state = copy_registers regs t.aex_state }) m

unfoldable pub enclave_aex_body : ℕ → CoreState → M ApiResult (Unit {0})
enclave_aex_body core regs = do
  m ← machine
  got ← add_lock_region (addr_to_region_id (m.sm.cores core).thread)
  check got concurrent_call
  modify (aex_save core regs)
  leave unlock_regions

-- A result other than `monitor_ok` is the panic of `force_exit_enclave`.
unfoldable pub enclave_aex : ℕ → CoreState → Machine → Result ApiResult
unfolding enclave_aex_body perform_enclave_exit
enclave_aex core regs m = elim (run (enclave_aex_body core regs) monitor_ok m) [
  | returned monitor_ok n ↦ perform_enclave_exit core true n
  | other ↦ other
]
