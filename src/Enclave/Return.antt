-- ===== src/Enclave/Return.antt =====
-- Leaving an enclave undoes what entering it did to a core.
use security_monitor.Prelude.{ℕ, ◌+◌, ◌*◌, ◌/◌, ◌<◌, ◌≡◌, refl, true, false, arith, ◌==◌}
use security_monitor.Types.{
  num_registers, owner_untrusted, EnclaveMetadata, CoreState, Csrs, Machine,
}
use security_monitor.Enclave.Load.{Image}
use security_monitor.Enclave.Switch.{
  enter_csrs, saved_csrs, exit_csrs, enter_thread, enter_commit, exit_commit,
}

-- What the swaps save is what the writes put back.
csrs-enter-exit : (d : EnclaveMetadata) (x : Csrs) → exit_csrs (saved_csrs x) (enter_csrs d x) ≡ x
unfolding exit_csrs saved_csrs enter_csrs
csrs-enter-exit d x = refl

==_refl : (i : ℕ) → (i == i) ≡ true
==_refl i = ground arith

module _ (image : Image) where
  -- After the changes of an entry and then those of an exit, where all checks of the two calls have
  -- passed, the core is the untrusted system's again and its thread is the number 0; its protection, page
  -- table and interrupt registers and its `mepc` are those from before the entry, the bitmap kept for the
  -- enclave is that of the register before the entry, and each of the program's 32 registers lies in the
  -- frame on the monitor's stack with the value from before the entry.
  pub enter-exit :
      (core e t : ℕ) (regs : CoreState) (mtime : ℕ) (m : Machine)
      → let n = exit_commit core false (enter_commit image core e t regs mtime m) in
        let sp = (n.threads t).untrusted_fault_sp in
        ((n.sm.cores core).owner ≡ owner_untrusted)
        × ((n.sm.cores core).thread ≡ 0)
        × (record (n.csrs core) {
          mstatus = (m.csrs core).mstatus;
          mtvec = (m.csrs core).mtvec;
          mscratch = (m.csrs core).mscratch;
        }
            ≡ m.csrs core)
        × ((n.sm.cores core).memrbm ≡ (m.csrs core).memrbm)
        × ((i : ℕ) → i < num_registers → n.words (sp + 8 * i) ≡ regs i)
  unfolding exit_commit enter_commit enter_thread saved_csrs exit_csrs enter_csrs
  enter-exit core e t regs mtime m = (
    ground arith,
    ground arith,
    rw (==_refl core, ==_refl t) refl,
    rw (==_refl core, ==_refl t) refl,
    λ i h. ground (arith, words_lem i),
  )
    where
      words_lem : (i : ℕ) → 8 * i / 8 ≡ i
      words_lem i = omega arith
