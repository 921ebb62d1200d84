-- ===== src/Examples/Traps.antt =====
-- Traps on small machines.
use security_monitor.Emulation.{CounterCsrs, illegal_instruction_trap_handler, emulated}
use security_monitor.Emulation.Outcomes.{Allowed, illegal_instruction_trap_handler-Allowed}
use security_monitor.Prelude.{
  ℕ, ◌+◌, ◌*◌, ◌^◌, ◌≡◌, refl, Bool, true, [], ◌==◌, if◌then◌else◌, update,
}
use security_monitor.Types.{CoreState, Machine}
use security_monitor.Crypto.{plain}
use security_monitor.Init.{sm_init}
use security_monitor.Enclave.Load.{Image}
use security_monitor.Dispatch.{take_trap, from_untrusted}
use security_monitor.Isolation.Traps.{Traps}
use security_monitor.Examples.Sample.{zero_machine, or_same}

abbrev image : Image
image = record {
  handler_words = λ _. 0;
  handler_bytes = [];
  size_handler = 8;
  trap_vector_from_untrusted = 0;
  stack_ptr = 0;
}

-- The registers of a call with its first arguments.
abbrev call_regs : ℕ → ℕ → ℕ → CoreState
call_regs number a0 a1 i =
    if i == 17 then number else if i == 10 then a0 else if i == 11 then a1 else 0

abbrev booted : Machine
booted = sm_init 0 zero_machine

abbrev take : ℕ → ℕ → ℕ → Machine → Machine
take number a0 a1 m =
    or_same m (take_trap plain image true 0 0 (from_untrusted (call_regs number a0 a1)) m)

-- An enclave in the metadata region 5 is given the region 6.
abbrev new_enclave : ℕ
new_enclave = 0x8A003000

abbrev served : Machine
served = take 1030 6 new_enclave (
    take 1034 6 0 (
      take 1031 6 0
        (take 1000 new_enclave 0 (take 1035 5 0 (take 1034 5 0 (take 1031 5 0 booted))))))

abbrev served_map : Bool
served_map = (served.enclaves new_enclave).regions 6

-- S-mode sets `satp` by `csrrw a1, satp, a0`.
abbrev counters : CounterCsrs
counters = record {
  satp = 0;
  scounteren = 0;
  mcycle = 1;
  minstret = 2;
  mhpmcounter3 = 3;
  mhpmcounter4 = 4;
  mhpmevent3 = 5;
  mhpmevent4 = 6;
  mtime = 7;
}

abbrev swap_regs : CoreState
swap_regs i = if i == 10 then 8 * 2 ^ 60 + 9 else i

abbrev swap_insn : ℕ
swap_insn = 0x180515F3

abbrev swapped : CoreState
swapped = update swap_regs 11 0

abbrev swapped_csrs : CounterCsrs
swapped_csrs = record counters { satp = 8 * 2 ^ 60 + 9 }

swap_run :
    illegal_instruction_trap_handler swap_insn 0 swap_regs (2 ^ 11) counters
    ≡ emulated swapped swapped_csrs
unfolding illegal_instruction_trap_handler
swap_run = refl

illegal_instruction_trap_handler-Allowed_example :
    Allowed swap_insn (2 ^ 11) swap_regs counters swapped swapped_csrs
illegal_instruction_trap_handler-Allowed_example =
    illegal_instruction_trap_handler-Allowed swap_insn 0 swap_regs (2 ^ 11) counters swapped
      swapped_csrs swap_run
