-- ===== src/Emulation.antt =====
-- src/kernel/handler_illegal_insn.c: the instructions on control registers that the monitor carries
-- out for a program to which the hardware refuses them.
pub mod Outcomes
use security_monitor.Prelude.{
  ℕ, ◌-◌, ◌/◌, ◌%◌, ◌^◌, bit_and, bit_or, Bool, true, not, ◌&&◌, ◌||◌, Option, none, some, ◌==◌,
  if◌then◌else◌, update,
}
use security_monitor.Types.{word_mod, CoreState}
use security_monitor.Enclave.Load.{bit}

-- The control registers that it touches, and the memory-mapped time.
pub record CounterCsrs : Type 0 where
  pub satp : ℕ
  pub scounteren : ℕ
  pub mcycle : ℕ
  pub minstret : ℕ
  pub mhpmcounter3 : ℕ
  pub mhpmcounter4 : ℕ
  pub mhpmevent3 : ℕ
  pub mhpmevent4 : ℕ
  pub mtime : ℕ

abbrev pub csr_satp : ℕ
csr_satp = 0x180

abbrev pub csr_cycle : ℕ
csr_cycle = 0xc00

abbrev pub csr_time : ℕ
csr_time = 0xc01

abbrev pub csr_instret : ℕ
csr_instret = 0xc02

abbrev pub csr_mhpmcounter3 : ℕ
csr_mhpmcounter3 = 0xb03

abbrev pub csr_mhpmcounter4 : ℕ
csr_mhpmcounter4 = 0xb04

abbrev pub csr_mhpmevent3 : ℕ
csr_mhpmevent3 = 0x323

abbrev pub csr_mhpmevent4 : ℕ
csr_mhpmevent4 = 0x324

-- `EXTRACT_FIELD(mstatus, MSTATUS_MPP)`: 0 is U-mode, 1 is S-mode.
abbrev pub previous_mode : ℕ → ℕ
previous_mode mstatus = mstatus / 2 ^ 11 % 4

-- The value, or `none` for -1. `counteren` is all ones but in U-mode.
unfoldable pub emulate_read_csr : ℕ → ℕ → CounterCsrs → Option ℕ
emulate_read_csr num mstatus c =
    let enabled : ℕ → Bool = λ n. not (previous_mode mstatus == 0) || bit c.scounteren n in
    if num == csr_satp
    then some c.satp
    else if num == csr_cycle
    then (if enabled 0 then some c.mcycle else none)
    else if num == csr_time
    then (if enabled 1 then some c.mtime else none)
    else if num == csr_instret
    then (if enabled 2 then some c.minstret else none)
    else if num == csr_mhpmcounter3
    then (if enabled 3 then some c.mhpmcounter3 else none)
    else if num == csr_mhpmcounter4
    then (if enabled 4 then some c.mhpmcounter4 else none)
    else if num == csr_mhpmevent3
    then some c.mhpmevent3
    else if num == csr_mhpmevent4
    then some c.mhpmevent4
    else none

-- The registers after a write; `none` is -1 or the failure of the assertion, which both end in a panic.
unfoldable pub emulate_write_csr : ℕ → ℕ → ℕ → CounterCsrs → Option CounterCsrs
emulate_write_csr num value mstatus c =
    if num == csr_satp
    then (if not (previous_mode mstatus == 1)
        then none
        else if value / 2 ^ 60 == 8
        then some (record c { satp = value })
        else some c)
    else if num == csr_cycle
    then some (record c { mcycle = value })
    else if num == csr_instret
    then some (record c { minstret = value })
    else if num == csr_mhpmcounter3
    then some (record c { mhpmcounter3 = value })
    else if num == csr_mhpmcounter4
    then some (record c { mhpmcounter4 = value })
    else if num == csr_mhpmevent3
    then some (record c { mhpmevent3 = value })
    else if num == csr_mhpmevent4
    then some (record c { mhpmevent4 = value })
    else none

abbrev pub funct3_field : ℕ → ℕ
funct3_field insn = insn / 2 ^ 12 % 8

abbrev pub funct7_field : ℕ → ℕ
funct7_field insn = insn / 2 ^ 25 % 2 ^ 7

abbrev pub rd_field : ℕ → ℕ
rd_field insn = insn / 2 ^ 7 % 32

abbrev pub rs1_field : ℕ → ℕ
rs1_field insn = insn / 2 ^ 15 % 32

abbrev pub csr_field : ℕ → ℕ
csr_field insn = insn % 2 ^ 32 / 2 ^ 20

-- The `switch`: the new value of the register, and whether it is written; `none` is a panic.
unfoldable pub new_csr : ℕ → ℕ → ℕ → ℕ → Option (ℕ × Bool)
new_csr funct3 csr_val rs1_val rs1_num =
    let wanted = not (rs1_num == 0) in
    if funct3 == 1
    then some (rs1_val, true)
    else if funct3 == 2
    then some (bit_or csr_val rs1_val, wanted)
    else if funct3 == 3
    then some (bit_and csr_val (word_mod - 1 - rs1_val), wanted)
    else if funct3 == 5
    then some (rs1_num, true)
    else if funct3 == 6
    then some (bit_or csr_val rs1_num, wanted)
    else if funct3 == 7
    then some (bit_and csr_val (word_mod - 1 - rs1_num), wanted)
    else none

-- The program goes on, or the monitor panics.
pub data Emulated : Type 0 where
  emulated : CoreState → CounterCsrs → Emulated
  panicked : Emulated

abbrev pub write_back : ℕ → CoreState → ℕ → Option CounterCsrs → Emulated
write_back insn regs csr_val none = panicked
write_back insn regs csr_val (some d) = emulated (update regs (rd_field insn) csr_val) d

abbrev pub with_new : ℕ → CoreState → ℕ → CounterCsrs → ℕ → Option (ℕ × Bool) → Emulated
with_new insn regs mstatus c csr_val none = panicked
with_new insn regs mstatus c csr_val (some (value, do_write)) =
    write_back insn regs csr_val
      (if do_write then emulate_write_csr (csr_field insn) value mstatus c else some c)

abbrev pub with_old : ℕ → CoreState → ℕ → CounterCsrs → Option ℕ → Emulated
with_old insn regs mstatus c none = panicked
with_old insn regs mstatus c (some csr_val) =
    with_new insn regs mstatus c csr_val
      (new_csr (funct3_field insn) csr_val (regs (rs1_field insn)) (rs1_field insn))

unfoldable pub emulate_system_opcode : ℕ → CoreState → ℕ → CounterCsrs → Emulated
unfolding emulate_read_csr emulate_write_csr new_csr
emulate_system_opcode insn regs mstatus c =
    if funct3_field insn == 0 && funct7_field insn == 9
    then (if previous_mode mstatus == 1 then emulated regs c else panicked)
    else with_old insn regs mstatus c (emulate_read_csr (csr_field insn) mstatus c)

-- `mtval` is the instruction or 0, and then it is fetched from the program's memory.
unfoldable pub illegal_instruction_trap_handler : ℕ → ℕ → CoreState → ℕ → CounterCsrs → Emulated
unfolding emulate_system_opcode
illegal_instruction_trap_handler mtval fetched regs mstatus c =
    let insn = if mtval == 0 then fetched else mtval in
    if insn % 2 ^ 7 == 0x73 then emulate_system_opcode insn regs mstatus c else panicked
