-- ===== src/Emulation/Outcomes.antt =====
-- What an emulated instruction can do.
use security_monitor.Prelude.{
  ℕ, ◌/◌, ◌%◌, ◌^◌, ◌≡◌, refl, sym, ap, ◌∙◌, ◌≢◌, ◌⊎◌, inl, inr, Bool, true, false, ◌&&◌, Option,
  none, some, arith, ◌==◌, if◌then◌else◌, Bool-cases, update,
}
use security_monitor.Types.{CoreState}
use security_monitor.Enclave.Load.{bit}
use security_monitor.Emulation.{
  CounterCsrs, csr_cycle, csr_time, csr_instret, csr_mhpmcounter3, csr_mhpmcounter4, previous_mode,
  emulate_read_csr, emulate_write_csr, funct3_field, funct7_field, rd_field, csr_field, write_back,
  with_new, with_old, emulate_system_opcode, illegal_instruction_trap_handler, emulated,
}

-- `satp` stays, or S-mode sets it to an address in the mode Sv39.
abbrev SatpGuarded : ℕ → CounterCsrs → CounterCsrs → Type 0
SatpGuarded mstatus c d = (d.satp ≡ c.satp) ⊎ ((previous_mode mstatus ≡ 1) × (d.satp / 2 ^ 60 ≡ 8))

emulate_write_csr-guarded :
    (num value mstatus : ℕ) (c d : CounterCsrs)
    → emulate_write_csr num value mstatus c ≡ some d
    → SatpGuarded mstatus c d
unfolding emulate_write_csr
emulate_write_csr-guarded num value mstatus c d h = ground arith

-- What the register `k` reads as in S-mode, where nothing is hidden.
abbrev seen : ℕ → CounterCsrs → Option ℕ
seen k c = emulate_read_csr k (2 ^ 11) c

-- The number of a counter, which is its bit in `scounteren`.
abbrev pub counter_number : ℕ → Option ℕ
counter_number num =
    if num == csr_cycle
    then some 0
    else if num == csr_time
    then some 1
    else if num == csr_instret
    then some 2
    else if num == csr_mhpmcounter3
    then some 3
    else if num == csr_mhpmcounter4
    then some 4
    else none

-- A counter is for S-mode and above, and for U-mode where `scounteren` has its bit.
abbrev pub CounterAllowed : ℕ → ℕ → CounterCsrs → Type 0
CounterAllowed num mstatus c =
    (n : ℕ)
    → counter_number num ≡ some n
    → (previous_mode mstatus ≢ 0) ⊎ (bit c.scounteren n ≡ true)

emulate_read_csr-CounterAllowed :
    (num mstatus old : ℕ) (c : CounterCsrs)
    → emulate_read_csr num mstatus c ≡ some old
    → CounterAllowed num mstatus c
unfolding emulate_read_csr
emulate_read_csr-CounterAllowed num mstatus old c h n e = ground arith

-- An outcome that is allowed: the guard on `satp`, and only the registers that the instruction names
-- may change; a fence changes nothing, and any other instruction leaves what the control register reads
-- as in its destination, which for a counter takes the leave of `scounteren` in U-mode.
pub record Allowed (insn mstatus : ℕ) (regs : CoreState) (c : CounterCsrs) (r : CoreState)
    (d : CounterCsrs) : Type 0 where
  pub guarded : SatpGuarded mstatus c d
  pub others : (k : ℕ) → k ≢ csr_field insn → seen k d ≡ seen k c
  pub kept : (j : ℕ) → j ≢ rd_field insn → r j ≡ regs j
  pub old_value :
      ((r ≡ regs) × (d ≡ c))
      ⊎ ((emulate_read_csr (csr_field insn) mstatus c ≡ some (r (rd_field insn)))
          × CounterAllowed (csr_field insn) mstatus c)

emulate_write_csr-others :
    (num value mstatus k : ℕ) (c d : CounterCsrs)
    → emulate_write_csr num value mstatus c ≡ some d
    → k ≢ num
    → seen k d ≡ seen k c
unfolding emulate_write_csr emulate_read_csr
emulate_write_csr-others num value mstatus k c d h n = ground arith

module _ (insn mstatus : ℕ) (regs r : CoreState) (c d : CounterCsrs) where
  written : (old : ℕ) → old ≡ update regs (rd_field insn) old (rd_field insn)
  written old = ground arith

  write_back-Allowed :
      (old : ℕ) (w : Option CounterCsrs)
      → emulate_read_csr (csr_field insn) mstatus c ≡ some old
      → ((x : CounterCsrs) → w ≡ some x → SatpGuarded mstatus c x)
      → ((x : CounterCsrs) → w ≡ some x → (k : ℕ) → k ≢ csr_field insn → seen k x ≡ seen k c)
      → write_back insn regs old w ≡ emulated r d
      → Allowed insn mstatus regs c r d
  write_back-Allowed old none v g o h = absurd (ground arith)
  write_back-Allowed old (some x) v g o h =
      let p : update regs (rd_field insn) old ≡ r = ground arith in
      let q : x ≡ d = ground arith in
      rw (← p, ← q)
        (record {
          guarded = g x refl;
          others = o x refl;
          kept = λ j n. ground arith;
          old_value =
              inr (v ∙ ap some (written old), emulate_read_csr-CounterAllowed _ mstatus old c v);
        })

  with_new-Allowed :
      (old : ℕ) (v : Option (ℕ × Bool))
      → emulate_read_csr (csr_field insn) mstatus c ≡ some old
      → with_new insn regs mstatus c old v ≡ emulated r d
      → Allowed insn mstatus regs c r d
  with_new-Allowed old none u h = absurd (ground arith)
  with_new-Allowed old (some (value, true)) u h =
      write_back-Allowed old (emulate_write_csr (csr_field insn) value mstatus c) u
        (λ x e. emulate_write_csr-guarded _ value mstatus c x e)
        (λ x e k n. emulate_write_csr-others _ value mstatus k c x e n) h
  with_new-Allowed old (some (value, false)) u h =
      write_back-Allowed old (some c) u (λ x e. inl (ap (λ y. y.satp) (sym (some_inj e))))
        (λ x e k n. ap (seen k) (sym (some_inj e))) h
    where
      some_inj : {x : CounterCsrs} → some c ≡ some x → c ≡ x
      some_inj e = ground arith

  with_old-Allowed :
      (v : Option ℕ)
      → emulate_read_csr (csr_field insn) mstatus c ≡ v
      → with_old insn regs mstatus c v ≡ emulated r d
      → Allowed insn mstatus regs c r d
  with_old-Allowed none u h = absurd (ground arith)
  with_old-Allowed (some old) u h = with_new-Allowed old _ u h

  emulate_system_opcode-Allowed :
      emulate_system_opcode insn regs mstatus c ≡ emulated r d → Allowed insn mstatus regs c r d
  unfolding emulate_system_opcode
  emulate_system_opcode-Allowed h =
      elim (Bool-cases (funct3_field insn == 0 && funct7_field insn == 9)) [
        | inr e ↦
            with_old-Allowed (emulate_read_csr (csr_field insn) mstatus c) refl (rw (← h, e) refl)
        | inl e ↦ fenced (ground arith) (ground arith)
      ]
    where
      fenced : regs ≡ r → c ≡ d → Allowed insn mstatus regs c r d
      fenced p q =
          rw (← p, ← q)
            (record {
              guarded = inl refl;
              others = λ k n. refl;
              kept = λ j n. refl;
              old_value = inl (refl, refl);
            })

-- Where the handler of illegal instructions goes on, `satp` is as it was, or S-mode has set it to a
-- value in the mode Sv39; no other control register than the instruction's and no other register than
-- its destination has changed; and either nothing has changed at all, as after a fence, or the
-- destination has the former value of the control register. U-mode gets a counter only where
-- `scounteren` has the counter's bit; `satp` and the event selectors it gets without leave.
pub illegal_instruction_trap_handler-Allowed :
    (mtval fetched : ℕ) (regs : CoreState) (mstatus : ℕ) (c : CounterCsrs) (r : CoreState)
    (d : CounterCsrs)
    → illegal_instruction_trap_handler mtval fetched regs mstatus c ≡ emulated r d
    → Allowed (if mtval == 0 then fetched else mtval) mstatus regs c r d
unfolding illegal_instruction_trap_handler
illegal_instruction_trap_handler-Allowed mtval fetched regs mstatus c r d h =
    let insn = if mtval == 0 then fetched else mtval in
    elim (Bool-cases (insn % 2 ^ 7 == 0x73)) [
      | inl e ↦ emulate_system_opcode-Allowed insn mstatus regs r c d (ground arith)
      | inr e ↦ absurd (ground arith)
    ]
