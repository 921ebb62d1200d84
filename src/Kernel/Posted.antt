-- ===== src/Kernel/Posted.antt =====
-- Which harts an interrupt reaches.
use native.Mathlib.Nat.{pow-suc, div-div-eq-div-mul, zero-div, div-one}
use security_monitor.Prelude.{
  ℕ, zero, suc, ◌+◌, ◌-◌, ◌*◌, ◌/◌, ◌%◌, ◌^◌, ◌<◌, bit_and, bit_or, ◌≡◌, refl, sym, ap, ◌∙◌, inl,
  inr, Bool, true, false, ◌&&◌, some, arith, leb, ◌==◌, if◌then◌else◌, Bool-cases, update,
}
use security_monitor.Types.{CoreState}
use security_monitor.Clib.{◌>>=◌}
use security_monitor.Console.{Console}
use security_monitor.Kernel.{
  Kernel, ipi_soft, post, send_ipi, send_each, send_ipi_many, sent_to, kernel_call,
  delegate_ecall_to_kernel,
}

-- The bit `h` of the mask.
abbrev pub in_mask : ℕ → ℕ → Bool
in_mask mask h = mask / 2 ^ h % 2 == 1

-- The harts of the mask `m`, from `i` on.
abbrev posted_from : ℕ → ℕ → ℕ → Kernel → Kernel
posted_from i m event k = record k {
  harts = λ h. if leb i h && in_mask m (h - i) then post event (k.harts h) else k.harts h;
}

posted_none : (i event : ℕ) (k : Kernel) (h : ℕ) → (posted_from i 0 event k).harts h ≡ k.harts h
posted_none i event k h = rw (zero-div (2 ^ (h - i))) (ground arith)

shifted : (m i h : ℕ) → i < h → m / 2 / 2 ^ (h - (i + 1)) ≡ m / 2 ^ (h - i)
shifted m i h l =
    let next : h - i ≡ suc (h - (i + 1)) = omega arith in
    let power : 2 * 2 ^ (h - (i + 1)) ≡ 2 ^ (h - i) =
      omega (arith, pow-suc 2 (h - (i + 1)), ap (λ (t : ℕ). 2 ^ t) next) in
    div-div-eq-div-mul m 2 (2 ^ (h - (i + 1))) ∙ ap (λ t. m / t) power

lowest : (m i h : ℕ) → i ≡ h → m / 2 ^ (h - i) ≡ m
lowest m i h e = let none_left : h - i ≡ 0 = omega arith in rw none_left (div-one m)

-- One round, where the bit `c` is the lowest.
posted_step :
    (c : Bool) (i m event : ℕ) (k : Kernel) (h : ℕ)
    → c ≡ (m % 2 == 1)
    → (posted_from (i + 1) (m / 2) event (if c then send_ipi i event k else k)).harts h
      ≡ (posted_from i m event k).harts h
posted_step true i m event k h e = ground (arith, shifted m i h, lowest m i h)
posted_step false i m event k h e = ground (arith, shifted m i h, lowest m i h)

posted_round :
    (c : Bool) (i m event : ℕ) (k : Kernel)
    → c ≡ (m % 2 == 1)
    → posted_from (i + 1) (m / 2) event (if c then send_ipi i event k else k)
      ≡ posted_from i m event k
posted_round true i m event k e = λ t. record k { harts = λ h. posted_step true i m event k h e t }
posted_round false i m event k e =
    λ t. record k { harts = λ h. posted_step false i m event k h e t }

posted_nothing : (i m event : ℕ) (k : Kernel) → m ≡ 0 → k ≡ posted_from i m event k
posted_nothing i m event k e = λ t. record k { harts = λ h. none_of h t }
  where
    none_of : (h : ℕ) → k.harts h ≡ (posted_from i m event k).harts h
    none_of h = sym (posted_none i event k h) ∙ ap (λ x. (posted_from i x event k).harts h) (sym e)

send_each-posted :
    (n i m event : ℕ) (k : Kernel)
    → m < 2 ^ n
    → send_each (suc n) i m event k ≡ some (posted_from i m event k)
unfolding send_each
send_each-posted zero i m event k h =
    let empty : m ≡ 0 = omega arith in
    let test : (m == 0) ≡ true = ground arith in
    rw test (ap some (posted_nothing i m event k empty))
send_each-posted (suc n) i m event k h = elim (Bool-cases (m == 0)) [
  | inl e ↦ let empty : m ≡ 0 = ground arith in rw e (ap some (posted_nothing i m event k empty))
  | inr e ↦
      let c : Bool = m % 2 == 1 in
      rw e (
        send_each-posted n (i + 1) (m / 2) event (if c then send_ipi i event k else k)
          (omega (arith, pow-suc 2 n))
        ∙ ap some (posted_round c i m event k refl))
]

-- The harts that a call names: those that there are, and that the mask in the caller's memory has, if
-- it gives one.
abbrev pub named : (ℕ → ℕ) → ℕ → ℕ → ℕ
named load_uintptr pmask hart_mask =
    if pmask == 0 then hart_mask else bit_and hart_mask (load_uintptr pmask)

module _ (others : Kernel → Kernel) (load_uintptr : ℕ → ℕ) (rounds : ℕ) where
  send_ipi_many-soft :
      (pmask : ℕ) (k : Kernel)
      → named load_uintptr pmask k.hart_mask < 2 ^ 64
      → send_ipi_many others load_uintptr rounds pmask ipi_soft k
        ≡ some (posted_from 0 (named load_uintptr pmask k.hart_mask) ipi_soft k)
  unfolding send_ipi_many
  send_ipi_many-soft pmask k h =
      ap (λ o. o >>= λ sent. some sent)
        (send_each-posted 64 0 (named load_uintptr pmask k.hart_mask) ipi_soft k h)

  soft_call :
      (htif_getchar : Console → ℕ × Console) (regs : CoreState) (k : Kernel)
      → regs 17 ≡ 4
      → kernel_call others load_uintptr rounds htif_getchar regs k
        ≡ sent_to others load_uintptr rounds (regs 10) ipi_soft k
  unfolding kernel_call
  soft_call htif_getchar regs k e = rw e refl

all_harts :
    (mask : ℕ) (k : Kernel)
    → posted_from 0 mask ipi_soft k
      ≡ record k { harts = λ h. if in_mask mask h then post ipi_soft (k.harts h) else k.harts h }
all_harts mask k = λ t. record k { harts = λ h. one h t }
  where
    one :
        (h : ℕ)
        → (posted_from 0 mask ipi_soft k).harts h
          ≡ (if in_mask mask h then post ipi_soft (k.harts h) else k.harts h)
    one h = let same : h - 0 ≡ h = omega arith in rw same (ground arith)

-- The call for interrupts between harts ends, with the answer 0; each hart of the mask has the soft
-- interrupt among its pending ones and its interrupt raised, and the others are left alone. The mask is
-- to fit in 64 bits.
pub delegate_ecall_to_kernel-soft :
    (others : Kernel → Kernel) (load_uintptr : ℕ → ℕ) (rounds : ℕ)
    (htif_getchar : Console → ℕ × Console) (regs : CoreState) (k : Kernel)
    → regs 17 ≡ 4
    → named load_uintptr (regs 10) k.hart_mask < 2 ^ 64
    → delegate_ecall_to_kernel others load_uintptr rounds htif_getchar regs k
      ≡ some (
        update regs 10 0,
        record k {
          harts = λ h.
              if in_mask (named load_uintptr (regs 10) k.hart_mask) h
              then record (k.harts h) {
                mipi_pending = bit_or (k.harts h).mipi_pending ipi_soft;
                ipi = 1;
              }
              else k.harts h;
        },
      )
unfolding delegate_ecall_to_kernel
delegate_ecall_to_kernel-soft others load_uintptr rounds htif_getchar regs k e h =
    ap (λ o. o >>= λ r. some (update regs 10 (r.0), r.1))
      (soft_call others load_uintptr rounds htif_getchar regs k e
        ∙ ap (λ o. o >>= λ x. some (0, x))
            (send_ipi_many-soft others load_uintptr rounds (regs 10) k h))
    ∙ ap (λ x. some (update regs 10 0, x)) (all_harts (named load_uintptr (regs 10) k.hart_mask) k)
