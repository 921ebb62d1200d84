-- ===== src/Kernel.antt =====
-- src/kernel/mcall.c and mcall_enclave.c: the calls that the untrusted system, or an enclave that is
-- debugged, makes for timers, the console and interrupts between the harts. What the other harts do
-- while one waits for them is a parameter, and so are the program's memory and the console's input.
pub mod Posted
use security_monitor.Prelude.{
  ℕ, zero, suc, ◌+◌, ◌-◌, ◌*◌, ◌/◌, ◌%◌, ◌^◌, bit_and, bit_or, Option, none, some, ◌==◌,
  if◌then◌else◌, update,
}
use security_monitor.Types.{code, CoreState}
use security_monitor.Clib.{◌>>=◌}
use security_monitor.Console.{Console, console_putchar, console_getchar}

-- `hls_t`, without the addresses of the interrupt controller.
pub record Hart : Type 0 where
  pub ipi : ℕ
  pub mipi_pending : ℕ
  pub timecmp : ℕ

pub record Kernel : Type 0 where
  pub self : ℕ
  pub hart_mask : ℕ
  pub harts : ℕ → Hart
  pub mip : ℕ
  pub mie : ℕ
  pub tohost : ℕ
  pub console : Console

abbrev pub ipi_soft : ℕ
ipi_soft = 0x1

abbrev pub ipi_fence_i : ℕ
ipi_fence_i = 0x2

abbrev pub ipi_sfence_vma : ℕ
ipi_sfence_vma = 0x4

abbrev pub post : ℕ → Hart → Hart
post event h = record h { mipi_pending = bit_or h.mipi_pending event; ipi = 1 }

abbrev pub send_ipi : ℕ → ℕ → Kernel → Kernel
send_ipi recipient event k = record k {
  harts = update k.harts recipient (post event (k.harts recipient));
}

-- The loop that sends, from the hart `i` on, with the rest `m` of the mask.
unfoldable pub send_each : ℕ → ℕ → ℕ → ℕ → Kernel → Option Kernel
send_each zero i m event k = none
send_each (suc n) i m event k =
    let rest = send_each n (i + 1) (m / 2) event (if m % 2 == 1 then send_ipi i event k else k) in
    if m == 0 then some k else rest

-- The interrupts that a hart takes from itself while it waits.
pub record Waiting : Type 0 where
  pub incoming : ℕ
  pub kernel : Kernel

module _ (others : Kernel → Kernel) where
  -- `while (*OTHER_HLS(i)->ipi) incoming_ipi |= atomic_swap(HLS()->ipi, 0)`, with the others' turn
  -- between two rounds.
  unfoldable pub wait_hart : ℕ → ℕ → Waiting → Option Waiting
  wait_hart zero i w = none
  wait_hart (suc n) i w =
      let k = w.kernel in
      let own = k.harts k.self in
      let swapped = record k { harts = update k.harts k.self (record own { ipi = 0 }) } in
      let rest =
        wait_hart n i (record { incoming = bit_or w.incoming own.ipi; kernel = others swapped }) in
      if (k.harts i).ipi == 0 then some w else rest

  unfoldable pub wait_each : ℕ → ℕ → ℕ → ℕ → Waiting → Option Waiting
  unfolding wait_hart
  wait_each rounds zero i m w = none
  wait_each rounds (suc n) i m w =
      let rest = wait_each rounds n (i + 1) (m / 2) in
      if m == 0 then some w else ((if m % 2 == 1 then wait_hart rounds i w else some w) >>= rest)

  module _ (load_uintptr : ℕ → ℕ) (rounds : ℕ) where
    -- `rounds` bounds how often a hart is asked.
    unfoldable pub send_ipi_many : ℕ → ℕ → Kernel → Option Kernel
    unfolding send_each wait_each
    send_ipi_many pmask event k =
        let mask = if pmask == 0 then k.hart_mask else bit_and k.hart_mask (load_uintptr pmask) in
        send_each 65 0 mask event k >>= λ sent.
        if event == ipi_soft
        then some sent
        else (wait_each rounds 65 0 mask (record { incoming = 0; kernel = sent }) >>= λ w.
            let e = w.kernel in
            let own = e.harts e.self in
            if w.incoming == 0
            then some e
            else some
                (record e { harts = update e.harts e.self (record own { ipi = w.incoming }) }))

-- `MIP_SSIP`, `MIP_STIP` and `MIP_MTIP`.
abbrev pub mip_ssip : ℕ
mip_ssip = 2 ^ 1

abbrev pub mip_stip : ℕ
mip_stip = 2 ^ 5

abbrev pub mip_mtip : ℕ
mip_mtip = 2 ^ 7

-- The bit of the mask `b` in a register.
abbrev pub field_of : ℕ → ℕ → ℕ
field_of x b = x / b % 2 * b

-- What a call leaves: the answer for `a0`, with the kernel; or a panic, or a wait without an end.
abbrev pub Answer : Type 0
Answer = Option (ℕ × Kernel)

abbrev pub mcall_clear_ipi : Kernel → Answer
mcall_clear_ipi k =
    some (field_of k.mip mip_ssip, record k { mip = k.mip - field_of k.mip mip_ssip })

abbrev pub mcall_set_timer : ℕ → Kernel → Answer
mcall_set_timer deadline k = some (
  0,
  record k {
    harts = update k.harts k.self (record (k.harts k.self) { timecmp = deadline });
    mip = k.mip - field_of k.mip mip_stip;
    mie = bit_or k.mie mip_mtip;
  },
)

unfoldable pub mcall_console_putchar : ℕ → Kernel → Answer
unfolding console_putchar
mcall_console_putchar ch k =
    console_putchar (ch % 256) k.console >>= λ c. some (0, record k { console = c })

-- `send_exit_cmd`, on the lower 32 bits.
abbrev pub send_exit_cmd : ℕ → Kernel → Answer
send_exit_cmd c k = some (0, record k { tohost = if c % 2 ^ 32 == 0 then 1 else 3 })

unfoldable pub mcall_console_getchar : (Console → ℕ × Console) → Kernel → Answer
unfolding console_getchar
mcall_console_getchar htif_getchar k =
    console_getchar htif_getchar k.console >>= λ r. some (r.0, record k { console = r.1 })

module _ (others : Kernel → Kernel) (load_uintptr : ℕ → ℕ) (rounds : ℕ) where
  abbrev pub sent_to : ℕ → ℕ → Kernel → Answer
  sent_to pmask event k =
      send_ipi_many others load_uintptr rounds pmask event k >>= λ e. some (0, e)

  module _ (htif_getchar : Console → ℕ × Console) where
    -- The switch; any other number panics.
    unfoldable pub kernel_call : CoreState → Kernel → Answer
    unfolding send_ipi_many mcall_console_putchar mcall_console_getchar
    kernel_call regs k =
        let code = regs 17 in
        let arg0 = regs 10 in
        if code == 1
        then mcall_console_putchar arg0 k
        else if code == 2
        then mcall_console_getchar htif_getchar k
        else if code == 4
        then sent_to arg0 ipi_soft k
        else if code == 6
        then sent_to arg0 ipi_sfence_vma k
        else if code == 7
        then sent_to arg0 ipi_sfence_vma k
        else if code == 5
        then sent_to arg0 ipi_fence_i k
        else if code == 3
        then mcall_clear_ipi k
        else if code == 9
        then send_exit_cmd arg0 k
        else if code == 0
        then mcall_set_timer arg0 k
        else none

    unfoldable pub delegate_ecall_to_kernel : CoreState → Kernel → Option (CoreState × Kernel)
    unfolding kernel_call
    delegate_ecall_to_kernel regs k = kernel_call regs k >>= λ r. some (update regs 10 (r.0), r.1)

-- The kernel of an enclave that is debugged.
unfoldable pub enclave_kernel_call : (Console → ℕ × Console) → CoreState → Kernel → Answer
unfolding mcall_console_putchar mcall_console_getchar
enclave_kernel_call htif_getchar regs k =
    let code = regs 17 in
    if code == 1
    then mcall_console_putchar (regs 10) k
    else if code == 2
    then mcall_console_getchar htif_getchar k
    else if code == 3
    then mcall_clear_ipi k
    else none
