-- ===== src/Examples/Kernels.antt =====
-- A console and a kernel of two harts.
use security_monitor.Prelude.{
  ℕ, ◌^◌, bit_or, ◌≡◌, refl, false, some, [], ◌∷◌, arith, ◌==◌, if◌then◌else◌, update,
}
use security_monitor.Types.{Bytes, CoreState}
use security_monitor.Clib.{◌>>=◌}
use security_monitor.Console.{Console, print_int}
use security_monitor.Console.Format.{console_vsnprintf, vprintm}
use security_monitor.Console.Format.Narrow.{console_vsnprintf-vsnprintf}
use security_monitor.Printing.{vsnprintf}
use security_monitor.Kernel.{Kernel, ipi_soft, ipi_fence_i, send_ipi_many, delegate_ecall_to_kernel}
use security_monitor.Kernel.Posted.{in_mask, named, delegate_ecall_to_kernel-soft}

abbrev quiet_console : Console
quiet_console = record { console_lock = false; output = [] }

-- A leading zero is written before a number whose first digit is not 1.
leading_zero_run :
    print_int 42 quiet_console ≡ some (record { console_lock = false; output = 48 ∷ 52 ∷ 50 ∷ [] })
unfolding print_int
leading_zero_run = refl

abbrev two_harts : Kernel
two_harts = record {
  self = 0;
  hart_mask = 3;
  harts = λ h. record { ipi = 0; mipi_pending = 0; timecmp = 0 };
  mip = 0;
  mie = 0;
  tohost = 0;
  console = quiet_console;
}

-- The mask at the address 8 has the harts 1 and 2, of which there is only the first.
abbrev masks : ℕ → ℕ
masks a = if a == 8 then 6 else 0

abbrev soft_regs : CoreState
soft_regs i = if i == 17 then 4 else if i == 10 then 8 else 0

delegate_ecall_to_kernel-soft_example :
    delegate_ecall_to_kernel (λ k. k) masks 5 (λ c. (0, c)) soft_regs two_harts
    ≡ some (
      update soft_regs 10 0,
      record two_harts {
        harts = λ h.
            if in_mask (named masks 8 3) h
            then record (two_harts.harts h) {
              mipi_pending = bit_or (two_harts.harts h).mipi_pending ipi_soft;
              ipi = 1;
            }
            else two_harts.harts h;
      },
    )
delegate_ecall_to_kernel-soft_example =
    delegate_ecall_to_kernel-soft (λ k. k) masks 5 (λ c. (0, c)) soft_regs two_harts refl
      (omega arith)

-- The hart 1 waits for nobody but itself.
fence_run :
    (send_ipi_many (λ k. k) masks 5 0 ipi_fence_i (record two_harts { hart_mask = 1 }) >>= λ e.
    some ((e.harts 0).ipi))
    ≡ some 1
unfolding send_ipi_many
fence_run = refl

-- `%ld and %s`, on the arguments 25 and the string `ab`.
abbrev plain_format : Bytes
plain_format = 37 ∷ 108 ∷ 100 ∷ 32 ∷ 37 ∷ 115 ∷ []

abbrev plain_args : ℕ → ℕ
plain_args i = if i == 0 then 25 else 7

abbrev plain_text : ℕ → Bytes
plain_text a = 97 ∷ 98 ∷ []

console_vsnprintf-vsnprintf_example :
    console_vsnprintf 256 plain_args plain_text (λ _. 0) plain_format
    ≡ vsnprintf 256 plain_args plain_text (λ _. 0) plain_format
console_vsnprintf-vsnprintf_example =
    console_vsnprintf-vsnprintf 256 plain_args plain_text (λ _. 0) plain_format
      (refl, (refl, (refl, (refl, (refl, (refl, tt))))))

printed_run :
    vprintm plain_args plain_text (λ _. 0) plain_format quiet_console
    ≡ some (record { console_lock = false; output = 50 ∷ 53 ∷ 32 ∷ 97 ∷ 98 ∷ [] })
unfolding vprintm
printed_run = refl

-- With two l's the number is of 64 bits here and of 32 there.
abbrev long_format : Bytes
long_format = 37 ∷ 108 ∷ 108 ∷ 100 ∷ []

wide_run :
    vprintm (λ _. 2 ^ 33) plain_text (λ _. 0) long_format quiet_console
    ≡ some (record {
      console_lock = false;
      output = 56 ∷ 53 ∷ 56 ∷ 57 ∷ 57 ∷ 51 ∷ 52 ∷ 53 ∷ 57 ∷ 50 ∷ [];
    })
unfolding vprintm
wide_run = refl
