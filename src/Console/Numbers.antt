-- ===== src/Console/Numbers.antt =====
-- What `print_int` writes.
use security_monitor.Prelude.{ℕ, suc, ◌*◌, ◌^◌, ◌≤◌, ◌<◌, ◌≡◌, false, some, ◌++◌, length}
use security_monitor.Types.{Bytes}
use security_monitor.Printing.Decimal.{read_decimal}
use security_monitor.Console.{Console, power_above, print_int}

abbrev pub appended : Bytes → Console → Console
appended s c = record { console_lock = false; output = c.output ++ s }

-- The first loop stops at a power of ten that exceeds half of the number, before it overflows.
record Stop (m ru n : ℕ) : Type 0 where
  rounds : ℕ
  stops : power_above (suc n) m ru ≡ some (ru * 10 ^ rounds)
  above : m < 2 * 10 ^ rounds
  few : rounds ≤ n

-- How `print_int` ends.
pub record Printed (n : ℕ) (c : Console) : Type 0 where
  pub text : Bytes
  pub prints : print_int n c ≡ some (record { console_lock = false; output = c.output ++ text })
  pub reads : read_decimal 0 text ≡ n
  pub at_most : length text ≤ 20
