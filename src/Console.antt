-- ===== src/Console.antt =====
-- src/kernel/console.c: the lock of the console and what is written to it. A core that finds the lock
-- held spins; with no other core at work that is `none`. The device behind it is a list of characters.
pub mod Numbers
pub mod Format
use security_monitor.Prelude.{
  ℕ, zero, suc, ◌+◌, ◌*◌, ◌/◌, ◌%◌, Bool, true, false, not, Option, none, some, [], ◌∷◌, ◌++◌, ltb,
  leb, ◌==◌, if◌then◌else◌,
}
use security_monitor.Types.{Bytes, word_mod}
use security_monitor.Clib.{◌>>=◌, ByteMap}

pub record Console : Type 0 where
  pub console_lock : Bool
  pub output : Bytes

abbrev pub htif_putchar : ℕ → Console → Console
htif_putchar ch c = record c { output = c.output ++ (ch ∷ []) }

-- The lock is taken, the character written, the lock released.
unfoldable pub print_char : ℕ → Console → Option Console
print_char ch c =
    if c.console_lock then none else some (record (htif_putchar ch c) { console_lock = false })

unfoldable pub console_putchar : ℕ → Console → Option Console
unfolding print_char
console_putchar ch c = print_char ch c

unfoldable pub console_init : Console → Console
console_init c = record c { console_lock = false }

-- `htif_getchar` is the device's.
unfoldable pub console_getchar : (Console → ℕ × Console) → Console → Option (ℕ × Console)
console_getchar htif_getchar c =
    if c.console_lock
    then none
    else (let r = htif_getchar (record c { console_lock = true }) in
        some (r.0, record (r.1) { console_lock = false }))

-- The strings end with a zero; the fuel has to exceed their length.
unfoldable pub print_str : ℕ → ByteMap → ℕ → Console → Option Console
unfolding print_char
print_str zero m s c = none
print_str (suc n) m s c =
    let rest = print_str n m (s + 1) in
    if not (m s == 0) then (print_char (m s) c >>= rest) else some c

unfoldable pub put_chars : ℕ → ByteMap → ℕ → Console → Option Console
put_chars zero m s c = none
put_chars (suc n) m s c =
    let rest = put_chars n m (s + 1) (htif_putchar (m s) c) in
    if not (m s == 0) then rest else some c

unfoldable pub putstring : ℕ → ByteMap → ℕ → Console → Option Console
unfolding put_chars
putstring fuel m s c =
    if c.console_lock
    then none
    else (put_chars fuel m s (record c { console_lock = true }) >>= λ e.
        some (record e { console_lock = false }))

-- The two loops of `print_int`: the power of ten that the number is divided by first, and the digits.
unfoldable pub power_above : ℕ → ℕ → ℕ → Option ℕ
power_above zero m ru = none
power_above (suc n) m ru =
    let rest = power_above n (m / 10) (ru * 10 % word_mod) in if ltb 1 m then rest else some ru

unfoldable pub print_digits : ℕ → ℕ → ℕ → Console → Option Console
unfolding print_char
print_digits zero n i c = none
print_digits (suc fuel) n i c =
    let rest = print_digits fuel n (i / 10) in
    if leb 1 i then (print_char (48 + n / i % 10) c >>= rest) else some c

-- Twenty rounds are enough for 64 bits, and twenty-one for the digits.
unfoldable pub print_int : ℕ → Console → Option Console
unfolding power_above print_digits
print_int n c = power_above 20 n 1 >>= λ ru. print_digits 21 n ru c
