-- ===== src/Printing.antt =====
-- src/clib/snprintf.c: the formatted output of the monitor's messages.
pub mod Render
pub mod Bounded
pub mod Decimal
use security_monitor.Prelude.{
  ℕ, zero, suc, ◌+◌, ◌-◌, ◌/◌, ◌%◌, ◌^◌, Bool, true, false, ◌&&◌, [], ◌∷◌, ltb, ◌==◌, if◌then◌else◌,
  update,
}
use security_monitor.Types.{Bytes}
use security_monitor.Enclave.Load.{bit}

-- The array `out`, and `pos`, which runs on when the array is full.
pub record Output : Type 0 where
  pub out : ℕ → ℕ
  pub pos : ℕ

-- `if (++pos < n) out[pos-1] = ch;`
unfoldable pub put : ℕ → ℕ → Output → Output
put n ch p = record {
  out = if ltb (p.pos + 1) n then update p.out p.pos ch else p.out;
  pos = p.pos + 1;
}

-- The characters of a string, one after the other.
unfoldable pub put_string : ℕ → Bytes → Output → Output
unfolding put
put_string n [] p = p
put_string n (ch ∷ s) p = put_string n s (put n ch p)

abbrev pub hex_digit : ℕ → ℕ
hex_digit d = if ltb d 10 then 48 + d else 97 + d - 10

-- The digits below `16 ^ i`, the highest first.
unfoldable pub put_hex : ℕ → ℕ → ℕ → Output → Output
unfolding put
put_hex n num zero p = p
put_hex n num (suc i) p = put_hex n num i (put n (hex_digit (num / 16 ^ i % 16)) p)

-- `for (nn = num; nn /= 10; digits++)`, for numbers of at most `fuel + 1` digits.
unfoldable pub count_digits : ℕ → ℕ → ℕ
count_digits zero num = 1
count_digits (suc fuel) num =
    let rest = count_digits fuel (num / 10) in if num / 10 == 0 then 1 else suc rest

-- The loop that writes the digits, the last one first. The digits of a number that is still negative
-- are negative.
unfoldable pub write_digits : Bool → ℕ → ℕ → ℕ → ℕ → (ℕ → ℕ) → ℕ → ℕ
write_digits below n pos zero num out = out
write_digits below n pos (suc i) num out =
    let ch : ℕ = if below then 48 - num % 10 else 48 + num % 10 in
    write_digits below n pos i (num / 10)
      (if ltb (pos + i + 1) n then update out (pos + i) ch else out)

unfoldable pub put_decimal : Bool → ℕ → ℕ → Output → Output
unfolding count_digits write_digits
put_decimal below n num p =
    let digits = count_digits 19 num in
    record { out = write_digits below n p.pos digits num p.out; pos = p.pos + digits }

-- The argument as a signed number: whether it is negative, and its magnitude. `-num` of the least
-- `long` overflows; C leaves it undefined, and taken modulo `2 ^ 64` it is the same negative number.
abbrev pub is_negative : Bool → ℕ → Bool
is_negative longarg w = bit w (if longarg then 63 else 31)

abbrev pub magnitude : Bool → ℕ → ℕ
magnitude longarg w =
    let m = 2 ^ (if longarg then 64 else 32) in if is_negative longarg w then m - w % m else w % m

abbrev pub stays_negative : Bool → ℕ → Bool
stays_negative longarg w = longarg && (w % 2 ^ 64 == 2 ^ 63)

-- The state of the loop over the format.
pub record Printing : Type 0 where
  pub format : Bool
  pub longarg : Bool
  pub arg : ℕ
  pub output : Output

module _ (n : ℕ) (args : ℕ → ℕ) (text : ℕ → Bytes) where
  -- A conversion that takes an argument.
  abbrev converted : Printing → Output → Printing
  converted s o = record { format = false; longarg = false; arg = s.arg + 1; output = o }

  -- `args` is the list of arguments, `text` the characters of a string in memory. The argument of `%c`
  -- is taken only if there is room for it.
  unfoldable pub format_char : ℕ → Printing → Printing
  unfolding put_string put_hex put_decimal
  format_char ch s =
      let o = s.output in
      let w = args s.arg in
      if s.format
      then (if ch == 108
          then record s { longarg = true }
          else if ch == 112
          then converted s (put_hex n w 16 (put n 120 (put n 48 o)))
          else if ch == 120
          then converted s (put_hex n w (if s.longarg then 16 else 8) o)
          else if ch == 100
          then converted s (
              put_decimal (stays_negative s.longarg w) n (magnitude s.longarg w)
                (if is_negative s.longarg w then put n 45 o else o))
          else if ch == 115
          then converted s (put_string n (text w) o)
          else if ch == 99
          then (if ltb (o.pos + 1) n
              then converted s (put n (w % 256) o)
              else record { format = false; longarg = false; arg = s.arg; output = put n 0 o })
          else s)
      else if ch == 37
      then record s { format = true }
      else record s { output = put n ch o }

  unfoldable pub print_chars : Bytes → Printing → Printing
  unfolding format_char
  print_chars [] s = s
  print_chars (ch ∷ format) s = print_chars format (format_char ch s)

  -- The array and the result, which is `pos`, before it is cut to an `int`.
  unfoldable pub vsnprintf : (ℕ → ℕ) → Bytes → Output
  unfolding print_chars
  vsnprintf out format =
      let p =
        (print_chars format (record {
          format = false;
          longarg = false;
          arg = 0;
          output = record { out = out; pos = 0 };
        })).output in
      if ltb p.pos n
      then record p { out = update p.out p.pos 0 }
      else if n == 0
      then p
      else record p { out = update p.out (n - 1) 0 }
