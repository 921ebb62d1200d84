-- ===== src/Console/Format.antt =====
-- The console's own vsnprintf, lines 27 to 133 of src/kernel/console.c, with `printm` on it. It differs from
-- that of src/clib/snprintf.c in the conversions with two l's.
pub mod Narrow
use security_monitor.Prelude.{
  ℕ, ◌+◌, ◌-◌, ◌%◌, Bool, true, false, ◌||◌, Option, [], ◌∷◌, ltb, ◌==◌, if◌then◌else◌, update,
}
use security_monitor.Types.{Bytes}
use security_monitor.Printing.{
  Output, put, put_string, put_hex, put_decimal, is_negative, magnitude, stays_negative,
}
use security_monitor.Console.{Console, putstring}

-- The state of the loop; `skipped` is the `s++` after the first of two l's.
pub record WidePrinting : Type 0 where
  pub skipped : Bool
  pub format : Bool
  pub longarg : Bool
  pub longlongarg : Bool
  pub arg : ℕ
  pub output : Output

abbrev pub starts_with_l : Bytes → Bool
starts_with_l [] = false
starts_with_l (ch ∷ s) = ch == 108

module _ (n : ℕ) (args : ℕ → ℕ) (text : ℕ → Bytes) where
  -- A number resets both flags, a string or a character the first one only.
  abbrev number_done : WidePrinting → Output → WidePrinting
  number_done s o = record s {
    format = false;
    longarg = false;
    longlongarg = false;
    arg = s.arg + 1;
    output = o;
  }

  abbrev text_done : WidePrinting → Output → WidePrinting
  text_done s o = record s { format = false; longarg = false; arg = s.arg + 1; output = o }

  -- A character of the format, and whether an l follows it.
  unfoldable pub wide_char : ℕ → Bool → WidePrinting → WidePrinting
  unfolding put_string put_hex put_decimal
  wide_char ch next_l s =
      let o = s.output in
      let w = args s.arg in
      let wide = s.longarg || s.longlongarg in
      if s.skipped
      then record s { skipped = false }
      else if s.format
      then (if ch == 108
          then (if next_l
              then record s { longlongarg = true; skipped = true }
              else record s { longarg = true })
          else if ch == 112
          then number_done s (put_hex n w 16 (put n 120 (put n 48 o)))
          else if ch == 120
          then number_done s (put_hex n w (if wide then 16 else 8) o)
          else if ch == 100
          then number_done s (
              put_decimal (stays_negative wide w) n (magnitude wide w)
                (if is_negative wide w then put n 45 o else o))
          else if ch == 115
          then text_done s (put_string n (text w) o)
          else if ch == 99
          then (if ltb (o.pos + 1) n
              then text_done s (put n (w % 256) o)
              else record s { format = false; longarg = false; output = put n 0 o })
          else s)
      else if ch == 37
      then record s { format = true }
      else record s { output = put n ch o }

  unfoldable pub wide_chars : Bytes → WidePrinting → WidePrinting
  unfolding wide_char
  wide_chars [] s = s
  wide_chars (ch ∷ format) s = wide_chars format (wide_char ch (starts_with_l format) s)

  abbrev pub wide_start : (ℕ → ℕ) → WidePrinting
  wide_start out = record {
    skipped = false;
    format = false;
    longarg = false;
    longlongarg = false;
    arg = 0;
    output = record { out = out; pos = 0 };
  }

  unfoldable pub console_vsnprintf : (ℕ → ℕ) → Bytes → Output
  unfolding wide_chars
  console_vsnprintf out format =
      let p = (wide_chars format (wide_start out)).output in
      if ltb p.pos n
      then record p { out = update p.out p.pos 0 }
      else if n == 0
      then p
      else record p { out = update p.out (n - 1) 0 }

-- `printm`: a buffer of 256 bytes, whose contents before are `buf`.
unfoldable pub vprintm : (ℕ → ℕ) → (ℕ → Bytes) → (ℕ → ℕ) → Bytes → Console → Option Console
unfolding console_vsnprintf putstring
vprintm args text buf format c =
    putstring 256 ((console_vsnprintf 256 args text buf format).out) 0 c
