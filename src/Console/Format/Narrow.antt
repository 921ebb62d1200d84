-- ===== src/Console/Format/Narrow.antt =====
-- The two versions of vsnprintf on formats without two l's in a row.
use security_monitor.Prelude.{
  ℕ, ◌+◌, ◌-◌, ◌≡◌, refl, ap, ◌∙◌, Bool, true, false, ◌&&◌, ◌||◌, [], ◌∷◌, arith, ltb, ◌==◌,
  if◌then◌else◌, update,
}
use security_monitor.Types.{Bytes}
use security_monitor.Printing.{
  Output, put, put_hex, put_decimal, is_negative, magnitude, stays_negative, Printing, format_char,
  print_chars, vsnprintf,
}
use security_monitor.Console.Format.{
  WidePrinting, starts_with_l, wide_char, wide_chars, console_vsnprintf,
}

-- A format in which no l follows an l.
abbrev pub SingleL : Bytes → Type 0
SingleL [] = Unit
SingleL (ch ∷ s) = ((ch == 108) && starts_with_l s ≡ false) × SingleL s

abbrev widen : Printing → WidePrinting
widen s = record {
  skipped = false;
  format = s.format;
  longarg = s.longarg;
  longlongarg = false;
  arg = s.arg;
  output = s.output;
}

or_false : (b : Bool) → b || false ≡ b
or_false true = refl
or_false false = refl

-- Both sides branch on the same test.
branch :
    (b : Bool) {p q : WidePrinting} {r s : Printing}
    → p ≡ widen r
    → q ≡ widen s
    → (if b then p else q) ≡ widen (if b then r else s)
branch true e f = e
branch false e f = f

-- An l that no l follows.
branch_l :
    (b next : Bool) (x : WidePrinting) {p q : WidePrinting} {r s : Printing}
    → b && next ≡ false
    → p ≡ widen r
    → q ≡ widen s
    → (if b then (if next then x else p) else q) ≡ widen (if b then r else s)
branch_l true true x h e f = absurd (ground (arith, h))
branch_l true false x h e f = e
branch_l false next x h e f = f

module _ (n : ℕ) (args : ℕ → ℕ) (text : ℕ → Bytes) where
  done : Printing → Output → WidePrinting
  done s o = widen (record { format = false; longarg = false; arg = s.arg + 1; output = o })

  wide_char-narrow :
      (ch : ℕ) (next_l : Bool) (s : Printing)
      → (ch == 108) && next_l ≡ false
      → wide_char n args text ch next_l (widen s) ≡ widen (format_char n args text ch s)
  unfolding wide_char format_char done
  wide_char-narrow ch next_l s e =
      let w = args s.arg in
      branch s.format
        (branch_l (ch == 108) next_l _ e refl (
          branch (ch == 112) refl (
            branch (ch == 120)
              (ap (λ wide. done s (put_hex n w (if wide then 16 else 8) s.output))
                (or_false s.longarg))
              (branch (ch == 100)
                (ap
                  (λ wide. done s (
                    put_decimal (stays_negative wide w) n (magnitude wide w)
                      (if is_negative wide w then put n 45 s.output else s.output)))
                  (or_false s.longarg))
                (branch (ch == 115) refl
                  (branch (ch == 99) (branch (ltb (s.output.pos + 1) n) refl refl) refl))))))
        (branch (ch == 37) refl refl)

  wide_chars-narrow :
      (format : Bytes) (s : Printing)
      → SingleL format
      → wide_chars n args text format (widen s) ≡ widen (print_chars n args text format s)
  unfolding wide_chars print_chars
  wide_chars-narrow [] s h = refl
  wide_chars-narrow (ch ∷ format) s h =
      ap (wide_chars n args text format) (wide_char-narrow ch (starts_with_l format) s (h.0))
      ∙ wide_chars-narrow format (format_char n args text ch s) (h.1)

  -- On a format in which no l follows an l, the console's vsnprintf leaves the array and the length that
  -- the C library's leaves, whatever the arguments and the size of the array.
  pub console_vsnprintf-vsnprintf :
      (out : ℕ → ℕ) (format : Bytes)
      → SingleL format
      → console_vsnprintf n args text out format ≡ vsnprintf n args text out format
  unfolding console_vsnprintf vsnprintf
  console_vsnprintf-vsnprintf out format h =
      let start : Printing = record {
        format = false;
        longarg = false;
        arg = 0;
        output = record { out = out; pos = 0 };
      } in
      let finish = λ (p : Output).
        if ltb p.pos n
        then record p { out = update p.out p.pos 0 }
        else if n == 0
        then p
        else record p { out = update p.out (n - 1) 0 } in
      ap (λ s. finish s.output) (wide_chars-narrow format start h)
