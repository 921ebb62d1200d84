-- ===== src/Examples/Printing.antt =====
-- Formats that are printed.
use security_monitor.Prelude.{
  ℕ, ◌-◌, ◌^◌, ◌≤◌, ◌<◌, ◌≡◌, refl, true, false, some, [], ◌∷◌, arith, length,
}
use security_monitor.Types.{Bytes}
use security_monitor.Printing.{put_string, put_decimal, vsnprintf}
use security_monitor.Printing.Bounded.{Control, render, without_char, Holds, vsnprintf-Holds}
use security_monitor.Printing.Decimal.{read_digits, put_decimal-digits}

-- `n=%d`, with -5, into four bytes: `n=-` and the zero.
abbrev minus_five : ℕ → ℕ
minus_five i = 2 ^ 32 - 5

abbrev no_text : ℕ → Bytes
no_text a = []

abbrev format : Bytes
format = 110 ∷ 61 ∷ 37 ∷ 100 ∷ []

abbrev begin : Control
begin = record { format = false; longarg = false; arg = 0 }

format-without : without_char minus_five no_text format begin ≡ true
unfolding without_char
format-without = refl

vsnprintf-Holds_example :
    Holds 4
      (λ _. 255)
      (render minus_five no_text format begin)
      (vsnprintf 4 minus_five no_text (λ _. 255) format)
vsnprintf-Holds_example =
    vsnprintf-Holds 4 minus_five no_text (λ _. 255) format format-without (λ i. omega arith)

put_decimal-digits_example :
    (s : Bytes) × (put_decimal false 9 1234 (record { out = λ _. 0; pos = 2 })
      ≡ put_string 9 s (record { out = λ _. 0; pos = 2 }))
    × (read_digits 0 s ≡ some 1234)
    × (0 < 1234 → 10 ^ (length s - 1) ≤ 1234)
put_decimal-digits_example =
    put_decimal-digits 9 1234 (record { out = λ _. 0; pos = 2 }) (omega arith)
