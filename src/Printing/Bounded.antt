-- ===== src/Printing/Bounded.antt =====
-- `vsnprintf` writes what its format stands for, as far as there is room.
use security_monitor.Prelude.{
  ℕ, zero, suc, ◌+◌, ◌-◌, ◌%◌, ◌^◌, ◌≤◌, ◌<◌, ◌≡◌, refl, sym, ap, ◌∙◌, ◌≢◌, inl, inr, Bool, true,
  false, not, ◌&&◌, Option, none, some, [], ◌∷◌, ◌++◌, arith, ltb, leb, ◌==◌, if◌then◌else◌,
  Bool-cases, update, length, get_or,
}
use security_monitor.Types.{Bytes}
use security_monitor.Printing.{
  Output, put, put_string, put_decimal, is_negative, magnitude, Printing, format_char, print_chars,
  vsnprintf,
}
use security_monitor.Printing.Render.{
  put_string-append, hex_digits, put_hex-digits, put_string-pos, decimal, put_decimal-decimal,
}

-- Where the format stands: after a `%`, after an `l`, and at which argument.
pub record Control : Type 0 where
  pub format : Bool
  pub longarg : Bool
  pub arg : ℕ

abbrev pub control : Printing → Control
control s = record { format = s.format; longarg = s.longarg; arg = s.arg }

abbrev pub sign : Bool → Bytes
sign negative = if negative then 45 ∷ [] else []

module _ (args : ℕ → ℕ) (text : ℕ → Bytes) where
  -- The string of a conversion.
  unfoldable pub conversion : ℕ → Bool → ℕ → Option Bytes
  unfolding hex_digits decimal
  conversion ch longarg w =
      if ch == 112
      then some (48 ∷ 120 ∷ hex_digits w 16)
      else if ch == 120
      then some (hex_digits w (if longarg then 16 else 8))
      else if ch == 100
      then some (sign (is_negative longarg w) ++ decimal (magnitude longarg w))
      else if ch == 115
      then some (text w)
      else none

  abbrev pub converts : Control → Option Bytes → Bytes × Control
  converts c none = ([], c)
  converts c (some b) = (b, record { format = false; longarg = false; arg = c.arg + 1 })

  -- What a character of the format stands for, and what it changes.
  unfoldable pub piece : ℕ → Control → Bytes × Control
  unfolding conversion
  piece ch c =
      if c.format
      then (if ch == 108
          then ([], record c { longarg = true })
          else converts c (conversion ch c.longarg (args c.arg)))
      else if ch == 37
      then ([], record c { format = true })
      else (ch ∷ [], c)

  -- The whole string.
  unfoldable pub render : Bytes → Control → Bytes
  unfolding piece
  render [] c = []
  render (ch ∷ format) c = (piece ch c).0 ++ render format (piece ch c).1

  -- The format has no `%c`.
  unfoldable pub without_char : Bytes → Control → Bool
  unfolding piece
  without_char [] c = true
  without_char (ch ∷ format) c = not (c.format && (ch == 99)) && without_char format (piece ch c).1

  abbrev printed : ℕ → Bytes × Control → Output → Printing
  printed n r o = record {
    format = r.1.format;
    longarg = r.1.longarg;
    arg = r.1.arg;
    output = put_string n r.0 o;
  }

  module _ (n : ℕ) where
    signed :
        (b : Bool) (s : Bytes) (o : Output)
        → put_string n s (if b then put n 45 o else o) ≡ put_string n (sign b ++ s) o
    unfolding put_string
    signed true s o = refl
    signed false s o = refl

    no_overflow : (l b : Bool) → b ≡ false → l && b ≡ false
    no_overflow true b e = e
    no_overflow false b e = refl

    format_char-piece :
        (ch : ℕ) (s : Printing)
        → (args s.arg % 2 ^ 64 == 2 ^ 63) ≡ false
        → (s.format && (ch == 99)) ≡ false
        → format_char n args text ch s ≡ printed n (piece ch (control s)) s.output
    unfolding format_char piece put_string
    format_char-piece ch s o h =
        let w = args s.arg in
        let l = s.longarg in
        let done : Output → Printing =
          λ o. record { format = false; longarg = false; arg = s.arg + 1; output = o } in
        elim (Bool-cases s.format) [
          | inr f ↦ elim (Bool-cases (ch == 37)) [ inl e ↦ rw (f, e) refl | inr e ↦ rw (f, e) refl ]
          | inl f ↦ elim (Bool-cases (ch == 108)) [
            | inl e ↦ rw (f, e) refl
            | inr e1 ↦ elim (Bool-cases (ch == 112)) [
              | inl e ↦
                  rw (f, e1, e) (ap done (put_hex-digits n w 16 (put n 120 (put n 48 s.output))))
              | inr e2 ↦ elim (Bool-cases (ch == 120)) [
                | inl e ↦
                    rw (f, e1, e2, e) (ap done (put_hex-digits n w (if l then 16 else 8) s.output))
                | inr e3 ↦ elim (Bool-cases (ch == 100)) [
                  | inl e ↦
                      rw (f, e1, e2, e3, e)
                        (ap done (
                          ap
                            (λ b.
                              put_decimal b n (magnitude l w)
                                (if is_negative l w then put n 45 s.output else s.output))
                            (no_overflow l (w % 2 ^ 64 == 2 ^ 63) o)
                          ∙ put_decimal-decimal n (magnitude l w)
                              (if is_negative l w then put n 45 s.output else s.output)
                          ∙ signed (is_negative l w) (decimal (magnitude l w)) s.output))
                  | inr e4 ↦
                      let e5 : (ch == 99) ≡ false = ground arith in
                      elim (Bool-cases (ch == 115)) [
                        | inl e ↦ rw (f, e1, e2, e3, e4, e) refl
                        | inr e ↦ rw (f, e1, e2, e3, e4, e, e5) refl
                      ]
                ]
              ]
            ]
          ]
        ]

    print_chars-render :
        (format : Bytes) (s : Printing)
        → ((i : ℕ) → (args i % 2 ^ 64 == 2 ^ 63) ≡ false)
        → without_char format (control s) ≡ true
        → (print_chars n args text format s).output
          ≡ put_string n (render format (control s)) s.output
    unfolding print_chars render without_char
    print_chars-render [] s o h = refl
    print_chars-render (ch ∷ format) s o h =
        let p = piece ch (control s) in
        let e = format_char-piece ch s (o s.arg) (ground arith) in
        let t : without_char format p.1 ≡ true = ground arith in
        ap (λ x. (print_chars n args text format x).output) e
        ∙ print_chars-render format (printed n p s.output) o t
        ∙ sym (put_string-append n p.0 (render format p.1) s.output)

put_string-at :
    (n : ℕ) (s : Bytes) (p : Output) (j : ℕ)
    → (put_string n s p).out j ≡ (
        if leb p.pos j && ltb j (p.pos + length s) && ltb (j + 1) n
        then get_or s (j - p.pos) 0
        else p.out j)
unfolding put_string put
put_string-at n [] p j = ground arith
put_string-at n (ch ∷ s) p j = put_string-at n s (put n ch p) j ∙ first_cell (j - p.pos) refl
  where
    first_cell :
        (i : ℕ)
        → i ≡ j - p.pos
        → (if leb (p.pos + 1) j && ltb j (p.pos + 1 + length s) && ltb (j + 1) n
            then get_or s (j - (p.pos + 1)) 0
            else (put n ch p).out j)
          ≡ (if leb p.pos j && ltb j (p.pos + suc (length s)) && ltb (j + 1) n
              then get_or (ch ∷ s) i 0
              else p.out j)
    first_cell zero e = ground arith
    first_cell (suc i) e =
        let q : leb (p.pos + 1) j ≡ true = ground arith in
        let q2 : j - (p.pos + 1) ≡ i = omega (arith, e) in rw q2 (ground arith)

-- The array `r.out`, of `n` bytes, holds the text `s` as far as there is room, and its end; the result
-- is the length of the whole text.
pub record Holds (n : ℕ) (out : ℕ → ℕ) (s : Bytes) (r : Output) : Type 0 where
  pub whole : r.pos ≡ length s
  pub holds : (j : ℕ) → j < length s → j + 1 < n → r.out j ≡ get_or s j 0
  pub ended : 0 < n → r.out (if ltb (length s) n then length s else n - 1) ≡ 0
  pub outside : (j : ℕ) → n ≤ j → r.out j ≡ out j

module _ (n : ℕ) (out : ℕ → ℕ) (s : Bytes) where
  abbrev placed : Output
  placed = put_string n s (record { out = out; pos = 0 })

  finish_string : Output
  finish_string =
      if ltb placed.pos n
      then record placed { out = update placed.out placed.pos 0 }
      else if n == 0
      then placed
      else record placed { out = update placed.out (n - 1) 0 }

  finish_string-Holds : Holds n out s finish_string
  unfolding finish_string
  finish_string-Holds =
      let q = put_string-pos n s (record { out = out; pos = 0 }) in
      let a = put_string-at n s (record { out = out; pos = 0 }) in
      record {
        whole = ground (arith, q);
        holds = λ j h k. ground (arith, q, a j);
        ended = λ h. ground (arith, q);
        outside = λ j h. ground (arith, q, a j);
      }

-- For a format without `%c`, and arguments other than the least `long`, whose magnitude is no `long`,
-- `vsnprintf` stores the text of the format as far as the `n` bytes have
-- room for it and for the final zero, puts the zero there, writes nothing beyond the `n` bytes, and
-- returns the length of the whole text.
pub vsnprintf-Holds :
    (n : ℕ) (args : ℕ → ℕ) (text : ℕ → Bytes) (out : ℕ → ℕ) (format : Bytes)
    → let c : Control = record { format = false; longarg = false; arg = 0 } in
      without_char args text format c ≡ true
      → ((i : ℕ) → args i % 2 ^ 64 ≢ 2 ^ 63)
      → Holds n out (render args text format c) (vsnprintf n args text out format)
unfolding vsnprintf finish_string
vsnprintf-Holds n args text out format h o =
    let c : Control = record { format = false; longarg = false; arg = 0 } in
    let s : Printing = record {
      format = false;
      longarg = false;
      arg = 0;
      output = record { out = out; pos = 0 };
    } in
    rw (print_chars-render args text n format s (λ i. not_least i (o i)) h)
      (finish_string-Holds n out (render args text format c))
  where
    not_least : (i : ℕ) → args i % 2 ^ 64 ≢ 2 ^ 63 → (args i % 2 ^ 64 == 2 ^ 63) ≡ false
    not_least i e = ground arith
