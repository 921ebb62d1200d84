-- ===== src/Printing/Render.antt =====
-- What a format stands for, and the loops as one output of it.
use security_monitor.Prelude.{
  ℕ, zero, suc, ◌+◌, ◌/◌, ◌%◌, ◌^◌, ◌≤◌, ◌≡◌, refl, sym, ap, ◌∙◌, fun_ext, inl, inr, false, [], ◌∷◌,
  ◌++◌, arith, ltb, if◌then◌else◌, Bool-cases, update, length,
}
use security_monitor.Types.{Bytes}
use security_monitor.Printing.{
  Output, put, put_string, hex_digit, put_hex, count_digits, write_digits, put_decimal,
}

-- Two outputs are the same if their arrays and positions are.
Output-eq : (p q : Output) → p.out ≡ q.out → p.pos ≡ q.pos → p ≡ q
Output-eq p q a b =
    ap (λ (x : ℕ → ℕ). record { out = x; pos = p.pos }) a
    ∙ ap (λ (y : ℕ). record { out = q.out; pos = y }) b

pub put_string-append :
    (n : ℕ) (s t : Bytes) (p : Output) → put_string n (s ++ t) p ≡ put_string n t (put_string n s p)
unfolding put_string
put_string-append n [] t p = refl
put_string-append n (ch ∷ s) t p = put_string-append n s t (put n ch p)

-- `i` digits of a number.
unfoldable pub hex_digits : ℕ → ℕ → Bytes
hex_digits num zero = []
hex_digits num (suc i) = hex_digit (num / 16 ^ i % 16) ∷ hex_digits num i

unfoldable pub decimals : ℕ → ℕ → Bytes
decimals zero num = []
decimals (suc i) num = decimals i (num / 10) ++ ((48 + num % 10) ∷ [])

pub put_hex-digits :
    (n num i : ℕ) (p : Output) → put_hex n num i p ≡ put_string n (hex_digits num i) p
unfolding put_hex hex_digits put_string
put_hex-digits n num zero p = refl
put_hex-digits n num (suc i) p = put_hex-digits n num i (put n (hex_digit (num / 16 ^ i % 16)) p)

length-append : (s t : Bytes) → length (s ++ t) ≡ length s + length t
length-append [] t = omega arith
length-append (ch ∷ s) t = omega (arith, length-append s t)

pub length-decimals : (i num : ℕ) → length (decimals i num) ≡ i
unfolding decimals
length-decimals zero num = refl
length-decimals (suc i) num = omega (
  arith,
  length-append (decimals i (num / 10)) ((48 + num % 10) ∷ []),
  length-decimals i (num / 10),
)

pub put_string-pos : (n : ℕ) (s : Bytes) (p : Output) → (put_string n s p).pos ≡ p.pos + length s
unfolding put_string put
put_string-pos n [] p = omega arith
put_string-pos n (ch ∷ s) p = omega (arith, put_string-pos n s (put n ch p))

-- A cell that is written beyond the string may be written first.
put_string-later :
    (n : ℕ) (s : Bytes) (out : ℕ → ℕ) (pos q v : ℕ)
    → pos + length s ≤ q
    → (put_string n s (record { out = update out q v; pos = pos })).out
      ≡ update (put_string n s (record { out = out; pos = pos })).out q v
unfolding put_string put
put_string-later n [] out pos q v h = refl
put_string-later n (ch ∷ s) out pos q v h =
    ap (λ (x : ℕ → ℕ). (put_string n s (record { out = x; pos = pos + 1 })).out)
      (fun_ext λ j. ground arith)
    ∙ put_string-later n s (if ltb (pos + 1) n then update out pos ch else out) (pos + 1) q v
        (omega arith)

put_string-later_one :
    (n : ℕ) (s : Bytes) (out : ℕ → ℕ) (pos q v : ℕ)
    → pos + length s ≤ q
    → (put_string n s
        (record { out = if ltb (q + 1) n then update out q v else out; pos = pos })).out
      ≡ (if ltb (q + 1) n
          then update (put_string n s (record { out = out; pos = pos })).out q v
          else (put_string n s (record { out = out; pos = pos })).out)
put_string-later_one n s out pos q v h = elim (Bool-cases (ltb (q + 1) n)) [
  | inl e ↦ rw e (put_string-later n s out pos q v h)
  | inr e ↦ rw e refl
]

-- The digits, written backwards, are those of the number in order.
write_digits-decimals :
    (n pos i num : ℕ) (out : ℕ → ℕ)
    → write_digits false n pos i num out
      ≡ (put_string n (decimals i num) (record { out = out; pos = pos })).out
unfolding write_digits decimals put_string
write_digits-decimals n pos zero num out = refl
write_digits-decimals n pos (suc i) num out =
    let s = decimals i (num / 10) in
    let v = 48 + num % 10 in
    let e = length-decimals i (num / 10) in
    write_digits-decimals n pos i (num / 10)
      (if ltb (pos + i + 1) n then update out (pos + i) v else out)
    ∙ put_string-later_one n s out pos (pos + i) v (omega (arith, e))
    ∙ sym (
        ap (λ (x : Output). x.out)
          (put_string-append n s (v ∷ []) (record { out = out; pos = pos }))
        ∙ last_one (put_string n s (record { out = out; pos = pos }))
            (omega (arith, e, put_string-pos n s (record { out = out; pos = pos }))))
  where
    last_one :
        (p : Output)
        → p.pos ≡ pos + i
        → (put_string n ((48 + num % 10) ∷ []) p).out
          ≡ (if ltb (pos + i + 1) n then update p.out (pos + i) (48 + num % 10) else p.out)
    last_one p e = rw (← e) refl

-- The number in decimals.
unfoldable pub decimal : ℕ → Bytes
unfolding decimals count_digits
decimal num = decimals (count_digits 19 num) num

pub put_decimal-decimal :
    (n num : ℕ) (p : Output) → put_decimal false n num p ≡ put_string n (decimal num) p
unfolding put_decimal decimal
put_decimal-decimal n num p =
    let d = count_digits 19 num in
    Output-eq _ _ (write_digits-decimals n p.pos d num p.out)
      (sym (put_string-pos n (decimals d num) p ∙ omega (arith, length-decimals d num)))
