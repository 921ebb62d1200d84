-- ===== src/Printing/Decimal.antt =====
-- The digits of `%d`.
use native.Mathlib.Nat.{pow-suc}
use security_monitor.Prelude.{
  ℕ, zero, suc, ◌+◌, ◌-◌, ◌*◌, ◌/◌, ◌%◌, ◌^◌, ◌≤◌, ◌<◌, ◌≡◌, refl, ap, ◌∙◌, subst, inl, inr, true,
  false, ◌&&◌, Option, none, some, [], ◌∷◌, ◌++◌, arith, leb, ◌==◌, if◌then◌else◌, Bool-cases,
  length,
}
use security_monitor.Types.{Bytes}
use security_monitor.Printing.{Output, put_string, count_digits, put_decimal}
use security_monitor.Printing.Render.{decimals, length-decimals, decimal, put_decimal-decimal}

-- The number that decimal digits stand for, read from the left.
unfoldable pub read_decimal : ℕ → Bytes → ℕ
read_decimal value [] = value
read_decimal value (ch ∷ s) = read_decimal (value * 10 + (ch - 48)) s

read_decimal-append :
    (s t : Bytes) (v : ℕ) → read_decimal v (s ++ t) ≡ read_decimal (read_decimal v s) t
unfolding read_decimal
read_decimal-append [] t v = refl
read_decimal-append (ch ∷ s) t v = read_decimal-append s t (v * 10 + (ch - 48))

pub read_decimal-decimals : (i num : ℕ) → num < 10 ^ i → read_decimal 0 (decimals i num) ≡ num
unfolding read_decimal decimals
read_decimal-decimals zero num h = omega (arith, h)
read_decimal-decimals (suc i) num h =
    read_decimal-append (decimals i (num / 10)) ((48 + num % 10) ∷ []) 0
    ∙ ap (λ (v : ℕ). v * 10 + (48 + num % 10 - 48))
        (read_decimal-decimals i (num / 10) (omega (arith, pow-suc 10 i)))
    ∙ omega arith

count_digits-enough : (fuel num : ℕ) → num < 10 ^ suc fuel → num < 10 ^ count_digits fuel num
unfolding count_digits
count_digits-enough zero num h = h
count_digits-enough (suc fuel) num h = elim (Bool-cases (num / 10 == 0)) [
  | inl e ↦ rw e (ground arith)
  | inr e ↦
      let r = count_digits-enough fuel (num / 10) (omega (arith, pow-suc 10 (suc fuel))) in
      rw e (omega (arith, r, pow-suc 10 (count_digits fuel (num / 10))))
]

count_digits-least :
    (fuel num : ℕ)
    → 0 < num
    → (1 ≤ count_digits fuel num) × (10 ^ (count_digits fuel num - 1) ≤ num)
unfolding count_digits
count_digits-least zero num h = (omega arith, omega arith)
count_digits-least (suc fuel) num h = elim (Bool-cases (num / 10 == 0)) [
  | inl e ↦ rw e (omega arith, omega arith)
  | inr e ↦
      let r = count_digits-least fuel (num / 10) (ground arith) in
      rw e (omega arith, longer (count_digits fuel (num / 10)) r.0 r.1)
]
  where
    longer : (k : ℕ) → 1 ≤ k → 10 ^ (k - 1) ≤ num / 10 → 10 ^ (suc k - 1) ≤ num
    longer zero a b = absurd (omega (arith, a))
    longer (suc k) a b =
        let q : suc (suc k) - 1 ≡ suc k = omega arith in
        let t : suc k - 1 ≡ k = omega arith in
        rw q (omega (arith, subst (λ x. 10 ^ x ≤ num / 10) t b, pow-suc 10 k))

-- The number that a string of digits stands for; a string with another character is none's.
unfoldable pub read_digits : ℕ → Bytes → Option ℕ
read_digits value [] = some value
read_digits value (ch ∷ s) =
    let rest = read_digits (value * 10 + (ch - 48)) s in
    if leb 48 ch && leb ch 57 then rest else none

read_digits-append :
    (s t : Bytes) (v w : ℕ) → read_digits v s ≡ some w → read_digits v (s ++ t) ≡ read_digits w t
unfolding read_digits
read_digits-append [] t v w e =
    ap (λ (x : Option ℕ). elim x [ none ↦ none | some y ↦ read_digits y t ]) e
read_digits-append (ch ∷ s) t v w e = elim (Bool-cases (leb 48 ch && leb ch 57)) [
  | inl b ↦ rw b (read_digits-append s t (v * 10 + (ch - 48)) w (ground arith))
  | inr b ↦ absurd (ground arith)
]

one_digit : (v d : ℕ) → d < 10 → read_digits v ((48 + d) ∷ []) ≡ some (v * 10 + d)
unfolding read_digits
one_digit v d h =
    let digit : (leb 48 (48 + d) && leb (48 + d) 57) ≡ true = ground arith in
    rw digit (ap some (omega arith))

read_digits-decimals : (i num : ℕ) → num < 10 ^ i → read_digits 0 (decimals i num) ≡ some num
unfolding read_digits decimals
read_digits-decimals zero num h = ap some (omega (arith, h))
read_digits-decimals (suc i) num h =
    read_digits-append (decimals i (num / 10)) ((48 + num % 10) ∷ []) 0 (num / 10)
      (read_digits-decimals i (num / 10) (omega (arith, pow-suc 10 i)))
    ∙ one_digit (num / 10) (num % 10) (omega arith)
    ∙ ap some (omega arith)

-- For a number that is no negative `long`, `%d` writes what `%s` writes for a string of digits that
-- reads as the number, so the twenty rounds given to the loop that counts them are enough; and no
-- fewer digits would do for a number other than 0.
pub put_decimal-digits :
    (n num : ℕ) (p : Output)
    → num < 2 ^ 63
    → (s : Bytes) × (put_decimal false n num p ≡ put_string n s p)
      × (read_digits 0 s ≡ some num)
      × (0 < num → 10 ^ (length s - 1) ≤ num)
unfolding decimal
put_decimal-digits n num p h =
    let d = count_digits 19 num in
    (
      decimals d num,
      put_decimal-decimal n num p,
      read_digits-decimals d num (count_digits-enough 19 num (omega arith)),
      λ k. rw (length-decimals d num) (count_digits-least 19 num k).1,
    )
