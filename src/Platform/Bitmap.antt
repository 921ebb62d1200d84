-- ===== src/Platform/Bitmap.antt =====
-- The bitmaps of regions: what a core's register says of a region is what the map says.
use Prim.Native.Nat.{max, digits, bit_or-bitwise}
use native.Mathlib.Nat.{pow-suc, div-eq_of_lt, add-mul-div_left, add-div_right, pow-le-pow_right}
use security_monitor.Prelude.{
  ℕ, zero, suc, ◌+◌, ◌-◌, ◌*◌, ◌/◌, ◌%◌, ◌^◌, ◌≤◌, ◌<◌, bit_or, ◌≡◌, refl, ap, ◌∙◌, inl, inr, ◌&&◌,
  arith, ltb, lt→ltb, Bool-cases,
}
use security_monitor.Types.{num_regions, RegionMap}
use security_monitor.Platform.{region_is_accessible, bitmap_below, regions_to_bitmap}

-- The law of `bit_or` for the lowest digit, from the recursion that it stands for.
abbrev or_digits : ℕ → ℕ → ℕ → ℕ
or_digits n a b = digits (λ x. x) max n a b

or_digits_fuel : (n m a b : ℕ) → a ≤ n → a ≤ m → or_digits n a b ≡ or_digits m a b
or_digits_fuel zero zero a b p q = refl
or_digits_fuel zero (suc m) zero b p q = refl
or_digits_fuel zero (suc m) (suc a) b p q = absurd (omega arith)
or_digits_fuel (suc n) zero zero b p q = refl
or_digits_fuel (suc n) zero (suc a) b p q = absurd (omega arith)
or_digits_fuel (suc n) (suc m) zero b p q = refl
or_digits_fuel (suc n) (suc m) (suc a) b p q =
    omega (arith, or_digits_fuel n m (suc a / 2) (b / 2) (omega arith) (omega arith))

pub zero-bit_or : (b : ℕ) → bit_or 0 b ≡ b
zero-bit_or b = bit_or-bitwise 0 b

pub bit_or_step : (a b : ℕ) → bit_or a b ≡ bit_or (a / 2) (b / 2) * 2 + max (a % 2) (b % 2)
bit_or_step zero b = omega (arith, zero-bit_or b, zero-bit_or (b / 2))
bit_or_step (suc a) b = omega (
  arith,
  bit_or-bitwise (suc a) b,
  bit_or-bitwise (suc a / 2) (b / 2),
  or_digits_fuel a (suc a / 2) (suc a / 2) (b / 2) (omega arith) (omega arith),
)

-- A bit above all others is added.
bit_or-top : (n x : ℕ) → x < 2 ^ n → bit_or x (2 ^ n) ≡ x + 2 ^ n
bit_or-top zero zero h = zero-bit_or 1
bit_or-top zero (suc x) h = absurd (omega arith)
bit_or-top (suc n) x h = omega (
  arith,
  pow-suc 2 n,
  bit_or_step x (2 ^ suc n),
  ap (bit_or (x / 2)) (half n),
  bit_or-top n (x / 2) (omega (arith, pow-suc 2 n)),
)
  where
    half : (k : ℕ) → 2 ^ suc k / 2 ≡ 2 ^ k
    half k = omega (arith, pow-suc 2 k)

bitmap_below-lt : (flags : RegionMap) (n : ℕ) → bitmap_below flags n < 2 ^ n
unfolding bitmap_below
bitmap_below-lt flags zero = omega arith
bitmap_below-lt flags (suc n) = elim (Bool-cases (flags n)) [
  | inl e ↦
      rw (e, bit_or-top n _ (bitmap_below-lt flags n))
        (omega (arith, pow-suc 2 n, bitmap_below-lt flags n))
  | inr e ↦ rw e (omega (arith, pow-suc 2 n, bitmap_below-lt flags n))
]

two_pow_pos : (n : ℕ) → 0 < 2 ^ n
two_pow_pos zero = omega arith
two_pow_pos (suc n) = omega (arith, pow-suc 2 n, two_pow_pos n)

two_pow_add : (i k n : ℕ) → n ≡ i + k → 2 ^ n ≡ 2 ^ i * 2 ^ k
two_pow_add i zero n h = let e : n ≡ i = omega arith in rw e (omega arith)
two_pow_add i (suc k) zero h = absurd (omega arith)
two_pow_add i (suc k) (suc n) h =
    omega
      (arith, pow-suc 2 n, ap (λ (t : ℕ). 2 ^ i * t) (pow-suc 2 k), two_pow_add i k n (omega arith))

-- Adding the bit `n` changes no bit below it.
bit_low : (i n x : ℕ) → i < n → (x + 2 ^ n) / 2 ^ i % 2 ≡ x / 2 ^ i % 2
bit_low i n x h =
    rw
      (
        two_pow_add i (suc (n - i - 1)) n (omega arith),
        add-mul-div_left x (2 ^ suc (n - i - 1)) (two_pow_pos i),
      )
      (omega (arith, pow-suc 2 (n - i - 1)))

bit_self : (n x : ℕ) → x < 2 ^ n → (x + 2 ^ n) / 2 ^ n % 2 ≡ 1
bit_self n x h = rw (add-div_right x (two_pow_pos n), div-eq_of_lt h) refl

bit_high : (i x : ℕ) → x < 2 ^ i → x / 2 ^ i % 2 ≡ 0
bit_high i x h = rw (div-eq_of_lt h) refl

pub two_pow_le : {n i : ℕ} → n ≤ i → 2 ^ n ≤ 2 ^ i
two_pow_le h = pow-le-pow_right (omega arith) h

-- A bit above `n` is clear in a number below `2 ^ n`.
bit_above : (i n x : ℕ) → n ≤ i → x < 2 ^ n → x / 2 ^ i % 2 ≡ 0
bit_above i n x h k = bit_high i x (omega (arith, two_pow_le h))

accessible-below :
    (flags : RegionMap) (n i : ℕ)
    → region_is_accessible (bitmap_below flags n) i ≡ (ltb i n && flags i)
unfolding region_is_accessible bitmap_below
accessible-below flags zero i = rw (bit_above i 0 0 (omega arith) (omega arith)) (ground arith)
accessible-below flags (suc n) i = elim (Bool-cases (flags n)) [
  | inl e ↦
      rw (e, bit_or-top n _ (bitmap_below-lt flags n))
        (ground (
          arith,
          accessible-below flags n i,
          bit_low i n (bitmap_below flags n),
          bit_self n (bitmap_below flags n) (bitmap_below-lt flags n),
          bit_above i (suc n) (bitmap_below flags n + 2 ^ n),
          bitmap_below-lt flags n,
          pow-suc 2 n,
        ))
  | inr e ↦ rw e (ground (arith, accessible-below flags n i))
]

-- A core that holds the bitmap of a map reaches exactly the regions of the map.
pub accessible-bitmap :
    (flags : RegionMap) (i : ℕ)
    → i < num_regions
    → region_is_accessible (regions_to_bitmap flags) i ≡ flags i
unfolding regions_to_bitmap
accessible-bitmap flags i h =
    accessible-below flags num_regions i ∙ rw (lt→ltb i num_regions h) refl
