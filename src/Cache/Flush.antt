-- ===== src/Cache/Flush.antt =====
-- Which lines a flush of a region loads.
use native.Mathlib.Nat.{pow-suc}
use security_monitor.Prelude.{
  ℕ, zero, suc, ◌+◌, ◌*◌, ◌/◌, ◌%◌, ◌^◌, ◌≤◌, ◌<◌, bit_or, ◌≡◌, refl, sym, ap, ◌∙◌, List, [], ◌∷◌,
  ◌++◌, arith,
}
use security_monitor.Types.{word_mod, region_size, ram_base, num_regions}
use security_monitor.Address.{region_id_to_addr}
use security_monitor.Cache.Lines.{
  llc_num_ways, zero_device_offset, flush_address, flush_way, flush_ways, flush_llc_region,
}
use security_monitor.Platform.Bitmap.{bit_or_step, two_pow_le}

bit_or-zero : (n x : ℕ) → x ≤ n → bit_or x 0 ≡ x
bit_or-zero zero zero h = refl
bit_or-zero zero (suc x) h = absurd (omega arith)
bit_or-zero (suc n) x h = omega (arith, bit_or_step x 0, bit_or-zero n (x / 2) (omega arith))

-- Two numbers with no bit in common are added.
pub bit_or-disjoint : (k a b : ℕ) → b < 2 ^ k → bit_or (a * 2 ^ k) b ≡ a * 2 ^ k + b
bit_or-disjoint zero a zero h = omega (arith, bit_or-zero (a * 1) (a * 1) (omega arith))
bit_or-disjoint zero a (suc b) h = absurd (omega arith)
bit_or-disjoint (suc k) a b h =
    let e : a * 2 ^ suc k ≡ a * 2 ^ k * 2 = ap (λ (t : ℕ). a * t) (pow-suc 2 k) ∙ omega arith in
    let half : a * 2 ^ k * 2 / 2 ≡ a * 2 ^ k = omega arith in
    rw e (
      omega (
        arith,
        bit_or_step (a * 2 ^ k * 2) b,
        ap (λ (t : ℕ). bit_or t (b / 2)) half,
        bit_or-disjoint k a (b / 2) (omega (arith, pow-suc 2 k)),
      ))

-- The lines of a region from `base` on, `n` of them.
pub lines_from : ℕ → ℕ → ℕ → List ℕ
lines_from region_id base zero = []
lines_from region_id base (suc n) =
    lines_from region_id base n
    ++ ((zero_device_offset + ram_base + region_id * region_size + 64 * (base + n)) ∷ [])

flush_address-eq :
    (region_id index : ℕ)
    → region_id < num_regions
    → index < 2 ^ 19
    → flush_address region_id index
      ≡ zero_device_offset + ram_base + region_id * region_size + 64 * index
unfolding flush_address region_id_to_addr
flush_address-eq region_id index h k =
    let a : ℕ = (ram_base + region_id * region_size) % word_mod in
    let e : bit_or zero_device_offset a ≡ zero_device_offset + a =
      bit_or-disjoint 32 1 a (omega arith) in
    let r : zero_device_offset + a ≡ (0xC0 + region_id) * 2 ^ 25 = omega arith in
    rw (e, r) (bit_or-disjoint 25 (0xC0 + region_id) (index * 64) (omega arith) ∙ omega arith)

append-nil : (xs : List ℕ) → xs ++ [] ≡ xs
append-nil [] = refl
append-nil (x ∷ xs) = ap (λ l. x ∷ l) (append-nil xs)

append_assoc : (xs ys zs : List ℕ) → (xs ++ ys) ++ zs ≡ xs ++ (ys ++ zs)
append_assoc [] ys zs = refl
append_assoc (x ∷ xs) ys zs = ap (λ l. x ∷ l) (append_assoc xs ys zs)

lines_from-append :
    (r b i n j : ℕ) → i + n ≡ j → lines_from r b i ++ lines_from r (b + i) n ≡ lines_from r b j
unfolding lines_from
lines_from-append r b i zero j e =
    let q : i ≡ j = omega arith in append-nil (lines_from r b i) ∙ ap (lines_from r b) q
lines_from-append r b i (suc n) zero e = absurd (omega arith)
lines_from-append r b i (suc n) (suc j) e =
    let start : ℕ = zero_device_offset + ram_base + r * region_size in
    let q : start + 64 * (b + i + n) ≡ start + 64 * (b + j) = omega arith in
    sym (append_assoc (lines_from r b i) (lines_from r (b + i) n) _)
    ∙ rw (lines_from-append r b i n j (omega arith), q) refl

flush_way-lines :
    (r base n : ℕ) → r < num_regions → base + n ≤ 2 ^ 19 → flush_way r base n ≡ lines_from r base n
unfolding flush_way lines_from
flush_way-lines r base zero h k = refl
flush_way-lines r base (suc n) h k =
    rw (flush_way-lines r base n h (omega arith), flush_address-eq r (base + n) h (omega arith))
      refl

mul_suc : (a n : ℕ) → a * suc n ≡ a * n + a
mul_suc a n = grind arith

flush_ways-lines :
    (r range n : ℕ)
    → r < num_regions
    → range * n ≤ 2 ^ 19
    → flush_ways r range n ≡ lines_from r 0 (range * n)
unfolding flush_ways lines_from
flush_ways-lines r range zero h k = let e : range * 0 ≡ 0 = omega arith in rw e refl
flush_ways-lines r range (suc n) h k =
    rw
      (
        flush_ways-lines r range n h (omega (arith, mul_suc range n)),
        flush_way-lines r (range * n) range h (omega (arith, mul_suc range n)),
      )
      (let q : range * n ≡ 0 + range * n = omega arith in
        ap (λ b. lines_from r 0 (range * n) ++ lines_from r b range) q
        ∙ lines_from-append r 0 (range * n) range (range * suc n) (omega (arith, mul_suc range n)))

-- A flush of a region whose slice has `2 ^ lgsize` sets, with `lgsize` below 10, loads the first
-- `16 * 2 ^ lgsize` lines of 64 bytes of the region's window in the zero device, each one once, in
-- rising order.
pub flush_llc_region-lines :
    (lgsize region_id : ℕ)
    → lgsize < 10
    → region_id < num_regions
    → flush_llc_region lgsize region_id ≡ lines_from region_id 0 (2 ^ lgsize * llc_num_ways)
unfolding flush_llc_region
flush_llc_region-lines lgsize region_id h k =
    let small : 2 ^ lgsize ≤ 2 ^ 9 = two_pow_le {n = lgsize} {i = 9} (omega arith) in
    flush_ways-lines region_id (2 ^ lgsize) llc_num_ways k (omega arith)
