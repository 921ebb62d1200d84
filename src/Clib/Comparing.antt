-- ===== src/Clib/Comparing.antt =====
-- The comparisons of memory, and the strings.
use native.Mathlib.Nat.{le-max_left, le-max_right}
use security_monitor.Prelude.{
  ℕ, zero, suc, ◌+◌, ◌-◌, ◌/◌, ◌%◌, ◌≤◌, ◌<◌, bit_or, ◌≡◌, refl, ap, ◌∙◌, ◌↔◌, arith,
}
use security_monitor.Platform.Bitmap.{bit_or_step}
use security_monitor.Clib.{ByteMap, int_mod, memcmp, memncmp_from, memncmp}

-- The two ranges hold the same bytes.
abbrev pub SameBytes : ByteMap → ℕ → ℕ → ℕ → Type 0
SameBytes m s1 s2 n = (i : ℕ) → i < n → m (s1 + i) ≡ m (s2 + i)

same-first :
    (m : ByteMap) (s1 s2 n : ℕ)
    → m s1 ≡ m s2
    → SameBytes m (s1 + 1) (s2 + 1) n
    → SameBytes m s1 s2 (suc n)
same-first m s1 s2 n e p zero h = ap m (omega arith) ∙ e ∙ ap m (omega arith)
same-first m s1 s2 n e p (suc i) h = ap m (omega arith) ∙ p i (omega arith) ∙ ap m (omega arith)

pub same-rest :
    (m : ByteMap) (s1 s2 n : ℕ) → SameBytes m s1 s2 (suc n) → SameBytes m (s1 + 1) (s2 + 1) n
same-rest m s1 s2 n p i h = ap m (omega arith) ∙ p (suc i) (omega arith) ∙ ap m (omega arith)

pub same-head : (m : ByteMap) (s1 s2 n : ℕ) → SameBytes m s1 s2 (suc n) → m s1 ≡ m s2
same-head m s1 s2 n p = ap m (omega arith) ∙ p 0 (omega arith) ∙ ap m (omega arith)

memcmp-same :
    (m : ByteMap) (s1 s2 n : ℕ) → ((x : ℕ) → m x < 256) → memcmp m s1 s2 n ≡ 0 → SameBytes m s1 s2 n
unfolding memcmp
memcmp-same m s1 s2 zero b z = λ i h. absurd (omega arith)
memcmp-same m s1 s2 (suc n) b z =
    let same : m s1 ≡ m s2 = ground (arith, b s1, b s2) in
    same-first m s1 s2 n same (memcmp-same m (s1 + 1) (s2 + 1) n b (ground arith))

same-memcmp : (m : ByteMap) (s1 s2 n : ℕ) → SameBytes m s1 s2 n → memcmp m s1 s2 n ≡ 0
unfolding memcmp
same-memcmp m s1 s2 zero p = refl
same-memcmp m s1 s2 (suc n) p =
    ground (arith, same-head m s1 s2 n p, same-memcmp m (s1 + 1) (s2 + 1) n (same-rest m s1 s2 n p))

-- No bit is lost.
le-bit_or : (n x y : ℕ) → x + y ≤ n → (x ≤ bit_or x y) × (y ≤ bit_or x y)
le-bit_or zero x y h = (omega arith, omega arith)
le-bit_or (suc n) x y h =
    let p = le-bit_or n (x / 2) (y / 2) (omega arith) in
    (
      omega (arith, bit_or_step x y, le-max_left (x % 2) (y % 2)),
      omega (arith, bit_or_step x y, le-max_right (x % 2) (y % 2)),
    )

memncmp-same :
    (m : ByteMap) (s1 s2 n res : ℕ)
    → ((x : ℕ) → m x < 256)
    → memncmp_from m s1 s2 n res ≡ 0
    → (res ≡ 0) × SameBytes m s1 s2 n
unfolding memncmp_from
memncmp-same m s1 s2 zero res b z = (z, λ i h. absurd (omega arith))
memncmp-same m s1 s2 (suc n) res b z =
    let d : ℕ = (m s1 + int_mod - m s2) % int_mod in
    let rest = memncmp-same m (s1 + 1) (s2 + 1) n (bit_or res d) b z in
    let bits = le-bit_or (res + d) res d (omega arith) in
    let same : m s1 ≡ m s2 = omega (arith, b s1, b s2) in
    (omega arith, same-first m s1 s2 n same rest.1)

same-memncmp : (m : ByteMap) (s1 s2 n : ℕ) → SameBytes m s1 s2 n → memncmp_from m s1 s2 n 0 ≡ 0
unfolding memncmp_from
same-memncmp m s1 s2 zero p = refl
same-memncmp m s1 s2 (suc n) p =
    let same : m s1 ≡ m s2 = same-head m s1 s2 n p in
    let clear : (m s1 + int_mod - m s2) % int_mod ≡ 0 = omega arith in
    ap (λ t. memncmp_from m (s1 + 1) (s2 + 1) n (bit_or 0 t)) clear
    ∙ same-memncmp m (s1 + 1) (s2 + 1) n (same-rest m s1 s2 n p)

-- `memcmp`, which stops at the first difference, and `memncmp`, which reads all the bytes whatever
-- they are, are zero for the same two ranges: those with the same bytes.
pub memcmp-memncmp :
    (m : ByteMap) (s1 s2 n : ℕ)
    → ((x : ℕ) → m x < 256)
    → ((memcmp m s1 s2 n ≡ 0) ↔ SameBytes m s1 s2 n)
      × ((memncmp m s1 s2 n ≡ 0) ↔ SameBytes m s1 s2 n)
unfolding memncmp
memcmp-memncmp m s1 s2 n b = (
  (memcmp-same m s1 s2 n b, same-memcmp m s1 s2 n),
  ((λ z. (memncmp-same m s1 s2 n 0 b z).1), same-memncmp m s1 s2 n),
)
