-- ===== src/Clib/Filling.antt =====
-- `memset`, on words and on bytes, against the fill of a whole range at once.
use native.Mathlib.Nat.{mod-eq_of_lt, pow-suc, max-zero, max-le, le-max_right}
use Prim.Native.Nat.{max}
use security_monitor.Prelude.{
  ℕ, zero, suc, ◌+◌, ◌-◌, ◌*◌, ◌/◌, ◌%◌, ◌^◌, ◌≤◌, ◌<◌, bit_or, ◌≡◌, sym, ap, ◌∙◌, fun_ext, inl,
  inr, ◌&&◌, Option, some, arith, ltb, leb, ◌==◌, if◌then◌else◌, ltb→lt, Bool-cases, update,
}
use security_monitor.Types.{word_mod}
use security_monitor.Platform.Bitmap.{zero-bit_or, bit_or_step}
use security_monitor.Clib.{
  ByteMap, load, store_word, fill_word, fill_by_words, fill_by_bytes, memset,
}
use security_monitor.Clib.Words.{store_word-load}

-- The first `n` bytes from `dest` on are the byte.
unfoldable pub filled : ℕ → ℕ → ℕ → ByteMap → ByteMap
filled dest byte n m x = if leb dest x && ltb x (dest + n) then byte % 256 else m x

-- Digits that do not meet are added.
bit_or-apart : (n x y : ℕ) → x < 2 ^ n → bit_or x (y * 2 ^ n) ≡ x + y * 2 ^ n
bit_or-apart zero zero y h = omega (arith, zero-bit_or (y * 2 ^ 0))
bit_or-apart zero (suc x) y h = absurd (omega arith)
bit_or-apart (suc n) x y h =
    let half : y * 2 ^ suc n / 2 ≡ y * 2 ^ n = omega (arith, ap (λ (t : ℕ). y * t) (pow-suc 2 n)) in
    let even : y * 2 ^ suc n % 2 ≡ 0 = omega (arith, ap (λ (t : ℕ). y * t) (pow-suc 2 n)) in
    let top : max (x % 2) (y * 2 ^ suc n % 2) ≡ x % 2 = ap (max (x % 2)) even ∙ max-zero (x % 2) in
    omega (
      arith,
      bit_or_step x (y * 2 ^ suc n),
      ap (bit_or (x / 2)) half,
      bit_or-apart n (x / 2) y (omega (arith, pow-suc 2 n)),
      half,
      top,
    )

-- A word twice, side by side.
doubled :
    (n x : ℕ) → x < 2 ^ n → x * 2 ^ n < word_mod → bit_or x (x * 2 ^ n % word_mod) ≡ x + x * 2 ^ n
doubled n x h l = ap (bit_or x) (mod-eq_of_lt l) ∙ bit_or-apart n x x h

fill_word-load : (byte : ℕ) → fill_word byte ≡ load 8 (λ _. byte % 256) 0
unfolding fill_word load
fill_word-load byte =
    let b : ℕ = byte % 256 in
    let two : ℕ = b + b * 256 in
    let four : ℕ = two + two * 65536 in
    let shift : four * 2 ^ 16 % word_mod * 2 ^ 16 % word_mod ≡ four * 2 ^ 32 % word_mod =
      omega arith in
    let join = λ (x : ℕ). bit_or x (x * 2 ^ 16 % word_mod * 2 ^ 16 % word_mod) in
    let widen = λ (x : ℕ). bit_or x (x * 2 ^ 16 % word_mod) in
    let first : bit_or b (b * 2 ^ 8 % word_mod) ≡ two = doubled 8 b (omega arith) (omega arith) in
    let second : widen two ≡ four = doubled 16 two (omega arith) (omega arith) in
    let third : join four ≡ four + four * 2 ^ 32 =
      ap (bit_or four) shift ∙ doubled 32 four (omega arith) (omega arith) in
    ap (λ x. join (widen x)) first ∙ ap join second ∙ third ∙ omega arith

fill-byte :
    (byte dest x : ℕ) (m : ByteMap)
    → store_word dest (fill_word byte) m x
      ≡ (if leb dest x && ltb x (dest + 8) then byte % 256 else m x)
fill-byte byte dest x m =
    ap (λ w. store_word dest w m x) (fill_word-load byte)
    ∙ store_word-load dest 0 (λ _. byte % 256) m x (λ y. omega arith)

filled-word :
    (dest byte k : ℕ) (m : ByteMap)
    → store_word (dest + k) (fill_word byte) (filled dest byte k m) ≡ filled dest byte (k + 8) m
unfolding filled
filled-word dest byte k m =
    fun_ext λ x. fill-byte byte (dest + k) x (filled dest byte k m) ∙ ground arith

filled-suc :
    (dest byte k : ℕ) (m : ByteMap)
    → update (filled dest byte k m) (dest + k) (byte % 256) ≡ filled dest byte (suc k) m
unfolding filled
filled-suc dest byte k m = fun_ext λ x. ground arith

by_words-filled :
    (dest byte len k n : ℕ) (m : ByteMap)
    → (len - k) % 8 ≡ 0
    → k ≤ len
    → len < k + n
    → fill_by_words n (dest + len) (fill_word byte) (dest + k) (filled dest byte k m)
      ≡ some (filled dest byte len m)
unfolding fill_by_words
by_words-filled dest byte len k zero m e h l = absurd (omega arith)
by_words-filled dest byte len k (suc n) m e h l = elim (Bool-cases (ltb (dest + k) (dest + len))) [
  | inl p ↦
      let more : dest + k < dest + len = ltb→lt _ _ p in
      let next : dest + k + 8 ≡ dest + (k + 8) = omega arith in
      rw p (
        ap
          (λ t.
            fill_by_words n (dest + len) (fill_word byte) t
              (store_word (dest + k) (fill_word byte) (filled dest byte k m)))
          next
        ∙ ap (fill_by_words n (dest + len) (fill_word byte) (dest + (k + 8)))
            (filled-word dest byte k m)
        ∙ by_words-filled dest byte len (k + 8) n m (omega arith) (omega arith) (omega arith))
  | inr p ↦
      let over : dest + len ≤ dest + k = ground arith in
      let all : k ≡ len = omega arith in rw p (ap (λ t. some (filled dest byte t m)) all)
]

by_bytes-filled :
    (dest byte len k n : ℕ) (m : ByteMap)
    → k ≤ len
    → len < k + n
    → fill_by_bytes n (dest + len) byte (dest + k) (filled dest byte k m)
      ≡ some (filled dest byte len m)
unfolding fill_by_bytes
by_bytes-filled dest byte len k zero m h l = absurd (omega arith)
by_bytes-filled dest byte len k (suc n) m h l = elim (Bool-cases (ltb (dest + k) (dest + len))) [
  | inl p ↦
      let more : dest + k < dest + len = ltb→lt _ _ p in
      let next : dest + k + 1 ≡ dest + suc k = omega arith in
      rw p (
        ap
          (λ t.
            fill_by_bytes n (dest + len) byte t
              (update (filled dest byte k m) (dest + k) (byte % 256)))
          next
        ∙ ap (fill_by_bytes n (dest + len) byte (dest + suc k)) (filled-suc dest byte k m)
        ∙ by_bytes-filled dest byte len (suc k) n m (omega arith) (omega arith))
  | inr p ↦
      let over : dest + len ≤ dest + k = ground arith in
      let all : k ≡ len = omega arith in rw p (ap (λ t. some (filled dest byte t m)) all)
]

-- The lowest digits of `b` are clear where those of the sum are.
or-even : (a b : ℕ) → bit_or a b % 2 ≡ 0 → (b % 2 ≡ 0) × (bit_or (a / 2) (b / 2) * 2 ≡ bit_or a b)
or-even a b h =
    let top = max (a % 2) (b % 2) in
    let bit : top ≤ 1 = max-le (omega arith) (omega arith) in
    (
      omega (arith, bit_or_step a b, bit, le-max_right (a % 2) (b % 2)),
      omega (arith, bit_or_step a b, bit),
    )

or-aligned : (a b : ℕ) → bit_or a b % 8 ≡ 0 → b % 8 ≡ 0
or-aligned a b h =
    let p = or-even a b (omega arith) in
    let q = or-even (a / 2) (b / 2) (omega arith) in
    let r = or-even (a / 2 / 2) (b / 2 / 2) (omega arith) in omega arith

filled-none : (dest byte : ℕ) (m : ByteMap) → filled dest byte 0 m ≡ m
unfolding filled
filled-none dest byte m = fun_ext λ x. ground arith

-- A loop's first call, before any byte is written.
from_start :
    (f : ℕ → ByteMap → Option ByteMap) (dest byte : ℕ) (m : ByteMap)
    → f dest m ≡ f (dest + 0) (filled dest byte 0 m)
from_start f dest byte m =
    ap (λ t. f t m) (omega arith) ∙ ap (f (dest + 0)) (sym (filled-none dest byte m))

-- Whatever the alignment, `memset` ends, and sets the whole range to the lowest byte of its argument and
-- nothing else, where the range does not wrap around.
pub memset-filled :
    (dest byte len : ℕ) (m : ByteMap)
    → dest + len < word_mod
    → memset dest byte len m ≡ some (filled dest byte len m)
unfolding memset
memset-filled dest byte len m h = elim (Bool-cases (bit_or dest len % 8 == 0)) [
  | inl e ↦
      let aligned : len % 8 ≡ 0 = or-aligned dest len (ground arith) in
      rw e (
        ap (λ t. fill_by_words (suc len) t (fill_word byte) dest m) (mod-eq_of_lt h)
        ∙ from_start (fill_by_words (suc len) (dest + len) (fill_word byte)) dest byte m
        ∙ by_words-filled dest byte len 0 (suc len) m (omega arith) (omega arith) (omega arith))
  | inr e ↦ rw e (
      ap (λ t. fill_by_bytes (suc len) t byte dest m) (mod-eq_of_lt h)
      ∙ from_start (fill_by_bytes (suc len) (dest + len) byte) dest byte m
      ∙ by_bytes-filled dest byte len 0 (suc len) m (omega arith) (omega arith))
]
