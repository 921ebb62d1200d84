-- ===== src/Clib/Copying.antt =====
-- `memcpy`, on words and on bytes, against the copy of a whole range at once.
use native.Mathlib.Nat.{mod-eq_of_lt}
use security_monitor.Prelude.{
  ℕ, zero, suc, ◌+◌, ◌-◌, ◌*◌, ◌/◌, ◌%◌, ◌≤◌, ◌<◌, bit_or, ◌≡◌, sym, ap, ◌∙◌, fun_ext, ◌⊎◌, inl,
  inr, ◌&&◌, Option, some, arith, ltb, leb, ◌==◌, if◌then◌else◌, ltb→lt, Bool-cases, update,
}
use security_monitor.Types.{word_mod}
use security_monitor.Clib.{
  ◌>>=◌, ByteMap, load, store_word, Copy, copy_by_words, copy_by_bytes, memcpy,
}
use security_monitor.Clib.Words.{store_word-load}

-- The first `n` bytes from `src` on stand from `dest` on.
unfoldable pub copied : ℕ → ℕ → ℕ → ByteMap → ByteMap
copied dest src n m x = if leb dest x && ltb x (dest + n) then m (src + (x - dest)) else m x

-- The ranges have no byte in common.
abbrev pub Disjoint : ℕ → ℕ → ℕ → Type 0
Disjoint dest src n = (dest + n ≤ src) ⊎ (src + n ≤ dest)

-- The source is still there after a part of the copy.
pub copied-source :
    (dest src len k i : ℕ) (m : ByteMap)
    → Disjoint dest src len
    → k ≤ len
    → i < len
    → copied dest src k m (src + i) ≡ m (src + i)
unfolding copied
copied-source dest src len k i m d h l = ground (arith, d)

-- One more byte.
pub copied-suc :
    (dest src len k : ℕ) (m : ByteMap)
    → Disjoint dest src len
    → suc k ≤ len
    → (let c = copied dest src k m in update c (dest + k) (c (src + k))) ≡ copied dest src (suc k) m
unfolding copied
copied-suc dest src len k m d h =
    fun_ext λ x. ground (arith, copied-source dest src len k k m d (omega arith) (omega arith))

copied-byte :
    (dest src k : ℕ) (m : ByteMap) → ((x : ℕ) → m x < 256) → (x : ℕ) → copied dest src k m x < 256
unfolding copied
copied-byte dest src k m b x = ground (arith, b x, b (src + (x - dest)))

-- One more word.
copied-word :
    (dest src len k : ℕ) (m : ByteMap)
    → Disjoint dest src len
    → ((x : ℕ) → m x < 256)
    → k + 8 ≤ len
    → (let c = copied dest src k m in store_word (dest + k) (load 8 c (src + k)) c)
      ≡ copied dest src (k + 8) m
unfolding copied
copied-word dest src len k m d b h = fun_ext λ x.
    store_word-load (dest + k) (src + k) (copied dest src k m) (copied dest src k m) x
      (copied-byte dest src k m b)
    ∙ ground (arith, copied-source dest src len k (k + (x - (dest + k))) m d (omega arith))

abbrev at : ℕ → ℕ → ℕ → ByteMap → Copy
at dest src k m = record { d = dest + k; s = src + k; memory = copied dest src k m }

Copy-eq : (c e : Copy) → c.d ≡ e.d → c.s ≡ e.s → c.memory ≡ e.memory → c ≡ e
Copy-eq c e p q r i = record { d = p i; s = q i; memory = r i }

-- The loops, after `k` bytes: the words as far as they go, and the bytes.
by_words-copied :
    (dest src len k last n : ℕ) (m : ByteMap)
    → Disjoint dest src len
    → ((x : ℕ) → m x < 256)
    → last + 7 ≡ dest + len
    → k ≤ len
    → len < k + n
    → copy_by_words n last (at dest src k m) ≡ some (at dest src (k + (len - k) / 8 * 8) m)
unfolding copy_by_words
by_words-copied dest src len k last zero m d b e h l = absurd (omega arith)
by_words-copied dest src len k last (suc n) m d b e h l = elim (Bool-cases (ltb (dest + k) last)) [
  | inl p ↦
      let more : dest + k < last = ltb→lt _ _ p in
      let whole : k + 8 + (len - (k + 8)) / 8 * 8 ≡ k + (len - k) / 8 * 8 = omega arith in
      rw p (
        ap (copy_by_words n last)
          (Copy-eq _ _ (omega arith) (omega arith) (copied-word dest src len k m d b (omega arith)))
        ∙ by_words-copied dest src len (k + 8) last n m d b e (omega arith) (omega arith)
        ∙ ap (λ t. some (at dest src t m)) whole)
  | inr p ↦
      let over : last ≤ dest + k = ground arith in
      let whole : k ≡ k + (len - k) / 8 * 8 = omega arith in
      rw p (ap (λ t. some (at dest src t m)) whole)
]

by_bytes-copied :
    (dest src len k n : ℕ) (m : ByteMap)
    → Disjoint dest src len
    → k ≤ len
    → len < k + n
    → copy_by_bytes n (dest + len) (at dest src k m) ≡ some (at dest src len m)
unfolding copy_by_bytes
by_bytes-copied dest src len k zero m d h l = absurd (omega arith)
by_bytes-copied dest src len k (suc n) m d h l = elim (Bool-cases (ltb (dest + k) (dest + len))) [
  | inl p ↦
      let more : dest + k < dest + len = ltb→lt _ _ p in
      rw p (
        ap (copy_by_bytes n (dest + len))
          (Copy-eq _ _ (omega arith) (omega arith) (copied-suc dest src len k m d (omega arith)))
        ∙ by_bytes-copied dest src len (suc k) n m d (omega arith) (omega arith))
  | inr p ↦
      let over : dest + len ≤ dest + k = ground arith in
      let all : k ≡ len = omega arith in rw p (ap (λ t. some (at dest src t m)) all)
]

pub copied-none : (dest src : ℕ) (m : ByteMap) → copied dest src 0 m ≡ m
unfolding copied
copied-none dest src m = fun_ext λ x. ground arith

-- The rest of the copy, on bytes.
finish_bytes :
    (dest src len k : ℕ) (m : ByteMap) (c : Option Copy)
    → Disjoint dest src len
    → k ≤ len
    → dest + len < word_mod
    → c ≡ some (at dest src k m)
    → (c >>= λ x. copy_by_bytes (suc len) ((dest + len) % word_mod) x >>= λ e. some e.memory)
      ≡ some (copied dest src len m)
finish_bytes dest src len k m c d h l e =
    ap (λ o. o >>= λ x. copy_by_bytes (suc len) ((dest + len) % word_mod) x >>= λ y. some y.memory)
      e
    ∙ ap (λ last. copy_by_bytes (suc len) last (at dest src k m) >>= λ y. some y.memory)
        (mod-eq_of_lt l)
    ∙ ap (λ o. o >>= λ y. some y.memory)
        (by_bytes-copied dest src len k (suc len) m d h (omega arith))

-- Whatever the alignment, `memcpy` ends, and writes the bytes of the source over the destination and
-- nothing else; where the two ranges have no byte in common, the destination does not wrap around and
-- does not end below the address 7, and the memory holds bytes.
pub memcpy-copied :
    (dest src len : ℕ) (m : ByteMap)
    → Disjoint dest src len
    → ((x : ℕ) → m x < 256)
    → 7 ≤ dest + len
    → dest + len < word_mod
    → memcpy dest src len m ≡ some (copied dest src len m)
unfolding memcpy
memcpy-copied dest src len m d b l h =
    let start : Copy = record { d = dest; s = src; memory = m } in
    let begun : start ≡ at dest src 0 m =
      Copy-eq start (at dest src 0 m) (omega arith) (omega arith) (sym (copied-none dest src m)) in
    let last : (dest + len + word_mod - 7) % word_mod ≡ dest + len - 7 = omega arith in
    let words : copy_by_words (suc len) ((dest + len + word_mod - 7) % word_mod) start
        ≡ some (at dest src (0 + (len - 0) / 8 * 8) m) =
      ap (λ t. copy_by_words (suc len) t start) last
      ∙ ap (copy_by_words (suc len) (dest + len - 7)) begun
      ∙ by_words-copied dest src len 0 (dest + len - 7) (suc len) m d b (omega arith) (omega arith)
          (omega arith) in
    elim (Bool-cases (bit_or dest src % 8 == 0)) [
      | inl e ↦ rw e (finish_bytes dest src len _ m _ d (omega arith) h words)
      | inr e ↦ rw e (finish_bytes dest src len 0 m _ d (omega arith) h (ap some begun))
    ]
