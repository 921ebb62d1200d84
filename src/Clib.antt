-- ===== src/Clib.antt =====
-- src/clib/: copies, fills and comparisons of memory, and strings. The memory is bytes by address; a loop
-- on pointers runs on fuel, and `none` is its end.
pub mod Words
pub mod Copying
pub mod Filling
pub mod Comparing
pub mod Strings
use security_monitor.Prelude.{
  ℕ, zero, suc, ◌+◌, ◌-◌, ◌*◌, ◌/◌, ◌%◌, ◌^◌, bit_or, not, ◌&&◌, Option, none, some, ltb, leb, ◌==◌,
  if◌then◌else◌, update,
}
use security_monitor.Types.{word_mod}

infixl 20 ◌>>=◌
abbrev pub ◌>>=◌ : {A B : Type 0} → Option A → (A → Option B) → Option B
none >>= k = none
some a >>= k = k a

abbrev pub ByteMap : Type 0
ByteMap = ℕ → ℕ

-- A load of `n` bytes, the lowest first, and a store of eight.
unfoldable pub load : ℕ → ByteMap → ℕ → ℕ
load zero m a = 0
load (suc n) m a = m a + 256 * load n m (a + 1)

unfoldable pub store_word : ℕ → ℕ → ByteMap → ByteMap
store_word a w m x = if leb a x && ltb x (a + 8) then w / 256 ^ (x - a) % 256 else m x

-- The pointers and the memory in a copy.
pub record Copy : Type 0 where
  pub d : ℕ
  pub s : ℕ
  pub memory : ByteMap

-- The loop on words, while `d` is below `last`, and the loop on bytes.
unfoldable pub copy_by_words : ℕ → ℕ → Copy → Option Copy
unfolding load store_word
copy_by_words zero last c = none
copy_by_words (suc n) last c =
    let rest = copy_by_words n last (record {
      d = c.d + 8;
      s = c.s + 8;
      memory = store_word c.d (load 8 c.memory c.s) c.memory;
    }) in
    if ltb c.d last then rest else some c

unfoldable pub copy_by_bytes : ℕ → ℕ → Copy → Option Copy
copy_by_bytes zero last c = none
copy_by_bytes (suc n) last c =
    let rest =
      copy_by_bytes n last
        (record { d = c.d + 1; s = c.s + 1; memory = update c.memory c.d (c.memory c.s) }) in
    if ltb c.d last then rest else some c

-- `((uintptr_t)dest | (uintptr_t)src) & (sizeof(uintptr_t)-1)` decides.
unfoldable pub memcpy : ℕ → ℕ → ℕ → ByteMap → Option ByteMap
unfolding copy_by_words copy_by_bytes
memcpy dest src len m = do
  let start : Copy = record { d = dest; s = src; memory = m }
  c ←
      if bit_or dest src % 8 == 0
      then copy_by_words (suc len) ((dest + len + word_mod - 7) % word_mod) start
      else some start
  e ← copy_by_bytes (suc len) ((dest + len) % word_mod) c
  some e.memory

-- `byte & 0xFF` in all eight bytes.
unfoldable pub fill_word : ℕ → ℕ
fill_word byte =
    let word0 = byte % 256 in
    let word1 = bit_or word0 (word0 * 2 ^ 8 % word_mod) in
    let word2 = bit_or word1 (word1 * 2 ^ 16 % word_mod) in
    bit_or word2 (word2 * 2 ^ 16 % word_mod * 2 ^ 16 % word_mod)

unfoldable pub fill_by_words : ℕ → ℕ → ℕ → ℕ → ByteMap → Option ByteMap
unfolding store_word
fill_by_words zero last word d m = none
fill_by_words (suc n) last word d m =
    let rest = fill_by_words n last word (d + 8) (store_word d word m) in
    if ltb d last then rest else some m

unfoldable pub fill_by_bytes : ℕ → ℕ → ℕ → ℕ → ByteMap → Option ByteMap
fill_by_bytes zero last byte d m = none
fill_by_bytes (suc n) last byte d m =
    let rest = fill_by_bytes n last byte (d + 1) (update m d (byte % 256)) in
    if ltb d last then rest else some m

unfoldable pub memset : ℕ → ℕ → ℕ → ByteMap → Option ByteMap
unfolding fill_word fill_by_words fill_by_bytes
memset dest byte len m =
    if bit_or dest len % 8 == 0
    then fill_by_words (suc len) ((dest + len) % word_mod) (fill_word byte) dest m
    else fill_by_bytes (suc len) ((dest + len) % word_mod) byte dest m

-- A difference of two bytes, as an `int` of 32 bits.
abbrev pub int_mod : ℕ
int_mod = 2 ^ 32

unfoldable pub memcmp : ByteMap → ℕ → ℕ → ℕ → ℕ
memcmp m s1 s2 zero = 0
memcmp m s1 s2 (suc n) =
    let rest = memcmp m (s1 + 1) (s2 + 1) n in
    if m s1 == m s2 then rest else (m s1 + int_mod - m s2) % int_mod

-- The loop with the result `res` so far.
unfoldable pub memncmp_from : ByteMap → ℕ → ℕ → ℕ → ℕ → ℕ
memncmp_from m s1 s2 zero res = res
memncmp_from m s1 s2 (suc n) res =
    memncmp_from m (s1 + 1) (s2 + 1) n (bit_or res ((m s1 + int_mod - m s2) % int_mod))

unfoldable pub memncmp : ByteMap → ℕ → ℕ → ℕ → ℕ
unfolding memncmp_from
memncmp m s1 s2 n = memncmp_from m s1 s2 n 0

-- The strings, whose length the fuel has to exceed.
unfoldable pub strlen_from : ByteMap → ℕ → ℕ → ℕ → Option ℕ
strlen_from m s p zero = none
strlen_from m s p (suc n) =
    let rest = strlen_from m s (p + 1) n in if not (m p == 0) then rest else some (p - s)

unfoldable pub strlen : ByteMap → ℕ → ℕ → Option ℕ
unfolding strlen_from
strlen m s fuel = strlen_from m s s fuel

unfoldable pub strcmp : ByteMap → ℕ → ℕ → ℕ → Option ℕ
strcmp m s1 s2 zero = none
strcmp m s1 s2 (suc n) =
    let rest = strcmp m (s1 + 1) (s2 + 1) n in
    if not (m s1 == 0) && (m s1 == m s2) then rest else some ((m s1 + int_mod - m s2) % int_mod)

unfoldable pub strcpy : ByteMap → ℕ → ℕ → ℕ → Option ByteMap
strcpy m destination source zero = none
strcpy m destination source (suc n) =
    let rest = strcpy (update m destination (m source)) (destination + 1) (source + 1) n in
    if not (m source == 0) then rest else some (update m destination 0)
