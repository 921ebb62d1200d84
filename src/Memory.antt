-- ===== src/Memory.antt =====
-- The copies between the monitor's memory and the running program's, src/clib/memcpy_virt.c, and the
-- bytes of numbers. An address of the running program is virtual; its translation, and a fault in it,
-- are the hardware's.
use security_monitor.Prelude.{
  ℕ, zero, suc, ◌+◌, ◌-◌, ◌/◌, ◌%◌, ◌^◌, [], ◌∷◌, ltb, leb, if◌then◌else◌, update,
}
use security_monitor.Types.{Bytes, Machine}

-- `memcpy_u2m`: `n` bytes of the program's memory.
unfoldable pub read_user : (ℕ → ℕ) → ℕ → ℕ → Bytes
read_user user addr zero = []
read_user user addr (suc n) = user addr ∷ read_user user (addr + 1) n

-- `memcpy_m2u`: the bytes, written from an address on.
unfoldable pub write_user : (ℕ → ℕ) → ℕ → Bytes → ℕ → ℕ
write_user user addr [] = user
write_user user addr (b ∷ bs) = write_user (update user addr b) (addr + 1) bs

abbrev pub put_user : ℕ → Bytes → Machine → Machine
put_user addr bytes m = record m { user = write_user m.user addr bytes }

-- The bytes of a number in memory, the lowest first.
unfoldable pub le_bytes : ℕ → ℕ → Bytes
le_bytes zero x = []
le_bytes (suc n) x = (x % 256) ∷ le_bytes n (x / 256)

-- `n` bytes of the RAM, which is kept in words of eight.
unfoldable pub read_ram : (ℕ → ℕ) → ℕ → ℕ → Bytes
read_ram words addr zero = []
read_ram words addr (suc n) =
    (words (addr - addr % 8) / 256 ^ (addr % 8) % 256) ∷ read_ram words (addr + 1) n

-- `memset(dst, 0, n)` and `memcpy(dst, src, n)`, at multiples of eight.
abbrev pub zero_words : ℕ → ℕ → Machine → Machine
zero_words dst n m = record m {
  words = λ a. if leb dst a then (if ltb a (dst + n) then 0 else m.words a) else m.words a;
}

abbrev pub copy_words : ℕ → (ℕ → ℕ) → ℕ → Machine → Machine
copy_words dst from n m = record m {
  words =
      λ a. if leb dst a then (if ltb a (dst + n) then from (a - dst) else m.words a) else m.words a;
}
