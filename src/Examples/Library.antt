-- ===== src/Examples/Library.antt =====
-- Small memories.
use security_monitor.Prelude.{ℕ, ◌<◌, ◌≡◌, refl, ◌↔◌, inl, inr, some, arith, ltb, if◌then◌else◌}
use security_monitor.Clib.{◌>>=◌, ByteMap, memcpy, memset, memcmp, memncmp, strlen, strcmp, strcpy}
use security_monitor.Clib.Copying.{copied, memcpy-copied}
use security_monitor.Clib.Filling.{filled, memset-filled}
use security_monitor.Clib.Comparing.{SameBytes, memcmp-memncmp}
use security_monitor.Clib.Strings.{StringAt, strcpy-strlen-strcmp}

-- The byte at an address is the address, up to 200; the rest is zero.
abbrev rising : ByteMap
rising x = if ltb x 200 then x else 0

rising-byte : (x : ℕ) → rising x < 256
rising-byte x = ground arith

-- Nineteen bytes on aligned addresses, two words and three bytes; and the same on odd ones.
memcpy-copied_example : memcpy 64 104 19 rising ≡ some (copied 64 104 19 rising)
memcpy-copied_example =
    memcpy-copied 64 104 19 rising (inl (omega arith)) rising-byte (omega arith) (omega arith)

memset-filled_example : memset 64 511 24 rising ≡ some (filled 64 511 24 rising)
memset-filled_example = memset-filled 64 511 24 rising (omega arith)

memcmp-memncmp_example :
    ((memcmp rising 300 400 16 ≡ 0) ↔ SameBytes rising 300 400 16)
    × ((memncmp rising 300 400 16 ≡ 0) ↔ SameBytes rising 300 400 16)
memcmp-memncmp_example = memcmp-memncmp rising 300 400 16 rising-byte

-- The string from 190 on ends at 200.
rising-StringAt : StringAt rising 190 10
rising-StringAt = ((λ i h. ground arith), refl)

strcpy-strlen-strcmp_example :
    (strcpy rising 300 190 20 ≡ some (copied 300 190 11 rising))
    × (strlen (copied 300 190 11 rising) 300 20 ≡ some 10)
    × (strcmp (copied 300 190 11 rising) 300 190 20 ≡ some 0)
strcpy-strlen-strcmp_example =
    strcpy-strlen-strcmp rising 300 190 10 20 rising-StringAt (inr (omega arith)) (omega arith)

-- Runs.
copied_run : (memcpy 64 104 19 rising >>= λ m. some (m 82)) ≡ some 122
unfolding memcpy
copied_run = refl

filled_run : (memset 64 511 24 rising >>= λ m. some (m 87)) ≡ some 255
unfolding memset
filled_run = refl
