-- ===== src/Isolation/Traps.antt =====
-- The traps into the monitor in any order, from boot on.
use security_monitor.Prelude.{ℕ, ◌<◌, ◌≡◌, Bool, some}
use security_monitor.Types.{num_cores, Machine}
use security_monitor.Crypto.{Crypto}
use security_monitor.Enclave.Load.{Image}
use security_monitor.Dispatch.{Trap, take_trap, Sized}

module _ (c : Crypto) (image : Image) (debug_enclave : Bool) where
  -- Traps on the cores, one after the other, at any times, each of which ends: none panics or leaves
  -- the bounds of an array.
  pub data Traps (m : Machine) : Machine → Type 0 where
    start : Traps m m
    trap :
        {n x : Machine} (core mtime : ℕ) (t : Trap)
        → Traps m n
        → core < num_cores
        → Sized t
        → take_trap c image debug_enclave core mtime t n ≡ some x
        → Traps m x
