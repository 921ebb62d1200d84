-- ===== src/Isolation/Hardware/Traps.antt =====
-- The registers of the cores after boot and any traps, each taken from the program that runs.
use security_monitor.Init.{sm_init, initialize_memory_protection}
use security_monitor.Prelude.{ℕ, ◌<◌, ◌≡◌, ◌≢◌, Bool, some}
use security_monitor.Types.{num_cores, owner_untrusted, Machine}
use security_monitor.Crypto.{Crypto}
use security_monitor.Enclave.Load.{Image}
use security_monitor.Dispatch.{Trap, take_trap, Sized, from_untrusted, from_enclave, timer}

-- The program that traps is the one that the core runs.
abbrev pub Runs : Trap → ℕ → Machine → Type 0
Runs (from_untrusted regs) core m = (m.sm.cores core).owner ≡ owner_untrusted
Runs (from_enclave regs) core m = (m.sm.cores core).owner ≢ owner_untrusted
Runs (timer regs) core m = (m.sm.cores core).owner ≢ owner_untrusted

-- What the two cores have written when the first program runs.
abbrev pub boot : ℕ → Machine → Machine
boot stack_ptr m =
    initialize_memory_protection 1 (initialize_memory_protection 0 (sm_init stack_ptr m))

module _ (c : Crypto) (image : Image) (debug_enclave : Bool) where
  pub data Turns (m : Machine) : Machine → Type 0 where
    begin : Turns m m
    turn :
        {n x : Machine} (core mtime : ℕ) (t : Trap)
        → Turns m n
        → core < num_cores
        → Runs t core n
        → Sized t
        → take_trap c image debug_enclave core mtime t n ≡ some x
        → Turns m x
