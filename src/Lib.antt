-- ===== src/Lib.antt =====
-- The security monitor (SM): firmware of a RISC-V machine that keeps enclaves apart from the operating
-- system and from each other. It owns a table of the 64 regions of the RAM, the structures of enclaves
-- and threads in metadata regions, mailboxes, and the bitmaps that tell each core's hardware what it
-- may reach. Its calls come from the untrusted system or from an enclave, on two cores.
--
-- Parts and files:
-- Types: api/api_types.h, src/sm_types.h, src/sm_constants.h, platform/parameters.h. The records have
-- the fields of the C structures. `Machine` is all the state: `sm` is `sm_state_t`; the enclaves and
-- the threads stand by address, page maps by region and page, the other RAM in words of eight bytes,
-- the memory of the running program in bytes; then the control registers, the timers, the commands to
-- the cache's controller and the addresses that the flushes of the cache have loaded, in order.
-- Address, Metadata: the arithmetic and the page checks of src/sm.h and
-- src/common/lock_region_iff_valid_metadata.c, src/common/lock_region_iff_free_metadata_pages.c.
-- Call: how a call runs: statements over the machine and the local `locked_regions`, early returns,
-- and the fault of an index out of bounds, which C leaves undefined, or of a panic.
-- Locks: the try-locks of src/sm.h. A lock is its flag, and taking a held lock refuses. Locks.Held
-- describes the machine while a call holds locks, Locks.Steps and Metadata.Steps give the rules for
-- the statements that take one, Locks.Commit those for a state change between lock and unlock.
-- Platform: platform/platform_helper.c, platform/platform_memory_protection_common.c. Platform.Bitmap
-- reads the registers back; Platform.Apart says that these updates bear on no lock.
-- Region: src/api/region_block.c, region_assign.c, region_free.c, region_metadata_create.c and the
-- other region calls of the same directory.
-- Memory, Mail: src/clib/memcpy_virt.c and src/api/mail_accept.c, mail_receive.c, mail_send.c.
-- Crypto: the interface of src/crypto/cryptography.h, a parameter of the calls that use it.
-- Thread, Enclave: src/api/thread_load.c, thread_delete.c and the files enclave_*.c beside them.
--   Enclave.Load has the page tables of src/common/load_page_table_entry.c, Enclave.Measure what a loaded
-- page adds to the measurement, Enclave.Switch the entry, the exit and src/handle_enclave/enclave_aex.c.
-- Init: the tables that src/init/init.c writes.
-- Cache: src/api/region_flush.c, region_cache_partitionning.c and src/common/flush_llc_region.c.
-- Cache.Lines has the lines that a flush loads; Cache.Rendezvous has the two cores that meet before the cache is touched, with
-- src/common/handle_llc_changes.c, as turns on the fields of `llc_sync`; Cache.Alone has its
-- invariant, Cache.Progress its end, Cache.Slices the scan of a partition.
-- Dispatch: the switches of src/handle_untrusted/api_call_from_untrusted.c and
-- src/handle_enclave/api_call_from_enclave.c. A trap ends with a machine, or with none where the call panics or
-- leaves the bounds of an array.
-- Emulation: src/kernel/handler_illegal_insn.c, on its own record of control registers.
-- Printing: src/clib/snprintf.c; the arguments are words, and strings are given by their address. The least
-- long, whose `-num` overflows, keeps its sign, as on two's complement.
-- Isolation: a small logic of the statements of calls, with one rule for each, and the calls as
-- programs in it. An invariant is a `View`, which is closed under the changes that bear neither on a
-- region nor on the cores; Isolation.Handlers runs both handlers for any view that the few other calls
-- keep. Isolation.Traps takes the view of the table and the maps, Isolation.Hardware that of the
-- registers as well, where each trap is of the program that its core runs.
-- Clib: the other files of src/clib/, on a memory of bytes; Clib.Copying, Clib.Filling, Clib.Comparing
-- and Clib.Strings say what they leave. A call of the monitor that copies or fills has that effect
-- written out.
-- Console: src/kernel/console.c, with the characters that the device gets as a list; Console.Format has
-- its own vsnprintf.
-- Kernel: src/kernel/mcall.c and mcall_enclave.c; the program's memory, the console's input and what
-- the other harts do between two reads of a flag are parameters.
-- System: the calls in any order, from the two cores; Region.Untouched says which of them leave the
-- ownership of regions alone.
-- Examples: runs on small machines.
--
-- How the parts fit: a call is written as the source has it, lock by lock. It is then compared with a
-- specification (`block_spec` and the like) that takes and leaves no lock, so that the theorems on
-- sequences of calls speak of atomic steps. What a refusal leaves locked in the source stays in the
-- specification: `leaked`, `left_locked` and the refused mailbox of `accept_spec`.
--
-- Bounds: the numbers are natural numbers, and a 64-bit wrap is written out with `word_mod`. The loops
-- run over the 64 regions, the two cores or a given number of pages or bytes, by recursion on that
-- number, so nothing runs out of fuel; the count of
-- decimal digits has twenty rounds, which Printing.Decimal shows to be enough for 64 bits. The loops
-- on pointers in Clib run on one round more than the length, those on strings on fuel that is given,
-- those on a mask of harts on 65 rounds, and print_int on twenty.
--
-- Assumptions: in a call on the cache the other core answers its interrupt once, at the time when the
-- leader waits for it; Cache.Rendezvous has the turns without that assumption. A panic ends the call
-- like an access out of bounds, with no machine to speak of: Isolation speaks of the traps that end, and not
-- of the machine after one that does not. An enclave's mailboxes are an array of their own, so Isolation
-- also leaves out a creation whose number of mailboxes makes the size of the metadata wrap. The
-- structures of enclaves and threads stand apart by their addresses and hold no word of the other
-- RAM. A range of the running program's memory that a call copies does not end beyond the last address
-- of 64 bits.
--
-- Not modelled: the vendored hash and signatures, the device tree,
-- the start of the kernel, the trap entries in assembly and the emptying of the caches of a core. The interleaving of two calls on
-- two cores is not modelled either: the locks stand for it.
pub mod Prelude
pub mod Clib
pub mod Console
pub mod Kernel
pub mod Types
pub mod Address
pub mod Call
pub mod Locks
pub mod Metadata
pub mod Platform
pub mod Region
pub mod Memory
pub mod Mail
pub mod Crypto
pub mod Thread
pub mod Enclave
pub mod Init
pub mod Cache
pub mod Dispatch
pub mod Isolation
pub mod Emulation
pub mod Printing
pub mod System
pub mod Examples
