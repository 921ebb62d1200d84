-- ===== src/Dispatch.antt =====
-- The choice of a call: src/handle_untrusted/api_call_from_untrusted.c and
-- src/handle_enclave/api_call_from_enclave.c. The code of the call stands in the register a7, its
-- arguments from a0 on, and its answer goes to a0.
use security_monitor.Prelude.{
  ℕ, ◌+◌, ◌*◌, ◌%◌, ◌^◌, ◌≤◌, ◌≡◌, Bool, not, Option, none, some, leb, ◌==◌, if◌then◌else◌, update,
}
use security_monitor.Types.{
  word_mod, page_size, ApiResult, code, CoreState, Machine, monitor_ok, unsupported,
}
use security_monitor.Call.{Result, run_value, returned, undefined}
use security_monitor.Crypto.{Crypto}
use security_monitor.Region.{
  region_block, region_assign, region_free, region_check_owned, region_metadata_create,
  region_owner, region_state, region_update, region_metadata_pages, region_metadata_start,
}
use security_monitor.Mail.{mail_accept, mail_receive, mail_send}
use security_monitor.Thread.{thread_load, thread_delete}
use security_monitor.Enclave.{
  enclave_create, enclave_init, enclave_delete, enclave_get_attest, enclave_get_keys,
  get_public_field,
}
use security_monitor.Enclave.Load.{
  Image, enclave_load_page_table, enclave_load_page, enclave_load_handler,
}
use security_monitor.Enclave.Switch.{enclave_enter, enclave_exit, enclave_aex}
use security_monitor.Cache.{region_flush, region_cache_partitioning}
use security_monitor.Metadata.{
  sizeof_enclave_metadata, sizeof_mailbox, thread_metadata_pages, enclave_metadata_pages,
}

-- How the handler leaves: back to the caller with its registers, into another program by an `mret`
-- of the call itself, or on to the kernel's calls.
pub data Reply : Type 0 where
  resumed : CoreState → Machine → Reply
  switched : Machine → Reply
  to_kernel : Reply
  stuck : Reply

-- `regs[10] = retval`
abbrev pub reply_value : CoreState → Result ℕ → Reply
reply_value regs (returned v m) = resumed (update regs 10 v) m
reply_value regs undefined = stuck

abbrev pub reply : CoreState → Result ApiResult → Reply
reply regs (returned r m) = resumed (update regs 10 (code r)) m
reply regs undefined = stuck

-- A call that does not return when it succeeds.
abbrev pub reply_unless_switched : CoreState → Result ApiResult → Reply
reply_unless_switched regs (returned monitor_ok m) = switched m
reply_unless_switched regs r = reply regs r

-- `KERNEL_ECALL_CODE_MIN` is 0.
abbrev pub is_kernel_call : ℕ → Bool
is_kernel_call call = leb call 9

module _ (c : Crypto) (image : Image) (core mtime : ℕ) (regs : CoreState) (m : Machine) where
  abbrev arg0 : ℕ
  arg0 = regs 10

  abbrev arg1 : ℕ
  arg1 = regs 11

  abbrev arg2 : ℕ
  arg2 = regs 12

  abbrev arg3 : ℕ
  arg3 = regs 13

  abbrev arg4 : ℕ
  arg4 = regs 14

  -- The `switch` of `ecall_from_s_trap`.
  unfoldable pub call_from_untrusted : ℕ → Reply
  call_from_untrusted call =
      if call == 1000
      then reply regs (enclave_create c arg0 arg1 arg2 arg3 (not (arg4 == 0)) m)
      else if call == 1001
      then reply regs (enclave_delete core arg0 m)
      else if call == 1002
      then reply_unless_switched regs (enclave_enter image core arg0 arg1 regs mtime m)
      else if call == 1004
      then reply regs (enclave_init c arg0 m)
      else if call == 1005
      then reply regs (enclave_load_handler c image arg0 arg1 m)
      else if call == 1006
      then reply regs (enclave_load_page_table c arg0 arg1 arg2 arg3 arg4 m)
      else if call == 1007
      then reply regs (enclave_load_page c arg0 arg1 arg2 arg3 arg4 m)
      else if call == 1008
      then resumed (update regs 10 (enclave_metadata_pages arg0)) m
      else if call == 1009
      then reply regs (enclave_get_attest arg0 arg1 arg2 arg3 m)
      else if call == 1011
      then reply regs (get_public_field (arg0 % 2 ^ 32) arg1 m)
      else if call == 1020
      then reply regs (mail_accept core arg0 arg1 m)
      else if call == 1021
      then reply regs (mail_receive core arg0 arg1 arg2 m)
      else if call == 1022
      then reply regs (mail_send core arg0 arg1 arg2 m)
      else if call == 1030
      then reply regs (region_assign core arg0 arg1 m)
      else if call == 1031
      then reply regs (region_block core arg0 m)
      else if call == 1033
      then reply regs (region_update core m)
      else if call == 1034
      then reply regs (region_free arg0 m)
      else if call == 1035
      then reply regs (region_metadata_create arg0 m)
      else if call == 1036
      then resumed (update regs 10 region_metadata_pages) m
      else if call == 1037
      then resumed (update regs 10 region_metadata_start) m
      else if call == 1038
      then reply_value regs (run_value (region_owner arg0) m)
      else if call == 1039
      then reply_value regs (run_value (region_state arg0) m)
      else if call == 1040
      then reply regs (region_cache_partitioning arg0 m)
      else if call == 1041
      then reply regs (region_flush arg0 m)
      else if call == 1050
      then reply regs (thread_delete arg0 m)
      else if call == 1051
      then reply regs (thread_load c arg0 arg1 arg2 arg3 arg4 m)
      else if call == 1052
      then resumed (update regs 10 thread_metadata_pages) m
      else resumed (update regs 10 (code unsupported)) m

  unfoldable pub ecall_from_s_trap : Reply
  unfolding call_from_untrusted
  ecall_from_s_trap = if is_kernel_call (regs 17) then to_kernel else call_from_untrusted (regs 17)

  -- The `switch` of `ecall_from_enclave_trap`.
  unfoldable pub call_from_enclave : ℕ → Reply
  call_from_enclave call =
      if call == 1003
      then reply_unless_switched regs (enclave_exit core m)
      else if call == 1010
      then reply regs (enclave_get_keys core arg0 arg1 arg2 arg3 m)
      else if call == 1011
      then reply regs (get_public_field (arg0 % 2 ^ 32) arg1 m)
      else if call == 1020
      then reply regs (mail_accept core arg0 arg1 m)
      else if call == 1021
      then reply regs (mail_receive core arg0 arg1 arg2 m)
      else if call == 1022
      then reply regs (mail_send core arg0 arg1 arg2 m)
      else if call == 1031
      then reply regs (region_block core arg0 m)
      else if call == 1032
      then reply regs (region_check_owned core arg0 m)
      else resumed (update regs 10 (code unsupported)) m

  -- A build without `DEBUG_ENCLAVE` leaves a kernel call of an enclave without an answer.
  unfoldable pub ecall_from_enclave_trap : Bool → Reply
  unfolding call_from_enclave
  ecall_from_enclave_trap debug_enclave =
      if is_kernel_call (regs 17)
      then (if debug_enclave then to_kernel else resumed regs m)
      else call_from_enclave (regs 17)

-- The traps that reach the monitor's calls, with the registers of the program that is left.
pub data Trap : Type 0 where
  from_untrusted : CoreState → Trap
  from_enclave : CoreState → Trap
  timer : CoreState → Trap

-- The machine that a handler leaves; there is none after an access out of bounds or a panic. The
-- kernel's calls do not bear on it.
abbrev pub reached : Machine → Reply → Option Machine
reached m (resumed regs n) = some n
reached m (switched n) = some n
reached m to_kernel = some m
reached m stuck = none

-- `force_exit_enclave` panics unless the exit succeeds.
abbrev pub exited : Result ApiResult → Option Machine
exited (returned monitor_ok n) = some n
exited r = none

-- `timer_interrupt_handler` of an enclave makes an asynchronous exit.
abbrev pub take_trap : Crypto → Image → Bool → ℕ → ℕ → Trap → Machine → Option Machine
take_trap c image debug_enclave core mtime (from_untrusted regs) m =
    reached m (ecall_from_s_trap c image core mtime regs m)
take_trap c image debug_enclave core mtime (from_enclave regs) m =
    reached m (ecall_from_enclave_trap c image core mtime regs m debug_enclave)
take_trap c image debug_enclave core mtime (timer regs) m = exited (enclave_aex core regs m)

-- The registers do not ask for an enclave with so many mailboxes that the size of its metadata wraps
-- around: the pages would not hold them, and an access to one would leave the metadata.
abbrev pub Sized : Trap → Type 0
Sized (from_untrusted regs) =
    regs 17 ≡ 1000 → sizeof_enclave_metadata + regs 13 * sizeof_mailbox + page_size ≤ word_mod
Sized _ = Unit {0}
